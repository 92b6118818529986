-- ===== src/Breaker/Trips.antt =====
-- The life of a breaker under calls that follow one another.
use fastapi_langgraph_templa.Base.{
  ℕ, ◌+◌, ◌≤◌, ◌<◌, String, false, ◌≡◌, refl, ap, map, inl, inr, Option-cases, ◌∙◌, ◌++◌, none,
  some, List, [], ◌∷◌, arith, leb, ltb, if◌then◌else◌, ◌≢◌, str_eq, str_eq_refl, length, eq_iff,
}
use fastapi_langgraph_templa.Base.Dict.{lookup-insert, lookup-remove}
use fastapi_langgraph_templa.Breaker.{
  Attempt, returns, raises, cancels, finish, cancelled, Counts, Storage, get_state, set_state,
  clear, Breaker, admit, on_failure, on_success, CallResult, circuit_open, raised, returned, call,
}

pub get-set_state :
    (st : Storage) (k j : String) (n t : ℕ)
    → get_state (set_state st k n t) j ≡ (if str_eq k j then (n, t) else get_state st j)
unfolding get_state set_state
get-set_state st k j n t = rw lookup-insert (ground arith)

pub get-clear :
    (st : Storage) (k j : String)
    → get_state (clear st k) j ≡ (if str_eq k j then (0, 0) else get_state st j)
unfolding get_state clear
get-clear st k j = rw lookup-remove (ground arith)

-- The counts of the breaker's own name after each end of a call.
pub after_failure :
    (b : Breaker) (open_until now : ℕ) (st : Storage)
    → let n = (get_state st b.name).0 + 1 in
      get_state (on_failure b open_until now st) b.name ≡ (
        n,
        (if leb b.fail_max n
            then now + b.cooldown_secs
            else if ltb 0 open_until
            then now + b.cooldown_secs
            else 0),
      )
unfolding on_failure
after_failure b open_until now st = rw (get-set_state, str_eq_refl) (ground arith)

pub after_success : (b : Breaker) (st : Storage) → get_state (on_success b st) b.name ≡ (0, 0)
unfolding on_success
after_success b st = rw (get-clear, str_eq_refl) refl

-- Calls one after another: the admission's time, how the function ends, and the end's time.
abbrev pub Calls : Type 0
Calls = List (ℕ × Attempt × ℕ)

unfoldable pub run : Breaker → Calls → Storage → Storage
run b [] st = st
run b ((now, attempt, then_) ∷ cs) st = run b cs (call b now attempt then_ st).0

-- What the callers get.
unfoldable pub results : Breaker → Calls → Storage → List CallResult
results b [] st = []
results b ((now, attempt, then_) ∷ cs) st =
    (call b now attempt then_ st).1 ∷ results b cs (call b now attempt then_ st).0

abbrev pub AllFail : Calls → Type 0
AllFail [] = Unit
AllFail ((now, attempt, then_) ∷ cs) = (attempt ≡ raises) × AllFail cs

abbrev pub AllBefore : ℕ → Calls → Type 0
AllBefore t [] = Unit
AllBefore t ((now, attempt, then_) ∷ cs) = (now < t) × AllBefore t cs

module _ (b : Breaker) where
  abbrev pub counts : Storage → Counts
  counts st = get_state st b.name

  admit_at :
      (n u now : ℕ) (st : Storage)
      → counts st ≡ (n, u)
      → admit b now st ≡ (if ltb now u then none else some u)
  unfolding admit
  admit_at n u now st c = rw c

  call_admitted :
      (n u now then_ : ℕ) (attempt : Attempt) (st : Storage)
      → counts st ≡ (n, u)
      → u ≤ now
      → (call b now attempt then_ st).0 ≡ (finish b attempt u then_ st).0
  unfolding call
  call_admitted n u now then_ attempt st c h = ground (arith, admit_at n u now st c)

  call_refused :
      (n u now then_ : ℕ) (attempt : Attempt) (st : Storage)
      → counts st ≡ (n, u)
      → now < u
      → (call b now attempt then_ st).0 ≡ st
  unfolding call
  call_refused n u now then_ attempt st c h = ground (arith, admit_at n u now st c)

  refused_result :
      (n u now then_ : ℕ) (attempt : Attempt) (st : Storage)
      → counts st ≡ (n, u)
      → now < u
      → (call b now attempt then_ st).1 ≡ circuit_open
  unfolding call
  refused_result n u now then_ attempt st c h = ground (arith, admit_at n u now st c)

  admitted_result :
      (n u now then_ : ℕ) (attempt : Attempt) (st : Storage)
      → counts st ≡ (n, u)
      → u ≤ now
      → (call b now attempt then_ st).1 ≡ (finish b attempt u then_ st).1
  unfolding call
  admitted_result n u now then_ attempt st c h = ground (arith, admit_at n u now st c)

  call_cancelled :
      (n u now then_ : ℕ) (st : Storage)
      → counts st ≡ (n, u)
      → u ≤ now
      → call b now cancels then_ st ≡ (st, cancelled)
  unfolding call
  call_cancelled n u now then_ st c h = ground (arith, admit_at n u now st c)

  call_closed :
      (k now then_ : ℕ) (st : Storage)
      → counts st ≡ (k, 0)
      → k + 1 < b.fail_max
      → counts (call b now raises then_ st).0 ≡ (k + 1, 0)
  call_closed k now then_ st c h =
      rw (call_admitted k 0 now then_ raises st c (omega arith))
        (after_failure b 0 then_ st ∙ rw c (ground arith))

  call_last :
      (k now then_ : ℕ) (st : Storage)
      → counts st ≡ (k, 0)
      → b.fail_max ≤ k + 1
      → counts (call b now raises then_ st).0 ≡ (k + 1, then_ + b.cooldown_secs)
  call_last k now then_ st c h =
      rw (call_admitted k 0 now then_ raises st c (omega arith))
        (after_failure b 0 then_ st ∙ rw c (ground arith))

  refused_run :
      (n u : ℕ) (cs : Calls) (st : Storage) → counts st ≡ (n, u) → AllBefore u cs → run b cs st ≡ st
  unfolding run
  refused_run n u [] st c early = refl
  refused_run n u ((now, attempt, then_) ∷ cs) st c (h, hs) =
      rw (call_refused n u now then_ attempt st c h) (refused_run n u cs st c hs)

  refused_results :
      (n u : ℕ) (cs : Calls) (st : Storage)
      → counts st ≡ (n, u)
      → AllBefore u cs
      → results b cs st ≡ map (λ c. circuit_open) cs
  unfolding results
  refused_results n u [] st c early = refl
  refused_results n u ((now, attempt, then_) ∷ cs) st c (h, hs) =
      rw (refused_result n u now then_ attempt st c h) (
        rw (call_refused n u now then_ attempt st c h)
          (ap (λ rs. circuit_open ∷ rs) (refused_results n u cs st c hs)))

  -- Failing calls in a row on a closed breaker, fewer than `fail_max` with those counted before,
  -- only count up: the breaker stays closed.
  pub stays_closed :
      (k : ℕ) (cs : Calls) (st : Storage)
      → counts st ≡ (k, 0)
      → AllFail cs
      → k + length cs < b.fail_max
      → counts (run b cs st) ≡ (k + length cs, 0)
  unfolding run
  stays_closed k [] st c f h = c ∙ ground arith
  stays_closed k ((now, attempt, then_) ∷ cs) st c (f, fs) h = rw f (
      stays_closed (k + 1) cs (call b now raises then_ st).0
        (call_closed k now then_ st c (omega arith)) fs (omega arith)
      ∙ ground arith)

  run-append : (cs ds : Calls) (st : Storage) → run b (cs ++ ds) st ≡ run b ds (run b cs st)
  unfolding run
  run-append [] ds st = refl
  run-append ((now, attempt, then_) ∷ cs) ds st = run-append cs ds (call b now attempt then_ st).0

  -- From a closed breaker with nothing counted, the failing call that makes it `fail_max` in a row
  -- opens the breaker, until the cooldown after that call's end.
  pub opens_at_fail_max :
      (cs : Calls) (now then_ : ℕ) (st : Storage)
      → counts st ≡ (0, 0)
      → AllFail cs
      → length cs + 1 ≡ b.fail_max
      → counts (run b (cs ++ (now, raises, then_) ∷ []) st) ≡ (b.fail_max, then_ + b.cooldown_secs)
  opens_at_fail_max cs now then_ st c f h = rw run-append (
      unfold run in
      call_last (length cs) now then_ (run b cs st)
        (stays_closed 0 cs st c f (omega arith) ∙ ground arith) (omega arith)
      ∙ ground arith)

  -- An open breaker answers every call before its time with the error of an open circuit, and nothing
  -- is stored. The first call after it is let through: a success returns and closes the breaker, a
  -- failure raises and opens it anew, and a cancelled call stores nothing.
  pub half_open :
      (n u : ℕ) (cs : Calls) (now then_ : ℕ) (st : Storage)
      → counts st ≡ (n, u)
      → 0 < u
      → AllBefore u cs
      → u ≤ now
      → (results b cs st ≡ map (λ c. circuit_open) cs)
        × (run b cs st ≡ st)
        × ((call b now returns then_ (run b cs st)).1 ≡ returned)
        × ((call b now raises then_ (run b cs st)).1 ≡ raised)
        × (call b now cancels then_ (run b cs st) ≡ (st, cancelled))
        × (counts (run b (cs ++ (now, returns, then_) ∷ []) st) ≡ (0, 0))
        × (counts (run b (cs ++ (now, raises, then_) ∷ []) st) ≡ (n + 1, then_ + b.cooldown_secs))
  half_open n u cs now then_ st c pos early late =
      let quiet = refused_run n u cs st c early in
      (
        refused_results n u cs st c early,
        quiet,
        rw quiet (admitted_result n u now then_ returns st c late),
        rw quiet (admitted_result n u now then_ raises st c late),
        rw quiet (call_cancelled n u now then_ st c late),
        rw (run-append, quiet)
            (unfold run in rw (call_admitted n u now then_ returns st c late) (after_success b st)),
        rw (run-append, quiet)
            (unfold run in
              rw (call_admitted n u now then_ raises st c late)
                (after_failure b u then_ st ∙ rw c (ground arith))),
      )

module _ (b : Breaker) (other : String) (ne : b.name ≢ other) where
  other_name : str_eq b.name other ≡ false
  other_name = ground (arith, eq_iff b.name other)

  pub failure_frame :
      (u now : ℕ) (st : Storage) → get_state (on_failure b u now st) other ≡ get_state st other
  unfolding on_failure
  failure_frame u now st = rw (get-set_state, other_name) refl

  pub success_frame : (st : Storage) → get_state (on_success b st) other ≡ get_state st other
  unfolding on_success
  success_frame st = rw (get-clear, other_name) refl

  finish_frame :
      (u then_ : ℕ) (attempt : Attempt) (st : Storage)
      → get_state (finish b attempt u then_ st).0 other ≡ get_state st other
  finish_frame u then_ returns st = success_frame st
  finish_frame u then_ raises st = failure_frame u then_ st
  finish_frame u then_ cancels st = refl

  call_frame :
      (now then_ : ℕ) (attempt : Attempt) (st : Storage)
      → get_state (call b now attempt then_ st).0 other ≡ get_state st other
  unfolding call
  call_frame now then_ attempt st = elim (Option-cases (admit b now st)) [
    | inl e ↦ rw (e, call)
    | inr (u, e) ↦ rw (e, call) (finish_frame u then_ attempt st)
  ]

-- The calls of one breaker leave the counts of every other name alone.
pub run_frame :
    (b : Breaker) (cs : Calls) (st : Storage) (other : String)
    → b.name ≢ other
    → get_state (run b cs st) other ≡ get_state st other
unfolding run
run_frame b [] st other ne = refl
run_frame b ((now, attempt, then_) ∷ cs) st other ne =
    run_frame b cs (call b now attempt then_ st).0 other ne
    ∙ call_frame b other ne now then_ attempt st
