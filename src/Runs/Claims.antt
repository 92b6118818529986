-- ===== src/Runs/Claims.antt =====
-- Who may take a run from whom.
use fastapi_langgraph_templa.Base.{
  ℕ, String, Bool, true, false, ◌&&◌, not, ◌≡◌, refl, ◌∙◌, ap, Option, none, some, List, [], ◌∷◌,
  is_none, leb, ltb, ◌+◌, any-update_self, Extends, Extends-refl, Extends-trans, Extends-update,
  any, select, Bool-cases, inl, inr, arith,
}
use fastapi_langgraph_templa.Runs.{ThreadStatus, Run, Db}
use fastapi_langgraph_templa.Runs.Status.{
  interrupt_unowned_run, is_unowned, set_interrupted, put_status_if_no_active_runs,
}
use fastapi_langgraph_templa.Runs.Lease.{claim_run, is_claimable, set_claimed}
use fastapi_langgraph_templa.Runs.Reaper.{
  Recovery, retries, is_still_crashed, recover_row, recover_rows, fail_threads,
  recover_crashed_runs, lockable, start_recovery,
}

-- The lease has not passed at `now`, and somebody holds it.
abbrev pub has_time : Option ℕ → ℕ → Bool
has_time none now = false
has_time (some t) now = leb now t

abbrev pub is_live : ℕ → Run → Bool
is_live now r = not (is_none r.claimed_by) && has_time r.lease_expires_at now

abbrev pub Spares : ℕ → Run → Run → Type 0
Spares now r r' = is_live now r ≡ true → r' ≡ r

module _ (now : ℕ) where
  Spares-refl : (r : Run) → Spares now r r
  Spares-refl r h = refl

  Spares-trans : (r s t : Run) → Spares now r s → Spares now s t → Spares now r t
  Spares-trans r s t p q h = q (ap (is_live now) (p h) ∙ h) ∙ p h

  Spares-list : (rs : List Run) → Extends (Spares now) rs rs
  Spares-list = Extends-refl (Spares now) Spares-refl

  -- Cancelling a run from the API leaves every run as it is that somebody holds by a lease which has
  -- not passed.
  pub interrupt-Spares :
      (run_id thread_id user_id : String) (db : Db)
      → Extends (Spares now) db.runs (interrupt_unowned_run run_id thread_id user_id now db).0.runs
  unfolding interrupt_unowned_run put_status_if_no_active_runs
  interrupt-Spares run_id thread_id user_id db =
      let p = is_unowned run_id thread_id user_id now in
      elim (Bool-cases (any p db.runs)) [
        | inl e ↦ rw e (
            Extends-update (Spares now) Spares-refl p (set_interrupted now)
              (λ r h live. ground arith) db.runs)
        | inr e ↦ rw e (Spares-list db.runs)
      ]

  recover_row-Spares :
      (m : ℕ) (r : Run) (acc : Recovery)
      → Extends (Spares now) acc.db.runs (recover_row now m r acc).db.runs
  unfolding recover_row
  recover_row-Spares m r acc =
      let p = is_still_crashed r.run_id r.user_id now in
      elim (Bool-cases (any p acc.db.runs)) [
        | inl e ↦ rw e (elim (Bool-cases (ltb m (retries r + 1))) [
          | inl t ↦
              rw t
                (Extends-update (Spares now) Spares-refl p _ (λ s h live. ground arith) acc.db.runs)
          | inr t ↦
              rw t
                (Extends-update (Spares now) Spares-refl p _ (λ s h live. ground arith) acc.db.runs)
        ])
        | inr e ↦ rw e (Spares-list acc.db.runs)
      ]

  recover_rows-Spares :
      (m : ℕ) (rs : List Run) (acc : Recovery)
      → Extends (Spares now) acc.db.runs (recover_rows now m rs acc).db.runs
  unfolding recover_rows
  recover_rows-Spares m [] acc = Spares-list acc.db.runs
  recover_rows-Spares m (r ∷ rs) acc =
      Extends-trans Spares-trans (recover_row-Spares m r acc)
        (recover_rows-Spares m rs (recover_row now m r acc))

  pub runs-fail_threads :
      (by_user : List (String × List String)) (db : Db)
      → (fail_threads now by_user db).runs ≡ db.runs
  unfolding fail_threads put_status_if_no_active_runs
  runs-fail_threads [] db = refl
  runs-fail_threads ((u, ts) ∷ m) db =
      runs-fail_threads m (put_status_if_no_active_runs ts ThreadStatus.error u now db)

  -- The reaper, whatever ids it was given and whatever rows were locked, leaves every run as it is
  -- that somebody holds by a lease which has not passed.
  pub recover-Spares :
      (run_ids : List String) (locked : Run → Bool) (m : ℕ) (db : Db)
      → Extends (Spares now) db.runs (recover_crashed_runs run_ids locked now m db).0.runs
  unfolding recover_crashed_runs
  recover-Spares run_ids locked m db =
      rw runs-fail_threads
        (recover_rows-Spares m (select (lockable run_ids locked now) db.runs) (start_recovery db))

-- Of two workers that claim one run, one after the other, the second gets nothing and changes
-- nothing, if the first got the run.
pub claim_once :
    (run_id first second : String) (until until' : ℕ) (db : Db)
    → (claim_run run_id first until db).1 ≡ true
    → claim_run run_id second until' (claim_run run_id first until db).0
      ≡ ((claim_run run_id first until db).0, false)
unfolding claim_run
claim_once run_id first second until until' db won =
    let p = is_claimable run_id in
    elim (Bool-cases (any p db.runs)) [
      | inl e ↦
          rw e (rw (any-update_self p (set_claimed first until) db.runs (λ r h. ground arith)))
      | inr e ↦ let lost : false ≡ true = rw e at won in cc
    ]
