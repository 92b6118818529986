-- ===== src/Stream/Induction.antt =====
-- `usecase/streaming/v2/session.py`: how to prove a fact of one run's stream from its parts.
use fastapi_langgraph_templa.Base.{
  String, Bool, true, false, ◌≡◌, refl, Option, List, [], ◌∷◌, ◌<>◌, all, any, select, arith,
  if◌then◌else◌, ◌&&◌,
}
use fastapi_langgraph_templa.Base.Json.{Json}
use fastapi_langgraph_templa.Broker.{Event}
use fastapi_langgraph_templa.Stream.Session.{Session}
use fastapi_langgraph_templa.Stream.Drain.{
  Part, nothing, ◌then◌, RunEvents, is_terminal, nothing_replayed, is_terminal_status, project,
  forward, drain_events, after_replay, root_running, unseen, status_end,
}

pub all-select {ℓ} :
    {A : Type ℓ} (p q : A → Bool) (xs : List A) → all p xs ≡ true → all p (select q xs) ≡ true
all-select p q [] h = refl
all-select p q (x ∷ xs) h = ground (arith, all-select p q xs)

-- A predicate on parts of the stream that is closed under sequence, and holds of the events that pass
-- a test.
module _ (loads : String → Option Json) (s : Session) (P : Part → Type 0) (good : Event → Bool)
    (P-nothing : P nothing) (P-then : (p q : Part) → P p → P q → P (p then q))
    (P-running : (id : String) → P (root_running loads s id))
    (P-project : (e : Event) → good e ≡ true → P (project loads s e)) where
  if-by : (b : Bool) (p q : Part) → P p → P q → P (if b then p else q)
  if-by true p q hp hq = hp
  if-by false p q hp hq = hq

  forward-by : (es : List Event) → all good es ≡ true → P (forward loads s es)
  unfolding forward
  forward-by [] h = P-nothing
  forward-by (e ∷ es) h =
      P-then (project loads s e) (if is_terminal e then nothing else forward loads s es)
        (P-project e (ground arith))
        (if-by (is_terminal e) nothing (forward loads s es) P-nothing
          (forward-by es (ground arith)))

  after_replay-by :
      (run : RunEvents)
      → all good run.tail ≡ true
      → good (run.run_id <> ":status-end", status_end run.run_status) ≡ true
      → P (after_replay loads s run)
  after_replay-by run h e =
      let end_ : Event = (run.run_id <> ":status-end", status_end run.run_status) in
      let rest = unseen run.replayed run.tail in
      let over = is_terminal_status run.run_status in
      if-by (any is_terminal run.replayed) nothing
        (if over then project loads s end_ else forward loads s rest) P-nothing
        (if-by over (project loads s end_) (forward loads s rest) (P-project end_ e)
          (forward-by rest (all-select good _ run.tail h)))

  -- For the body of `drain_run`, after the bookkeeping is reset.
  pub drain_events-by :
      (run : RunEvents)
      → all good run.replayed ≡ true
      → all good run.tail ≡ true
      → good (run.run_id <> ":status-end", status_end run.run_status) ≡ true
      → P (
          if is_terminal_status run.run_status && nothing_replayed run.replayed
          then nothing
          else drain_events loads s run)
  drain_events-by run h k e =
      let replayed = forward-by run.replayed h in
      if-by _ nothing (drain_events loads s run) P-nothing (
        P-then (root_running loads s run.run_id)
          (forward loads s run.replayed then after_replay loads s run) (P-running run.run_id)
          (P-then (forward loads s run.replayed) (after_replay loads s run) replayed
            (after_replay-by run k e)))
