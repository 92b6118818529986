-- ===== src/Runs/Moves.antt =====
-- What one operation may do to one row of `runs`, operation by operation.
use fastapi_langgraph_templa.Base.{
  ℕ, String, true, false, ◌≡◌, ◌≤◌, refl, ap, ◌∙◌, Option, none, List, is_none, ltb, ◌+◌, arith,
}
use fastapi_langgraph_templa.Base.Json.{Json}
use fastapi_langgraph_templa.Runs.{RunStatus, is_active, is_pending, ExecutionParams, Run}
use fastapi_langgraph_templa.Runs.Status.{
  is_active_run, set_running, is_unowned, set_interrupted, set_final,
}
use fastapi_langgraph_templa.Runs.Lease.{
  is_claimable, set_claimed, is_held_by, clear_lease, extend_lease, is_drained, set_requeued,
}
use fastapi_langgraph_templa.Runs.Reaper.{
  retries, with_retries, is_still_crashed, set_exhausted, set_retried,
}
use fastapi_langgraph_templa.Runs.Prepare.{new_run}
use fastapi_langgraph_templa.Runs.Rules.{Descends}

-- A claim and its lease come together, a pending run has none, and an active run is within the
-- retry budget.
pub record IsSound (max_retries : ℕ) (r : Run) : Type 0 where
  pub together : is_none r.claimed_by ≡ is_none r.lease_expires_at
  pub unclaimed : is_pending r.status ≡ true → is_none r.claimed_by ≡ true
  pub budget : is_active r.status ≡ true → retries r ≤ max_retries

-- The keys stay, and a run that has ended keeps its status, output and error.
pub record Evolves (r r' : Run) : Type 0 where
  pub same_run : r'.run_id ≡ r.run_id
  pub same_thread : r'.thread_id ≡ r.thread_id
  pub same_user : r'.user_id ≡ r.user_id
  pub settled :
      is_active r.status ≡ false
      → (r'.status ≡ r.status) × (r'.output ≡ r.output) × (r'.error_message ≡ r.error_message)

pub Evolves-refl : (r : Run) → Evolves r r
Evolves-refl r = record {
  same_run = refl;
  same_thread = refl;
  same_user = refl;
  settled = λ h. (refl, refl, refl);
}

pub Evolves-trans : (r s t : Run) → Evolves r s → Evolves s t → Evolves r t
Evolves-trans r s t a b = record {
  same_run = b.same_run ∙ a.same_run;
  same_thread = b.same_thread ∙ a.same_thread;
  same_user = b.same_user ∙ a.same_user;
  settled = λ h.
      let (s1, o1, e1) = a.settled h in
      let (s2, o2, e2) = b.settled (ap is_active s1 ∙ h) in (s2 ∙ s1, o2 ∙ o1, e2 ∙ e1);
}

pub Evolves-Descends : (r r' : Run) → Evolves r r' → Descends r r'
Evolves-Descends r r' e = record {
  same_run = e.same_run;
  same_thread = e.same_thread;
  same_user = e.same_user;
  was_active = λ h. ground (arith, e.settled);
}

-- One update of a row by an operation of the program.
pub record Moves (max_retries : ℕ) (r r' : Run) : Type 0 where
  pub evolves : Evolves r r'
  pub sound : IsSound max_retries r → IsSound max_retries r'

module _ (m : ℕ) where
  pub start-Moves :
      (run_id user_id : String) (now : ℕ) (r : Run)
      → is_active_run run_id user_id r ≡ true
      → Moves m r (set_running now r)
  start-Moves run_id user_id now r h = ground arith

  pub interrupt-Moves :
      (run_id thread_id user_id : String) (now : ℕ) (r : Run)
      → is_unowned run_id thread_id user_id now r ≡ true
      → Moves m r (set_interrupted now r)
  interrupt-Moves run_id thread_id user_id now r h = ground arith

  pub final-Moves :
      (status : RunStatus) (output : Option Json) (error : Option String) (run_id user_id : String)
      (now : ℕ) (r : Run)
      → is_active status ≡ false
      → is_active_run run_id user_id r ≡ true
      → Moves m r (set_final status output error now r)
  final-Moves status output error run_id user_id now r ended h = ground arith

  pub claim-Moves :
      (run_id worker : String) (until : ℕ) (r : Run)
      → is_claimable run_id r ≡ true
      → Moves m r (set_claimed worker until r)
  claim-Moves run_id worker until r h = ground arith

  pub clear-Moves :
      (run_id worker : String) (r : Run)
      → is_held_by run_id worker r ≡ true
      → Moves m r (clear_lease r)
  clear-Moves run_id worker r h = ground arith

  pub extend-Moves :
      (run_id worker : String) (expiry : ℕ) (r : Run)
      → is_held_by run_id worker r ≡ true
      → Moves m r (extend_lease expiry r)
  extend-Moves run_id worker expiry r h = ground arith

  pub requeue-Moves :
      (run_ids : List String) (r : Run) → is_drained run_ids r ≡ true → Moves m r (set_requeued r)
  requeue-Moves run_ids r h = ground arith

  -- `s` is the locked copy of the row that the reaper read first.
  pub exhaust-Moves :
      (s : Run) (now : ℕ) (r : Run)
      → is_still_crashed s.run_id s.user_id now r ≡ true
      → Moves m r (set_exhausted (with_retries s.execution_params (retries s + 1)) now r)
  exhaust-Moves s now r h = ground arith

  pub retry-Moves :
      (s : Run) (now : ℕ) (r : Run)
      → ltb m (retries s + 1) ≡ false
      → is_still_crashed s.run_id s.user_id now r ≡ true
      → Moves m r (set_retried (with_retries s.execution_params (retries s + 1)) now r)
  retry-Moves s now r within h = ground arith

  pub Moves-refl : (r : Run) → Moves m r r
  Moves-refl r = record { evolves = Evolves-refl r; sound = λ h. h }

  pub Moves-trans : (r s t : Run) → Moves m r s → Moves m s t → Moves m r t
  Moves-trans r s t a b = record {
    evolves = Evolves-trans r s t a.evolves b.evolves;
    sound = λ h. b.sound (a.sound h);
  }

  pub Moves-Descends : (r r' : Run) → Moves m r r' → Descends r r'
  Moves-Descends r r' h = Evolves-Descends r r' h.evolves

  -- The row that `prepare_run` inserts.
  pub new_run-IsSound :
      (run_id thread_id user_id : String) (params : ExecutionParams) (now : ℕ)
      → params.retry_count ≡ none
      → IsSound m (new_run run_id thread_id user_id RunStatus.pending params now)
  new_run-IsSound run_id thread_id user_id params now h = ground arith
