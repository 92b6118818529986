-- ===== src/Runs/Execute/Ends.antt =====
-- What is true when `execute_run` is over.
use fastapi_langgraph_templa.Base.{
  ℕ, String, Bool, true, false, not, ◌||◌, ◌≡◌, ◌≢◌, refl, ap, ◌∙◌, some, Option, [], contains, any,
  Bool-cases, inl, inr, arith,
}
use fastapi_langgraph_templa.Runs.{RunStatus, ThreadStatus, is_active, Db}
use fastapi_langgraph_templa.Runs.Status.{
  Serializer, safe_serialize, start_run, finalize, is_active_run,
}
use fastapi_langgraph_templa.Runs.Outcome.{finalize_inactive}
use fastapi_langgraph_templa.Runs.Execute.{
  Job, Cancellations, Ending, finished, cancelled, failed, Signal, Executed, begin, settle, leave,
  conclude, skip, execute_run,
}

module _ {O : Type 0} (z : Serializer O) (empty : O) (job : Job) (now : ℕ) where
  abbrev pub still_active : Db → Bool
  still_active db = any (is_active_run job.run_id job.user_id) db.runs

  settle_over :
      (status : RunStatus) (thread_status : ThreadStatus) (output : O) (error : Option String)
      (signal : Signal) (raised : Bool) (sets : Cancellations) (db : Db)
      → is_active status ≡ false
      → still_active
          (settle z empty job now status thread_status output error signal raised sets db).db
        ≡ false
  unfolding settle
  settle_over status thread_status output error signal raised sets db ended =
      finalize_inactive job.run_id job.thread_id job.user_id status thread_status
        (some (safe_serialize z output)) error now db ended

  -- A signal goes out only from the call that found the run active, so that it ended it.
  settle_signals :
      (status : RunStatus) (thread_status : ThreadStatus) (output : O) (error : Option String)
      (signal : Signal) (raised : Bool) (sets : Cancellations) (db : Db)
      → (settle z empty job now status thread_status output error signal raised sets db).signals
        ≢ []
      → still_active db ≡ true
  unfolding settle finalize
  settle_signals status thread_status output error signal raised sets db h = ground arith

  record Concluded (db : Db) (x : Executed) : Type 0 where
    over : x.cleaned ≡ true → still_active x.db ≡ false
    left : x.cleaned ≡ false → (x.db ≡ db) × (x.signals ≡ []) × (x.raised ≡ true)
    signalled : x.signals ≢ [] → still_active db ≡ true

  settle-Concluded :
      (status : RunStatus) (thread_status : ThreadStatus) (output : O) (error : Option String)
      (signal : Signal) (raised : Bool) (sets : Cancellations) (db : Db)
      → is_active status ≡ false
      → Concluded db
          (settle z empty job now status thread_status output error signal raised sets db)
  settle-Concluded status thread_status output error signal raised sets db ended = record {
    over = λ h. settle_over status thread_status output error signal raised sets db ended;
    left = unfold settle in λ h. cc;
    signalled = settle_signals status thread_status output error signal raised sets db;
  }

  leave-Concluded : (sets : Cancellations) (db : Db) → Concluded db (leave z empty job now sets db)
  unfolding leave
  leave-Concluded sets db = record {
    over = λ h. cc;
    left = λ h. (refl, refl, refl);
    signalled = λ h. absurd (h refl);
  }

  conclude-Concluded :
      (ending : Ending O) (sets : Cancellations) (db : Db)
      → Concluded db (conclude z empty job now ending sets db)
  unfolding conclude
  conclude-Concluded (finished true out) sets db = settle-Concluded _ _ _ _ _ _ sets db refl
  conclude-Concluded (finished false out) sets db = settle-Concluded _ _ _ _ _ _ sets db refl
  conclude-Concluded (failed name message) sets db = settle-Concluded _ _ _ _ _ _ sets db refl
  conclude-Concluded cancelled sets db = elim (Bool-cases (contains sets.lease_loss job.run_id)) [
    | inl a ↦ rw a (leave-Concluded sets db)
    | inr a ↦ rw a (elim (Bool-cases (contains sets.shutdown job.run_id)) [
      | inl b ↦ rw b (leave-Concluded sets db)
      | inr b ↦ rw b (elim (Bool-cases (contains sets.timeout job.run_id)) [
        | inl c ↦ rw c (settle-Concluded _ _ _ _ _ _ sets db refl)
        | inr c ↦ rw c (settle-Concluded _ _ _ _ _ _ sets db refl)
      ])
    ])
  ]

  started_or_over :
      (db : Db) → (begin job now db).1 ≡ false → still_active (begin job now db).0 ≡ false
  unfolding begin start_run
  started_or_over db h = ground arith

  -- When `execute_run` cleans up its stream and sets the done key, the database has no active run of
  -- this id and user, however the graph ended and whatever others did while it ran.
  pub cleaned_is_over :
      (others : Db → Db) (ending : Ending O) (sets : Cancellations) (db : Db)
      → (execute_run z empty job now others ending sets db).cleaned ≡ true
      → still_active (execute_run z empty job now others ending sets db).db ≡ false
  unfolding execute_run skip
  cleaned_is_over others ending sets db h = elim (Bool-cases (begin job now db).1) [
    | inl e ↦ rw e ((conclude-Concluded ending sets (others (begin job now db).0)).over (rw e at h))
    | inr e ↦ rw e (started_or_over db e)
  ]

  -- Cancelled because the lease was lost or the process shuts down.
  abbrev pub is_handed_over : Ending O → Cancellations → Bool
  is_handed_over (finished has_interrupt out) sets = false
  is_handed_over (failed name message) sets = false
  is_handed_over cancelled sets =
      contains sets.lease_loss job.run_id || contains sets.shutdown job.run_id

  conclude-cleaned :
      (ending : Ending O) (sets : Cancellations) (db : Db)
      → (conclude z empty job now ending sets db).cleaned ≡ not (is_handed_over ending sets)
  unfolding conclude settle leave
  conclude-cleaned (finished true out) sets db = refl
  conclude-cleaned (finished false out) sets db = refl
  conclude-cleaned (failed name message) sets db = refl
  conclude-cleaned cancelled sets db = elim (Bool-cases (contains sets.lease_loss job.run_id)) [
    | inl a ↦ rw a refl
    | inr a ↦ rw a (elim (Bool-cases (contains sets.shutdown job.run_id)) [
      | inl b ↦ rw b refl
      | inr b ↦ rw b (elim (Bool-cases (contains sets.timeout job.run_id)) [
        | inl c ↦ rw c refl
        | inr c ↦ rw c refl
      ])
    ])
  ]

  -- A run is handed over exactly if it was cancelled, because its lease was lost or the process shuts
  -- down. Then its end changes no row, publishes nothing, cleans nothing up and passes the cancellation
  -- on. By every other end, a cancellation for the time limit or by the user among them, no active run
  -- of that id is left to the user, and the stream is cleaned up.
  pub handed_over_exactly :
      (ending : Ending O) (sets : Cancellations) (db : Db)
      → (is_handed_over ending sets ≡ true
          → ((conclude z empty job now ending sets db).db ≡ db)
            × ((conclude z empty job now ending sets db).signals ≡ [])
            × ((conclude z empty job now ending sets db).cleaned ≡ false)
            × ((conclude z empty job now ending sets db).raised ≡ true))
        × (is_handed_over ending sets ≡ false
            → (still_active (conclude z empty job now ending sets db).db ≡ false)
              × ((conclude z empty job now ending sets db).cleaned ≡ true))
  handed_over_exactly ending sets db =
      let cleaned = conclude-cleaned ending sets db in
      let facts = conclude-Concluded ending sets db in
      (
        λ h.
            let kept = cleaned ∙ ap not h in
            let (same, quiet, passed) = facts.left kept in (same, quiet, kept, passed),
        λ h. let over = cleaned ∙ ap not h in (facts.over over, over),
      )

  -- A signal goes out to the stream's consumers only if the run was still active at its end.
  pub signal_needs_active :
      (ending : Ending O) (sets : Cancellations) (db : Db)
      → (conclude z empty job now ending sets db).signals ≢ []
      → still_active db ≡ true
  signal_needs_active ending sets db = (conclude-Concluded ending sets db).signalled
