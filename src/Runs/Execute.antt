-- ===== src/Runs/Execute.antt =====
-- `execute_run` of `usecase/execution/run_executor.py`. The graph itself is not modelled: how it ends is
-- an argument. Between the start and the end other transactions may change the tables, so the two ends
-- are functions of the tables that they find.
pub mod Ends
use Prim.Native.String.{◌++◌}
use fastapi_langgraph_templa.Base.{
  ℕ, String, Bool, true, false, ◌&&◌, not, ◌≡◌, ◌≢◌, refl, sym, ◌∙◌, ap, Option, none, some, List,
  [], ◌∷◌, ◌⊎◌, contains, any, Bool-cases, inl, inr, arith, if◌then◌else◌, str_eq, select, all,
  str_eq_refl,
}
use fastapi_langgraph_templa.Base.Json.{Json}
use fastapi_langgraph_templa.Runs.{RunStatus, ThreadStatus, is_active, Run, Db}
use fastapi_langgraph_templa.Runs.Status.{
  Serializer, safe_serialize, start_run, finalize, is_active_run,
}

-- `RunIdentity` with the user's identity.
pub record Job : Type 0 where
  pub run_id : String
  pub thread_id : String
  pub user_id : String

-- Why runs of this process were cancelled.
pub record Cancellations : Type 0 where
  pub lease_loss : List String
  pub shutdown : List String
  pub timeout : List String

-- How `_stream_graph` ends: with its result, by `CancelledError`, or by another exception, given as
-- its type's name and its text.
pub data Ending (O : Type 0) : Type 0 where
  finished : Bool → O → Ending O
  cancelled : Ending O
  failed : String → String → Ending O

-- What is published to the stream's consumers; a publication that fails is only logged.
pub data Signal : Type 0 where
  run_error : String → String → Signal
  run_cancelled : Signal
  end_event : RunStatus → Signal

-- `cleaned` is the cleanup of the stream with the done key; `raised` is `CancelledError` passed on.
pub record Executed : Type 0 where
  pub db : Db
  pub signals : List Signal
  pub cleaned : Bool
  pub raised : Bool
  pub sets : Cancellations

abbrev pub discard : String → List String → List String
discard s xs = select (λ x. not (str_eq x s)) xs

-- The three `discard`s of the `finally` clause.
unfoldable pub discard_all : String → Cancellations → Cancellations
discard_all run_id c = record {
  lease_loss = discard run_id c.lease_loss;
  shutdown = discard run_id c.shutdown;
  timeout = discard run_id c.timeout;
}

unfoldable pub begin : Job → ℕ → Db → Db × Bool
unfolding start_run
begin job now db = start_run job.run_id job.user_id now db

-- `finalized`, and the signal that follows a finalization that took place.
abbrev pub signal_if : Bool → Signal → List Signal
signal_if true s = s ∷ []
signal_if false s = []

-- `f"{type(exc).__name__}: execution failed"`
abbrev pub failure_text : String → String
failure_text name = name ++ ": execution failed"

module _ {O : Type 0} (z : Serializer O) (empty : O) (job : Job) (now : ℕ) where
  -- One call of `finalize_run` with its signal, and the `finally` clause of a run that ends here.
  unfoldable pub settle :
      RunStatus → ThreadStatus → O → Option String → Signal → Bool → Cancellations → Db → Executed
  settle status thread_status output error signal raised sets db =
      let (db', finalized) =
        finalize job.run_id job.thread_id job.user_id status thread_status
          (some (safe_serialize z output)) error now db in
      record {
        db = db';
        signals = signal_if finalized signal;
        cleaned = true;
        raised = raised;
        sets = discard_all job.run_id sets;
      }

  -- The run goes on elsewhere: nothing is written, published or cleaned up.
  unfoldable pub leave : Cancellations → Db → Executed
  leave sets db = record {
    db = db;
    signals = [];
    cleaned = false;
    raised = true;
    sets = discard_all job.run_id sets;
  }

  unfoldable pub conclude : Ending O → Cancellations → Db → Executed
  conclude (finished has_interrupt data_) sets db =
      if has_interrupt
      then settle RunStatus.interrupted ThreadStatus.interrupted data_ none
          (end_event RunStatus.interrupted) false sets db
      else settle RunStatus.success ThreadStatus.idle data_ none (end_event RunStatus.success) false
          sets db
  conclude cancelled sets db =
      if contains sets.lease_loss job.run_id
      then leave sets db
      else if contains sets.shutdown job.run_id
      then leave sets db
      else if contains sets.timeout job.run_id
      then settle RunStatus.error ThreadStatus.error empty
          (some "Job exceeded maximum execution time")
          (run_error "TimeoutError: execution failed" "TimeoutError") true sets db
      else settle RunStatus.interrupted ThreadStatus.idle empty none run_cancelled true sets db
  conclude (failed name message) sets db =
      settle RunStatus.error ThreadStatus.error empty (some message)
        (run_error (failure_text name) name) false sets db

  -- The early return, when the run is no longer active at the start.
  unfoldable pub skip : Cancellations → Db → Executed
  skip sets db = record {
    db = db;
    signals = [];
    cleaned = true;
    raised = false;
    sets = discard_all job.run_id sets;
  }

  -- `execute_run`, where `others` is what other transactions do while the graph runs.
  unfoldable pub execute_run : (Db → Db) → Ending O → Cancellations → Db → Executed
  unfolding begin conclude skip
  execute_run others ending sets db =
      let (db', started) = begin job now db in
      if started then conclude ending sets (others db') else skip sets db'
