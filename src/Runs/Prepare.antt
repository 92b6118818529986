-- ===== src/Runs/Prepare.antt =====
-- The transaction of `_prepare_run` (`usecase/execution/run_preparation.py`) on the two tables: the
-- thread is made if it is missing, marked busy, and the run is inserted beside it.
pub mod Changes
use fastapi_langgraph_templa.Base.{
  ℕ, String, [], ◌∷◌, any, str_eq, if◌then◌else◌, none, some, ◌++◌, Result, ok, err, update_where,
  ◌>>=◌,
}
use fastapi_langgraph_templa.Runs.{RunStatus, ThreadStatus, ExecutionParams, Run, Thread, Db}
use fastapi_langgraph_templa.Runs.Status.{ValueError, set_thread_status}

-- `ValueError`, or `HTTPException(400, "Cannot auto-create thread: user_id is required")`.
pub data PrepareError : Type 0 where
  invalid : ValueError → PrepareError
  user_id_required : PrepareError

abbrev pub or_invalid {ℓ} : {A : Type ℓ} → Result ValueError A → Result PrepareError A
or_invalid (ok a) = ok a
or_invalid (err e) = err (invalid e)

abbrev pub touch : ℕ → Thread → Thread
touch now t = record t { updated_at = now }

-- `update_thread_metadata`, less the metadata.
unfoldable pub ensure_thread : String → String → ℕ → Db → Result PrepareError Db
ensure_thread thread_id user_id now db =
    if any (λ t. str_eq t.thread_id thread_id) db.threads
    then ok (record db {
      threads = update_where (λ t. str_eq t.thread_id thread_id) (touch now) db.threads;
    })
    else if str_eq user_id ""
    then err user_id_required
    else ok (record db {
      threads =
          db.threads
          ++ (record {
            thread_id = thread_id;
            user_id = user_id;
            status = ThreadStatus.idle;
            updated_at = now;
          })
            ∷ [];
    })

abbrev pub new_run : String → String → String → RunStatus → ExecutionParams → ℕ → Run
new_run run_id thread_id user_id status params now = record {
  run_id = run_id;
  thread_id = thread_id;
  user_id = user_id;
  status = status;
  output = none;
  error_message = none;
  claimed_by = none;
  lease_expires_at = none;
  created_at = now;
  updated_at = now;
  execution_params = some params;
}

unfoldable pub prepare_run :
    String → String → String → RunStatus → ExecutionParams → ℕ → Db → Result PrepareError Db
unfolding ensure_thread set_thread_status
prepare_run run_id thread_id user_id status params now db = do
  ensured ← ensure_thread thread_id user_id now db
  marked ← or_invalid (set_thread_status thread_id "busy" now ensured)
  ok (record marked {
    runs = marked.runs ++ new_run run_id thread_id user_id status params now ∷ [];
  })
