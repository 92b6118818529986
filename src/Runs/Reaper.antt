-- ===== src/Runs/Reaper.antt =====
-- `usecase/execution/lease_reaper.py`: the recovery of runs whose worker's lease has passed.
pub mod Complete
use fastapi_langgraph_templa.Base.{
  ℕ, String, Bool, ◌&&◌, not, ◌+◌, Option, none, some, List, [], ◌∷◌, any, contains, str_eq,
  is_none, ltb, update_where, select, if◌then◌else◌, map, ◌++◌,
}
use fastapi_langgraph_templa.Base.Json.{Fields, end}
use fastapi_langgraph_templa.Runs.{
  RunStatus, ThreadStatus, is_running, is_pending, lease_passed, ExecutionParams, Run, Db,
}
use fastapi_langgraph_templa.Runs.Status.{put_status_if_no_active_runs}

abbrev pub is_crashed : ℕ → Run → Bool
is_crashed now r = is_running r.status && lease_passed r.lease_expires_at now

abbrev pub is_stuck : ℕ → ℕ → Run → Bool
is_stuck now threshold r =
    is_pending r.status && (is_none r.claimed_by && ltb (r.created_at + threshold) now)

-- `_find_recoverable`: the ids of the crashed runs, and of the pending ones that are overdue.
unfoldable pub find_recoverable : ℕ → ℕ → Db → List String × List String
find_recoverable now threshold db = (
  map (λ r. r.run_id) (select (is_crashed now) db.runs),
  map (λ r. r.run_id) (select (is_stuck now threshold) db.runs),
)

abbrev pub retries_of : Option ExecutionParams → ℕ
retries_of none = 0
retries_of (some p) = elim p.retry_count [ none ↦ 0 | some n ↦ n ]

abbrev pub retries : Run → ℕ
retries r = retries_of r.execution_params

abbrev job_of : Option ExecutionParams → Fields
job_of none = end
job_of (some p) = p.job

-- `params["_retry_count"] = retry_count`, on a copy of the stored params or of `{}`.
abbrev pub with_retries : Option ExecutionParams → ℕ → Option ExecutionParams
with_retries p n = some (record { job = job_of p; retry_count = some n })

-- The WHERE clause of the update of one locked row.
abbrev pub is_still_crashed : String → String → ℕ → Run → Bool
is_still_crashed run_id user_id now r =
    str_eq r.run_id run_id && (str_eq r.user_id user_id && is_crashed now r)

abbrev pub set_exhausted : Option ExecutionParams → ℕ → Run → Run
set_exhausted params now r = record r {
  execution_params = params;
  claimed_by = none;
  lease_expires_at = none;
  updated_at = now;
  status = RunStatus.error;
  error_message = some "Max retries exceeded after repeated worker failures";
}

abbrev pub set_retried : Option ExecutionParams → ℕ → Run → Run
set_retried params now r = record r {
  execution_params = params;
  claimed_by = none;
  lease_expires_at = none;
  updated_at = now;
  status = RunStatus.pending;
}

-- `exhausted_threads_by_user.setdefault(user_id, set()).add(thread_id)`
abbrev pub add_thread : String → String → List (String × List String) → List (String × List String)
add_thread user_id thread_id [] = (user_id, thread_id ∷ []) ∷ []
add_thread user_id thread_id ((u, ts) ∷ m) =
    if str_eq u user_id
    then (u, if contains ts thread_id then ts else thread_id ∷ ts) ∷ m
    else (u, ts) ∷ add_thread user_id thread_id m

-- What the loop over the locked rows carries.
pub record Recovery : Type 0 where
  pub db : Db
  pub retryable : List String
  pub exhausted : List String
  pub threads_by_user : List (String × List String)

abbrev pub exhaust : ℕ → Run → Recovery → Recovery
exhaust now r acc = record acc {
  db = record acc.db {
    runs =
        update_where (is_still_crashed r.run_id r.user_id now)
          (set_exhausted (with_retries r.execution_params (retries r + 1)) now) acc.db.runs;
  };
  exhausted = acc.exhausted ++ r.run_id ∷ [];
  threads_by_user = add_thread r.user_id r.thread_id acc.threads_by_user;
}

abbrev pub retry : ℕ → Run → Recovery → Recovery
retry now r acc = record acc {
  db = record acc.db {
    runs =
        update_where (is_still_crashed r.run_id r.user_id now)
          (set_retried (with_retries r.execution_params (retries r + 1)) now) acc.db.runs;
  };
  retryable = acc.retryable ++ r.run_id ∷ [];
}

-- One round of the loop; an update that returns no row is the `continue`.
unfoldable pub recover_row : ℕ → ℕ → Run → Recovery → Recovery
recover_row now max_retries r acc =
    if any (is_still_crashed r.run_id r.user_id now) acc.db.runs
    then (if ltb max_retries (retries r + 1) then exhaust now r acc else retry now r acc)
    else acc

unfoldable pub recover_rows : ℕ → ℕ → List Run → Recovery → Recovery
unfolding recover_row
recover_rows now max_retries [] acc = acc
recover_rows now max_retries (r ∷ rs) acc =
    recover_rows now max_retries rs (recover_row now max_retries r acc)

-- The loop over `exhausted_threads_by_user.items()`.
unfoldable pub fail_threads : ℕ → List (String × List String) → Db → Db
fail_threads now [] db = db
fail_threads now ((user_id, thread_ids) ∷ m) db =
    fail_threads now m (put_status_if_no_active_runs thread_ids ThreadStatus.error user_id now db)

-- The rows locked by the first SELECT: those that no other transaction has locked (`skip_locked`).
abbrev pub lockable : List String → (Run → Bool) → ℕ → Run → Bool
lockable run_ids locked now r = contains run_ids r.run_id && (is_crashed now r && not (locked r))

abbrev pub start_recovery : Db → Recovery
start_recovery db = record { db = db; retryable = []; exhausted = []; threads_by_user = [] }

-- `_recover_crashed_runs`: the state after the commit, and the two lists that it returns.
unfoldable pub recover_crashed_runs :
    List String → (Run → Bool) → ℕ → ℕ → Db → Db × List String × List String
unfolding recover_rows fail_threads
recover_crashed_runs run_ids locked now max_retries db =
    let done =
      recover_rows now max_retries (select (lockable run_ids locked now) db.runs)
        (start_recovery db) in
    (fail_threads now done.threads_by_user done.db, done.retryable, done.exhausted)

-- `_missing_from_queue`: `none` is a Redis that cannot be read.
unfoldable pub missing_from_queue : Option (List String) → List String → List String
missing_from_queue none run_ids = []
missing_from_queue (some queued) run_ids = select (λ i. not (contains queued i)) run_ids

-- `_reenqueue`: `up n` tells whether the push at place n succeeds; the first failure ends the loop.
unfoldable pub reenqueue : (ℕ → Bool) → ℕ → List String → List String → List String × List String
reenqueue up n [] queue = (queue, [])
reenqueue up n (i ∷ ids) queue =
    let (rest, pushed) = reenqueue up (n + 1) ids (queue ++ i ∷ []) in
    if up n then (rest, i ∷ pushed) else (queue, [])
