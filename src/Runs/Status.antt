-- ===== src/Runs/Status.antt =====
-- `domain/status_compat.py` and `usecase/execution/run_status.py`: the guarded status updates. Each
-- function that opens a session of its own is one transaction from the state before to that after.
use fastapi_langgraph_templa.Base.{
  ℕ, String, Bool, true, false, ◌&&◌, not, Option, none, some, List, [], ◌∷◌, any, contains, str_eq,
  is_none, update_where, ◌||◌, if◌then◌else◌, Result, ok, err, ◌>>=◌,
}
use fastapi_langgraph_templa.Base.Json.{Json, obj, field, end, text}
use fastapi_langgraph_templa.Runs.{
  RunStatus, ThreadStatus, is_active, lease_passed, Run, Thread, Db,
}

-- `ValueError`, with what was wrong.
pub data ValueError : Type 0 where
  invalid_run_status : String → ValueError
  invalid_thread_status : String → ValueError
  thread_not_found : String → ValueError

unfoldable pub validate_run_status : String → Result ValueError RunStatus
validate_run_status s =
    if str_eq s "pending"
    then ok RunStatus.pending
    else if str_eq s "running"
    then ok RunStatus.running
    else if str_eq s "error"
    then ok RunStatus.error
    else if str_eq s "success"
    then ok RunStatus.success
    else if str_eq s "timeout"
    then ok RunStatus.timeout
    else if str_eq s "interrupted"
    then ok RunStatus.interrupted
    else err (invalid_run_status s)

unfoldable pub validate_thread_status : String → Result ValueError ThreadStatus
validate_thread_status s =
    if str_eq s "idle"
    then ok ThreadStatus.idle
    else if str_eq s "busy"
    then ok ThreadStatus.busy
    else if str_eq s "interrupted"
    then ok ThreadStatus.interrupted
    else if str_eq s "error"
    then ok ThreadStatus.error
    else err (invalid_thread_status s)

-- The WHERE clause of `start_run` and `finalize_run`.
abbrev pub is_active_run : String → String → Run → Bool
is_active_run run_id user_id r =
    str_eq r.run_id run_id && (str_eq r.user_id user_id && is_active r.status)

abbrev pub set_running : ℕ → Run → Run
set_running now r = record r { status = RunStatus.running; updated_at = now }

-- The state after the commit or the rollback, and whether a row was returned.
unfoldable pub start_run : String → String → ℕ → Db → Db × Bool
start_run run_id user_id now db =
    if any (is_active_run run_id user_id) db.runs
    then (
      record db { runs = update_where (is_active_run run_id user_id) (set_running now) db.runs },
      true,
    )
    else (db, false)

abbrev pub put_status : ThreadStatus → ℕ → Thread → Thread
put_status status now t = record t { status = status; updated_at = now }

unfoldable pub set_thread_status : String → String → ℕ → Db → Result ValueError Db
unfolding validate_thread_status
set_thread_status thread_id status now db = do
  validated ← validate_thread_status status
  if any (λ t. str_eq t.thread_id thread_id) db.threads
      then ok (record db {
        threads =
            update_where (λ t. str_eq t.thread_id thread_id) (put_status validated now) db.threads;
      })
      else err (thread_not_found thread_id)

-- The correlated subquery: an active run of the user on the thread.
abbrev pub active_run_exists : List Run → String → String → Bool
active_run_exists runs thread_id user_id =
    any (λ r. str_eq r.thread_id thread_id && (str_eq r.user_id user_id && is_active r.status)) runs

abbrev pub has_no_active_runs : List Run → List String → String → Thread → Bool
has_no_active_runs runs thread_ids user_id t =
    contains thread_ids t.thread_id
    && (str_eq t.user_id user_id && not (active_run_exists runs t.thread_id user_id))

-- The UPDATE, once the status is validated; on no threads it changes nothing, as the early return.
unfoldable pub put_status_if_no_active_runs : List String → ThreadStatus → String → ℕ → Db → Db
put_status_if_no_active_runs thread_ids status user_id now db = record db {
  threads =
      update_where (has_no_active_runs db.runs thread_ids user_id) (put_status status now)
        db.threads;
}

unfoldable pub set_thread_status_if_no_active_runs :
    List String → String → String → ℕ → Db → Result ValueError Db
unfolding put_status_if_no_active_runs validate_thread_status
set_thread_status_if_no_active_runs [] status user_id now db = ok db
set_thread_status_if_no_active_runs (t ∷ ts) status user_id now db = do
  validated ← validate_thread_status status
  ok (put_status_if_no_active_runs (t ∷ ts) validated user_id now db)

-- The WHERE clause of `interrupt_unowned_run`.
abbrev pub is_unowned : String → String → String → ℕ → Run → Bool
is_unowned run_id thread_id user_id now r =
    str_eq r.run_id run_id
    && (str_eq r.thread_id thread_id
        && (str_eq r.user_id user_id
            && (is_active r.status
                && (is_none r.claimed_by || lease_passed r.lease_expires_at now))))

abbrev pub set_interrupted : ℕ → Run → Run
set_interrupted now r = record r {
  status = RunStatus.interrupted;
  claimed_by = none;
  lease_expires_at = none;
  updated_at = now;
}

unfoldable pub interrupt_unowned_run : String → String → String → ℕ → Db → Db × Bool
interrupt_unowned_run run_id thread_id user_id now db =
    if any (is_unowned run_id thread_id user_id now) db.runs
    then (
      put_status_if_no_active_runs (thread_id ∷ []) ThreadStatus.idle user_id now (record db {
        runs = update_where (is_unowned run_id thread_id user_id now) (set_interrupted now) db.runs;
      }),
      true,
    )
    else (db, false)

-- The serializer of `infra/serializers`: `none` where it raises, and `str(type(output))`.
pub record Serializer (O : Type 0) : Type 0 where
  pub serialize : O → Option Json
  pub type_name : O → String

unfoldable pub safe_serialize : {O : Type 0} → Serializer O → O → Json
safe_serialize z o = elim (z.serialize o) [
  | some j ↦ j
  | none ↦ obj (
      field "error" (text "Output serialization failed")
        (field "original_type" (text (z.type_name o)) end))
]

-- `run_values`: the columns that are given are written, the others are left.
abbrev pub written {ℓ} : {A : Type ℓ} → Option A → Option A → Option A
written none old = old
written (some a) old = some a

abbrev pub set_final : RunStatus → Option Json → Option String → ℕ → Run → Run
set_final status output error now r = record r {
  status = status;
  output = written output r.output;
  error_message = written error r.error_message;
  updated_at = now;
}

-- The transaction of `finalize_run`, on validated statuses and a serialized output.
unfoldable pub finalize :
    String
    → String
    → String
    → RunStatus
    → ThreadStatus
    → Option Json
    → Option String
    → ℕ
    → Db
    → Db × Bool
finalize run_id thread_id user_id status thread_status output error now db =
    if any (is_active_run run_id user_id) db.runs
    then (
      put_status_if_no_active_runs (thread_id ∷ []) thread_status user_id now (record db {
        runs =
            update_where (is_active_run run_id user_id) (set_final status output error now) db.runs;
      }),
      true,
    )
    else (db, false)

abbrev pub map_output : {O : Type 0} → Serializer O → Option O → Option Json
map_output z none = none
map_output z (some o) = some (safe_serialize z o)

unfoldable pub finalize_run :
    {O : Type 0}
    → Serializer O
    → String
    → String
    → String
    → String
    → String
    → Option O
    → Option String
    → ℕ
    → Db
    → Result ValueError (Db × Bool)
unfolding finalize validate_run_status validate_thread_status
finalize_run z run_id thread_id user_id status thread_status output error now db = do
  run_status ← validate_run_status status
  thread ← validate_thread_status thread_status
  ok (finalize run_id thread_id user_id run_status thread (map_output z output) error now db)
