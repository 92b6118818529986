-- ===== src/Runs.antt =====
-- The tables of runs and threads (`repo/orm.py`), their statuses (`domain/enums.py`), and the
-- operations on them, in the modules below.
pub mod Status
pub mod Lease
pub mod Reaper
pub mod Prepare
pub mod Rules
pub mod Moves
pub mod Changes
pub mod Delete
pub mod Deletion
pub mod Corrupt
pub mod Steps
pub mod Claims
pub mod Outcome
pub mod Execute
use fastapi_langgraph_templa.Base.{
  ℕ, String, Bool, true, false, ◌≡◌, Option, none, some, List, Memᴰ, ltb,
}
use fastapi_langgraph_templa.Base.Json.{Json, Fields}

pub data RunStatus : Type 0 where
  pending running error success timeout interrupted : RunStatus

pub data ThreadStatus : Type 0 where
  idle busy interrupted error : ThreadStatus

-- `ACTIVE_RUN_STATES`
abbrev pub is_active : RunStatus → Bool
is_active pending = true
is_active running = true
is_active _ = false

-- The JSONB dictionary that a worker rebuilds the job from; the reaper's key is a field of its own.
pub record ExecutionParams : Type 0 where
  pub job : Fields
  pub retry_count : Option ℕ

-- A row of `runs`. Times are microseconds. The columns `assistant_id`, `input`, `config` and
-- `context` are written once, at the insert, and none of the operations here reads them.
pub record Run : Type 0 where
  pub run_id : String
  pub thread_id : String
  pub user_id : String
  pub status : RunStatus
  pub output : Option Json
  pub error_message : Option String
  pub claimed_by : Option String
  pub lease_expires_at : Option ℕ
  pub created_at : ℕ
  pub updated_at : ℕ
  pub execution_params : Option ExecutionParams

-- A row of `thread`; `metadata_json` is the thread's own concern.
pub record Thread : Type 0 where
  pub thread_id : String
  pub user_id : String
  pub status : ThreadStatus
  pub updated_at : ℕ

pub record Db : Type 0 where
  pub runs : List Run
  pub threads : List Thread

-- `RunORM.status == "running"` and `== "pending"`
abbrev pub is_running : RunStatus → Bool
is_running running = true
is_running _ = false

abbrev pub is_pending : RunStatus → Bool
is_pending pending = true
is_pending _ = false

-- `lease_expires_at < now`: a NULL lease never passes.
abbrev pub lease_passed : Option ℕ → ℕ → Bool
lease_passed none now = false
lease_passed (some t) now = ltb t now

-- No thread with an active run of its owner is anything but busy.
pub record IsBusy (db : Db) : Type 0 where
  pub at :
      (r : Run) (t : Thread)
      → Memᴰ r db.runs
      → Memᴰ t db.threads
      → is_active r.status ≡ true
      → t.thread_id ≡ r.thread_id
      → t.user_id ≡ r.user_id
      → t.status ≡ ThreadStatus.busy
