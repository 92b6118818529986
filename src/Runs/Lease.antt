-- ===== src/Runs/Lease.antt =====
-- The lease operations of `usecase/execution/worker_executor.py` on the run table, one transaction
-- each. A worker holds a run while `claimed_by` is its name.
use fastapi_langgraph_templa.Base.{
  ℕ, String, Bool, true, false, ◌&&◌, ◌+◌, Option, none, some, List, [], ◌∷◌, any, contains, str_eq,
  is_none, is_text, ltb, update_where, select, ◌||◌, if◌then◌else◌, map,
}
use fastapi_langgraph_templa.Runs.{RunStatus, is_running, is_pending, ExecutionParams, Run, Db}

-- `SELECT … WHERE run_id = …`; `run_id` is the primary key.
unfoldable pub find_run : String → List Run → Option Run
find_run run_id [] = none
find_run run_id (r ∷ rs) =
    let rest = find_run run_id rs in if str_eq r.run_id run_id then some r else rest

abbrev pub is_claimable : String → Run → Bool
is_claimable run_id r = str_eq r.run_id run_id && (is_pending r.status && is_none r.claimed_by)

abbrev pub set_claimed : String → ℕ → Run → Run
set_claimed worker lease_until r = record r {
  claimed_by = some worker;
  lease_expires_at = some lease_until;
  status = RunStatus.running;
}

-- The first transaction of `_acquire_and_load`: the claim, and whether a row was updated.
unfoldable pub claim_run : String → String → ℕ → Db → Db × Bool
claim_run run_id worker lease_until db =
    if any (is_claimable run_id) db.runs
    then (
      record db {
        runs = update_where (is_claimable run_id) (set_claimed worker lease_until) db.runs;
      },
      true,
    )
    else (db, false)

abbrev pub is_held_by : String → String → Run → Bool
is_held_by run_id worker r = str_eq r.run_id run_id && is_text r.claimed_by worker

abbrev pub set_corrupt : Run → Run
set_corrupt r = record r {
  claimed_by = none;
  lease_expires_at = none;
  status = RunStatus.error;
  error_message = some "Run missing execution_params (data corruption or pre-migration row)";
}

-- The second one, taken when the claimed row has no `execution_params`. It tests no status.
unfoldable pub drop_corrupt : String → String → Db → Db
drop_corrupt run_id worker db = record db {
  runs = update_where (is_held_by run_id worker) set_corrupt db.runs;
}

abbrev pub params_of : Option Run → Option ExecutionParams
params_of none = none
params_of (some r) = r.execution_params

-- `_acquire_and_load` with nothing in between; the params are those the job is rebuilt from.
unfoldable pub acquire_and_load : String → String → ℕ → ℕ → Db → Db × Option ExecutionParams
unfolding claim_run drop_corrupt find_run
acquire_and_load run_id worker now duration db =
    let (claimed, found) = claim_run run_id worker (now + duration) db in
    if found
    then elim (params_of (find_run run_id claimed.runs)) [
      | none ↦ (drop_corrupt run_id worker claimed, none)
      | some p ↦ (claimed, some p)
    ]
    else (db, none)

abbrev pub clear_lease : Run → Run
clear_lease r = record r { claimed_by = none; lease_expires_at = none }

unfoldable pub release_lease : String → String → Db → Db
release_lease run_id worker db = record db {
  runs = update_where (is_held_by run_id worker) clear_lease db.runs;
}

abbrev pub extend_lease : ℕ → Run → Run
extend_lease expiry r = record r { lease_expires_at = some expiry }

-- One round of `_heartbeat_loop`; false is the lost lease that cancels the job.
unfoldable pub heartbeat : String → String → ℕ → ℕ → Db → Db × Bool
heartbeat run_id worker now duration db = (
  record db {
    runs = update_where (is_held_by run_id worker) (extend_lease (now + duration)) db.runs;
  },
  any (is_held_by run_id worker) db.runs,
)

abbrev pub is_drained : List String → Run → Bool
is_drained run_ids r = contains run_ids r.run_id && (is_running r.status || is_pending r.status)

abbrev pub set_requeued : Run → Run
set_requeued r = record r { status = RunStatus.pending; claimed_by = none; lease_expires_at = none }

-- The transaction of `_requeue_drained_runs`, and the ids that it returns for the push.
unfoldable pub requeue_drained : List String → Db → Db × List String
requeue_drained run_ids db = (
  record db { runs = update_where (is_drained run_ids) set_requeued db.runs },
  map (λ r. r.run_id) (select (is_drained run_ids) db.runs),
)

-- `_get_run_identity`
unfoldable pub get_run_identity : String → Db → Option (String × String)
unfolding find_run
get_run_identity run_id db = elim (find_run run_id db.runs) [
  | none ↦ none
  | some r ↦ some (r.thread_id, r.user_id)
]

-- `_TERMINAL_STATUSES`, which leaves `timeout` out.
abbrev pub is_terminal : RunStatus → Bool
is_terminal RunStatus.success = true
is_terminal RunStatus.error = true
is_terminal RunStatus.interrupted = true
is_terminal _ = false

-- `_is_run_terminal`: a missing run counts as finished.
unfoldable pub is_run_terminal : String → Db → Bool
unfolding find_run
is_run_terminal run_id db = elim (find_run run_id db.runs) [
  | none ↦ true
  | some r ↦ is_terminal r.status
]

abbrev pub older : Run → Option Run → Option Run
older r none = some r
older r (some s) = if ltb s.created_at r.created_at then some s else some r

-- `ORDER BY created_at ASC LIMIT 1` over the pending runs that nobody holds.
unfoldable pub oldest_unclaimed : List Run → Option Run
oldest_unclaimed [] = none
oldest_unclaimed (r ∷ rs) =
    let rest = oldest_unclaimed rs in
    if is_pending r.status && is_none r.claimed_by then older r rest else rest

unfoldable pub poll_postgres : Db → Option String
unfolding oldest_unclaimed
poll_postgres db = elim (oldest_unclaimed db.runs) [ none ↦ none | some r ↦ some r.run_id ]
