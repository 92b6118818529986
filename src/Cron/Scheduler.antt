-- ===== src/Cron/Scheduler.antt =====
-- `CronScheduler` of `usecase/cron/scheduler.py`, with `advance_next_run` of the service. Whether the
-- run of a cron could be made is an argument.
use fastapi_langgraph_templa.Base.{
  ℕ, String, Bool, false, ◌&&◌, not, Option, none, some, List, [], ◌∷◌, leb, is_none, is_text,
  if◌then◌else◌, update_where, str_eq,
}
use fastapi_langgraph_templa.Cron.{Cron, Calendar, compute_next_run, timezone_of, get_due_crons}

-- `_validate_cron_user`
abbrev pub validate_cron_user : String → Bool
validate_cron_user user_id = not (str_eq user_id "")

unfoldable pub should_delete_stateless_thread : Cron → Bool
should_delete_stateless_thread c = is_none c.thread_id && not (is_text c.on_run_completed "keep")

abbrev pub has_id : String → Cron → Bool
has_id cron_id c = str_eq c.cron_id cron_id

abbrev pub set_disabled : ℕ → Cron → Cron
set_disabled now c = record c { enabled = false; claimed_until = none; updated_at = now }

abbrev pub set_next : ℕ → ℕ → Cron → Cron
set_next next_run now c = record c {
  next_run_date = some next_run;
  claimed_until = none;
  updated_at = now;
}

abbrev pub set_released : ℕ → Cron → Cron
set_released now c = record c { claimed_until = none; updated_at = now }

-- `cron.end_time and now >= cron.end_time`
abbrev pub has_ended : Option ℕ → ℕ → Bool
has_ended none now = false
has_ended (some t) now = leb t now

-- How `_prepare_run` ends. `broken` is an exception that leaves `_fire_cron`, after which `_tick` rolls
-- the session back.
pub data Preparation : Type 0 where
  created failed broken : Preparation

-- What becomes of the thread: kept, deleted when its run is over, or deleted at once.
pub data Cleanup : Type 0 where
  kept after_run at_once : Cleanup

module _ {Zone : Type 0} (cal : Calendar Zone) (now : ℕ) where
  unfoldable pub advance_next_run : Cron → List Cron → List Cron
  advance_next_run c crons =
      if has_ended c.end_time now
      then update_where (has_id c.cron_id) (set_disabled now) crons
      else update_where (has_id c.cron_id)
          (set_next (compute_next_run cal c.schedule now (timezone_of c.payload)) now) crons

  unfoldable pub fire_cron : Preparation → Cron → List Cron → List Cron × Cleanup
  unfolding advance_next_run should_delete_stateless_thread
  fire_cron result c crons =
      if not (validate_cron_user c.user_id)
      then (update_where (has_id c.cron_id) (set_disabled now) crons, kept)
      else elim result [
        | created ↦
            (advance_next_run c crons, if should_delete_stateless_thread c then after_run else kept)
        | failed ↦ (
          update_where (has_id c.cron_id) (set_released now) crons,
          if should_delete_stateless_thread c then at_once else kept,
        )
        | broken ↦ (crons, kept)
      ]

  -- The loop of `_tick`.
  unfoldable pub fire_all : (String → Preparation) → List Cron → List Cron → List Cron
  unfolding fire_cron
  fire_all result [] crons = crons
  fire_all result (c ∷ due) crons = fire_all result due (fire_cron (result c.cron_id) c crons).0

-- `_tick`: the claim at `now`, and the runs at `then_`.
unfoldable pub tick :
    {Zone : Type 0}
    → Calendar Zone
    → ℕ
    → ℕ
    → ℕ
    → ℕ
    → (Cron → Bool)
    → (String → Preparation)
    → List Cron
    → List Cron
unfolding fire_all get_due_crons
tick cal now then_ claim_seconds batch locked result crons =
    let (claimed, due) = get_due_crons now claim_seconds batch locked crons in
    fire_all cal then_ result due claimed
