-- ===== src/Tests/Cron.antt =====
-- Three crons of two users, under a calendar where everything happens once in ten units of time.
use fastapi_langgraph_templa.Base.{
  ℕ, ◌+◌, ◌≤◌, ◌<◌, String, Bool, true, false, ◌≡◌, refl, Option, none, some, List, [], ◌∷◌, arith,
  length, contains, Memᴰ, eq_iff, str_eq,
}
use fastapi_langgraph_templa.Base.Json.{end}
use fastapi_langgraph_templa.Cron.{
  Cron, Calendar, is_due, due_ids, get_due_crons, is_seconds_cron, compute_next_run,
}
use fastapi_langgraph_templa.Cron.Scheduler.{
  Preparation, tick, created, failed, fire_all, advance_next_run,
}
use fastapi_langgraph_templa.Cron.Claims.{due_claimed_once}
use fastapi_langgraph_templa.Cron.Ticks.{ticked_once}
use fastapi_langgraph_templa.Cron.Requests.{
  CronSettings, Assistant, CronCreate, CronUpdate, build_payload,
}
use fastapi_langgraph_templa.Cron.Service.{
  create_cron, update_cron, owned_by, new_cron, set_updated,
}
use fastapi_langgraph_templa.Cron.Owners.{IsSameFor, update-IsSameFor, create-within_cap}

abbrev decades : Calendar ℕ
decades = record { is_valid = λ s b now. true; get_next = λ s b z t. t + 10; zone = λ name. some 0 }

decades_later : (s : String) (b : Bool) (z : Option ℕ) (t : ℕ) → t < decades.get_next s b z t
decades_later s b z t = omega arith

abbrev daily : Cron
daily = record {
  cron_id = "c1";
  assistant_id = "a1";
  thread_id = none;
  user_id = "u1";
  schedule = "0 9 * * *";
  payload = end;
  metadata_dict = end;
  on_run_completed = none;
  enabled = true;
  end_time = none;
  next_run_date = some 40;
  claimed_until = none;
  created_at = 1;
  updated_at = 1;
}

abbrev hourly : Cron
hourly = record daily { cron_id = "c2"; next_run_date = some 30 }

abbrev others : Cron
others = record daily { cron_id = "c3"; user_id = "u2"; next_run_date = some 90 }

abbrev crons : List Cron
crons = daily ∷ hourly ∷ others ∷ []

abbrev no_locks : Cron → Bool
no_locks c = false

-- The earliest first, and only what is due.
due_at_50 : due_ids 50 5 no_locks crons ≡ "c2" ∷ "c1" ∷ []
unfolding due_ids
due_at_50 = refl

five_fields : is_seconds_cron " 0 9 * *  *" ≡ false
unfolding is_seconds_cron
five_fields = refl

due_claimed_once_example :
    contains (due_ids 55 5 no_locks (get_due_crons 50 20 1 no_locks crons).0) "c2" ≡ false
unfolding due_ids
due_claimed_once_example =
    due_claimed_once 50 55 20 1 5 no_locks no_locks crons "c2" (omega arith) refl

abbrev outcome : String → Preparation
outcome id = elim (str_eq id "c1") [ true ↦ created | false ↦ failed ]

abbrev fired_daily : Cron
fired_daily = record daily { next_run_date = some 60; updated_at = 50 }

abbrev limits : CronSettings
limits = record { allow_seconds_schedule = false; max_per_user = 3 }

abbrev rename : CronUpdate
rename = record {
  schedule = some "0 8 * * *";
  get_field = λ name. none;
  metadata = none;
  on_run_completed = none;
  end_time = none;
  enabled = some true;
}

abbrev renamed : List Cron
renamed = set_updated decades rename daily 50 daily ∷ hourly ∷ others ∷ []

update-IsSameFor_example : IsSameFor "u2" crons renamed
unfolding update_cron is_seconds_cron build_payload
update-IsSameFor_example =
    update-IsSameFor decades limits "c1" rename "u1" "u2" 50 crons renamed
      (λ e. absurd (ground (arith, eq_iff "u1" "u2", e))) refl

abbrev order : CronCreate
order = record {
  assistant_id = "agent";
  schedule = "0 7 * * *";
  get_field = λ name. none;
  metadata = none;
  on_run_completed = none;
  end_time = none;
  enabled = none;
}

abbrev graphs : List String
graphs = "agent" ∷ []

abbrev assistants : List Assistant
assistants = record { assistant_id = "a1"; user_id = "system"; graph_id = "agent" } ∷ []

abbrev uuid : String → String
uuid name = "a1"

abbrev added : List Cron
added =
    daily
    ∷ hourly
    ∷ others
    ∷ new_cron decades limits graphs assistants uuid "c4" order "u1" none 50
    ∷ []

create-within_cap_example : length (owned_by "u1" added) ≤ 3
unfolding create_cron is_seconds_cron build_payload
create-within_cap_example =
    create-within_cap decades limits graphs assistants uuid "c4" "u1" order none 50 crons added
      (omega arith) refl

ticked_once_example : is_due 50 fired_daily ≡ false
unfolding tick fire_all advance_next_run compute_next_run get_due_crons due_ids
ticked_once_example =
    ticked_once decades 50 50 20 5 no_locks outcome crons fired_daily decades_later (Memᴰ.head refl)
      refl refl
