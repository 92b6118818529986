-- ===== src/Cron/Service.antt =====
-- The writes of `CronService` in `usecase/cron/service.py`: create, update and delete.
use fastapi_langgraph_templa.Base.{
  or_value, ℕ, String, Bool, true, false, ◌&&◌, ◌||◌, not, Option, none, some, List, [], ◌∷◌, ◌++◌,
  ltb, is_none, if◌then◌else◌, length, select, contains, update_where, str_eq, Result, ok, err,
  ◌>>=◌, ◌≡◌, refl,
}
use fastapi_langgraph_templa.Base.Json.{text_of, update_items, Fields, end, field}
use fastapi_langgraph_templa.Base.Http.{HttpException}
use fastapi_langgraph_templa.Cron.{
  Cron, Calendar, is_seconds_cron, compute_next_run, timezone_of, reached,
}
use fastapi_langgraph_templa.Cron.Requests.{
  CronSettings, Assistant, CronCreate, CronUpdate, build_payload,
}

abbrev http : ℕ → HttpException
http n = record { status_code = n }

-- The early returns, as a check that passes or raises.
abbrev pub require : Bool → ℕ → Result HttpException (Unit {0})
require true n = ok tt
require false n = err (http n)

pub require_inv : (b : Bool) (n : ℕ) {u : Unit} → require b n ≡ ok u → b ≡ true
require_inv true n h = refl
require_inv false n h = absurd (cc)

abbrev pub is_known {ℓ} : {A : Type ℓ} → Option A → Bool
is_known o = not (is_none o)

abbrev pub zone_is_known : {Zone : Type 0} → Calendar Zone → Option String → Bool
zone_is_known cal none = true
zone_is_known cal (some name) = is_known (cal.zone name)

abbrev pub is_allowed : CronSettings → String → Bool
is_allowed s schedule = s.allow_seconds_schedule || not (is_seconds_cron schedule)

abbrev pub owned_by : String → List Cron → List Cron
owned_by user crons = select (λ c. str_eq c.user_id user) crons

abbrev pub has_room : CronSettings → String → List Cron → Bool
has_room s user crons =
    not (ltb 0 s.max_per_user) || ltb (length (owned_by user crons)) s.max_per_user

-- The assistant of the caller or of the system.
abbrev pub find_assistant : String → String → List Assistant → Option Assistant
find_assistant id user [] = none
find_assistant id user (a ∷ rest) =
    let found = find_assistant id user rest in
    if str_eq a.assistant_id id && (str_eq a.user_id user || str_eq a.user_id "system")
    then some a
    else found

abbrev pub graph_of : Option Assistant → Result HttpException String
graph_of none = err (http 404)
graph_of (some a) = ok a.graph_id

abbrev is_true : Option Bool → Bool
is_true none = false
is_true (some b) = b

abbrev pub fires_at_once : Option Bool → Bool
fires_at_once none = true
fires_at_once (some b) = b

-- The parts of the service that are the same for every call: settings, the registry of graphs, the
-- assistants, and `uuid5` on the project's namespace.
module _ {Zone : Type 0} (cal : Calendar Zone) (settings : CronSettings)
    (available_graphs : List String) (assistants : List Assistant) (uuid5 : String → String) where
  abbrev pub resolve_assistant_id : String → String
  resolve_assistant_id requested =
      if contains available_graphs requested then uuid5 requested else requested

  unfoldable pub first_run : CronCreate → ℕ → ℕ
  first_run request now =
      compute_next_run cal request.schedule now (text_of (request.get_field "timezone"))

  unfoldable pub next_run_of : CronCreate → ℕ → ℕ
  unfolding first_run
  next_run_of request now =
      let first_occ = first_run request now in
      if fires_at_once request.enabled
      then compute_next_run cal request.schedule first_occ (text_of (request.get_field "timezone"))
      else first_occ

  abbrev pub new_cron : String → CronCreate → String → Option String → ℕ → Cron
  new_cron cron_id request user thread_id now = record {
    cron_id = cron_id;
    assistant_id = resolve_assistant_id request.assistant_id;
    thread_id = thread_id;
    user_id = user;
    schedule = request.schedule;
    payload = build_payload request.get_field;
    metadata_dict = or_value request.metadata end;
    on_run_completed = request.on_run_completed;
    enabled = or_value request.enabled true;
    end_time = request.end_time;
    next_run_date = some (next_run_of request now);
    claimed_until = none;
    created_at = now;
    updated_at = now;
  }

  -- `cron_id` is the new `uuid4`.
  unfoldable pub create_cron :
      String
      → CronCreate
      → String
      → Option String
      → ℕ
      → List Cron
      → Result HttpException (List Cron)
  create_cron cron_id request user thread_id now crons = do
    seconds ← require (is_allowed settings request.schedule) 422
    valid ← require (cal.is_valid request.schedule (is_seconds_cron request.schedule) now) 422
    zone ← require (zone_is_known cal (text_of (request.get_field "timezone"))) 422
    room ← require (has_room settings user crons) 429
    graph ← graph_of (find_assistant (resolve_assistant_id request.assistant_id) user assistants)
    available ← require (contains available_graphs graph) 404
    ok (crons ++ new_cron cron_id request user thread_id now ∷ [])

abbrev pub is_own : String → String → Cron → Bool
is_own cron_id user c = str_eq c.cron_id cron_id && str_eq c.user_id user

abbrev pub find_own : String → String → List Cron → Result HttpException Cron
find_own cron_id user [] = err (http 404)
find_own cron_id user (c ∷ rest) =
    let found = find_own cron_id user rest in if is_own cron_id user c then ok c else found

abbrev pub schedule_passes :
    {Zone : Type 0} → Calendar Zone → CronSettings → ℕ → Option String → Bool
schedule_passes cal settings now none = true
schedule_passes cal settings now (some s) =
    is_allowed settings s && cal.is_valid s (is_seconds_cron s) now

abbrev needs_recompute : CronUpdate → Cron → ℕ → Bool
needs_recompute request c now =
    is_known request.schedule
    || (is_known (text_of (request.get_field "timezone"))
        || (is_true request.enabled && reached c.next_run_date now))

-- `if new_payload`: an empty one leaves the column.
abbrev merged : Fields → Fields → Fields → Fields
merged old column end = column
merged old column (field k v new_payload) = update_items old (field k v new_payload)

-- The values of the UPDATE, made from the row that was read and written over the row that is there.
abbrev pub set_updated : {Zone : Type 0} → Calendar Zone → CronUpdate → Cron → ℕ → Cron → Cron
set_updated cal request c now x =
    let new_payload = build_payload request.get_field in
    record x {
      schedule = or_value request.schedule x.schedule;
      payload = merged c.payload x.payload new_payload;
      metadata_dict = or_value request.metadata x.metadata_dict;
      on_run_completed =
          (if is_known request.on_run_completed
            then request.on_run_completed
            else x.on_run_completed);
      end_time = (if is_known request.end_time then request.end_time else x.end_time);
      enabled = or_value request.enabled x.enabled;
      next_run_date =
          (if needs_recompute request c now
            then some (
                compute_next_run cal (or_value request.schedule c.schedule) now
                  (timezone_of (update_items c.payload new_payload)))
            else x.next_run_date);
      updated_at = now;
    }

unfoldable pub update_cron :
    {Zone : Type 0}
    → Calendar Zone
    → CronSettings
    → String
    → CronUpdate
    → String
    → ℕ
    → List Cron
    → Result HttpException (List Cron)
update_cron cal settings cron_id request user now crons = do
  c ← find_own cron_id user crons
  zone ← require (zone_is_known cal (text_of (request.get_field "timezone"))) 422
  schedule ← require (schedule_passes cal settings now request.schedule) 422
  ok (update_where (is_own cron_id user) (set_updated cal request c now) crons)

-- `session.delete(cron)`, by the key of the row.
unfoldable pub delete_cron : String → String → List Cron → Result HttpException (List Cron)
delete_cron cron_id user crons = do
  c ← find_own cron_id user crons
  ok (select (λ x. not (str_eq x.cron_id c.cron_id)) crons)
