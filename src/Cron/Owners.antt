-- ===== src/Cron/Owners.antt =====
-- What the writes of the service keep: other users' crons, the cap per user, and the first dates.
use fastapi_langgraph_templa.Base.{
  or_value, ℕ, ◌≤◌, ◌<◌, String, Bool, true, false, ◌≡◌, ◌≢◌, refl, ap, ◌∙◌, Option, some, List, [],
  ◌∷◌, ◌++◌, arith, length, contains, update_where, str_eq, eq_iff, str_eq_refl, Bool-cases, inl,
  inr, ok, length-append, select-append, bind_inv, ok_injective,
}
use fastapi_langgraph_templa.Base.Json.{text_of, update_items}
use fastapi_langgraph_templa.Cron.{
  Cron, Calendar, is_due, compute_next_run, is_seconds_cron, resolve_timezone, timezone_of,
}
use fastapi_langgraph_templa.Cron.Requests.{
  CronSettings, Assistant, CronCreate, CronUpdate, build_payload,
}
use fastapi_langgraph_templa.Cron.Service.{
  owned_by, create_cron, update_cron, new_cron, is_own, zone_is_known, schedule_passes, is_allowed,
  find_assistant, resolve_assistant_id, graph_of, require, require_inv, find_own, has_room,
  graph_of, set_updated, first_run, next_run_of,
}

-- The crons of one user are the same in both tables.
abbrev pub IsSameFor : String → List Cron → List Cron → Type 0
IsSameFor user crons crons' = owned_by user crons' ≡ owned_by user crons

owned-update :
    (cron_id user other : String) (f : Cron → Cron) (crons : List Cron)
    → user ≢ other
    → ((c : Cron) → (f c).user_id ≡ c.user_id)
    → owned_by other (update_where (is_own cron_id user) f crons) ≡ owned_by other crons
owned-update cron_id user other f [] ne keep = refl
owned-update cron_id user other f (c ∷ crons) ne keep = elim (Bool-cases (is_own cron_id user c)) [
  | inl e ↦
      let foreign : str_eq c.user_id other ≡ false =
        ground (arith, eq_iff c.user_id user, eq_iff c.user_id other, ne, e) in
      let foreign' = ap (λ u. str_eq u other) (keep c) ∙ foreign in
      let rest = owned-update cron_id user other f crons ne keep in
      rw e (ground (arith, foreign, foreign', rest))
  | inr e ↦ let rest = owned-update cron_id user other f crons ne keep in rw e (rw rest refl)
]

-- A change of a cron by one user that returns leaves the crons of every other user as they are,
-- whatever id it names.
pub update-IsSameFor :
    {Zone : Type 0} (cal : Calendar Zone) (settings : CronSettings) (cron_id : String)
    (request : CronUpdate) (user other : String) (now : ℕ) (crons crons' : List Cron)
    → user ≢ other
    → update_cron cal settings cron_id request user now crons ≡ ok crons'
    → IsSameFor other crons crons'
unfolding update_cron
update-IsSameFor cal settings cron_id request user other now crons crons' ne h =
    let (c, read, h1) = bind_inv (find_own cron_id user crons) _ h in
    let (zone, z, h2) =
      bind_inv (require (zone_is_known cal (text_of (request.get_field "timezone"))) 422) _ h1 in
    let (passes, s, h3) =
      bind_inv (require (schedule_passes cal settings now request.schedule) 422) _ h2 in
    let done : update_where (is_own cron_id user) (set_updated cal request c now) crons ≡ crons' =
      ok_injective h3 in
    rw (← done)
      (owned-update cron_id user other (set_updated cal request c now) crons ne (λ x. refl))

-- When a cron is made, its user has at most as many crons as the cap, which is on if it is not 0.
pub create-within_cap :
    {Zone : Type 0} (cal : Calendar Zone) (settings : CronSettings) (graphs : List String)
    (assistants : List Assistant) (uuid5 : String → String) (cron_id user : String)
    (request : CronCreate) (thread_id : Option String) (now : ℕ) (crons crons' : List Cron)
    → 0 < settings.max_per_user
    → create_cron cal settings graphs assistants uuid5 cron_id request user thread_id now crons
      ≡ ok crons'
    → length (owned_by user crons') ≤ settings.max_per_user
unfolding create_cron
create-within_cap cal settings graphs assistants uuid5 cron_id user request thread_id now crons
      crons' pos h =
    let (seconds, a, h1) = bind_inv (require (is_allowed settings request.schedule) 422) _ h in
    let (valid, b, h2) =
      bind_inv (require (cal.is_valid request.schedule (is_seconds_cron request.schedule) now) 422)
        _ h1 in
    let (zone, c, h3) =
      bind_inv (require (zone_is_known cal (text_of (request.get_field "timezone"))) 422) _ h2 in
    let (room, d, h4) = bind_inv (require (has_room settings user crons) 429) _ h3 in
    let (graph, e, h5) =
      bind_inv
        (graph_of (
          find_assistant
            (resolve_assistant_id cal settings graphs assistants uuid5 request.assistant_id) user
            assistants))
        _ h4 in
    let (available, g, h6) = bind_inv (require (contains graphs graph) 404) _ h5 in
    let free = require_inv (has_room settings user crons) 429 d in
    let row = new_cron cal settings graphs assistants uuid5 cron_id request user thread_id now in
    let done : crons ++ row ∷ [] ≡ crons' = ok_injective h6 in
    rw (← done) (
      rw (select-append (λ (x : Cron). str_eq x.user_id user) crons (row ∷ [])) (
        ground (
          arith,
          length-append (owned_by user crons) (owned_by user (row ∷ [])),
          str_eq_refl user,
          free,
        )))

-- The cron that `create_cron` makes is not due up to its first occurrence, its time included: one that
-- fires when it is made waits for its second occurrence, and the others are disabled. The calendar's
-- next occurrence after a time is taken to be later than that time.
pub created_waits :
    {Zone : Type 0} (cal : Calendar Zone) (settings : CronSettings) (graphs : List String)
    (assistants : List Assistant) (uuid5 : String → String) (cron_id user : String)
    (request : CronCreate) (thread_id : Option String) (now then_ : ℕ)
    → ((s : String) (b : Bool) (z : Option Zone) (t : ℕ) → t < cal.get_next s b z t)
    → then_ ≤ first_run cal settings graphs assistants uuid5 request now
    → is_due then_
        (new_cron cal settings graphs assistants uuid5 cron_id request user thread_id now)
      ≡ false
unfolding next_run_of compute_next_run
created_waits cal settings graphs assistants uuid5 cron_id user request thread_id now then_ later
      early =
    let zone = resolve_timezone cal (text_of (request.get_field "timezone")) in
    let second =
      later request.schedule (is_seconds_cron request.schedule) zone
        (first_run cal settings graphs assistants uuid5 request now) in
    ground (arith, early, second)

-- A cron that is enabled again after its date has passed is not due at once: the change gives it its
-- next occurrence, which is taken to be later than the time that it is counted from.
pub reenabled_waits :
    {Zone : Type 0} (cal : Calendar Zone) (request : CronUpdate) (c : Cron) (now : ℕ)
    → ((s : String) (b : Bool) (z : Option Zone) (t : ℕ) → t < cal.get_next s b z t)
    → request.enabled ≡ some true
    → is_due now (set_updated cal request c now c) ≡ false
unfolding compute_next_run
reenabled_waits cal request c now later on =
    let schedule = or_value request.schedule c.schedule in
    let payload = update_items c.payload (build_payload request.get_field) in
    let next =
      later schedule (is_seconds_cron schedule) (resolve_timezone cal (timezone_of payload)) now in
    ground (arith, on, next)
