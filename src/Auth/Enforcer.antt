-- ===== src/Auth/Enforcer.antt =====
-- `auth/enforcement.py`: the dependency itself. The body of a request is an argument, none where it
-- cannot be read as JSON.
use fastapi_langgraph_templa.Base.{
  String, Bool, true, not, ◌&&◌, ◌||◌, Option, none, some, List, [], ◌∷◌, any, str_eq, Result, ok,
  err, if◌then◌else◌,
}
use fastapi_langgraph_templa.Base.Json.{Json, Fields, end, field, has_key, dict_of, update_items}
use fastapi_langgraph_templa.Auth.Handlers.{
  Key, same_key, Registry, Cache, Answer, EventError, handle_event,
}

abbrev pub or_empty : Option Fields → Fields
or_empty none = end
or_empty (some d) = d

unfoldable pub read_json_body : String → Option Json → Fields
read_json_body method body =
    if str_eq method "GET" || str_eq method "HEAD" then end else or_empty (dict_of body)

-- What the handler gets: `{**body, **path_params}`.
unfoldable pub event_value : String → Option Json → Fields → Fields
event_value method body path_params = update_items (read_json_body method body) path_params

-- `mark_dispatched`, on a list without repetitions.
abbrev pub mark_dispatched : Key → List Key → List Key
mark_dispatched k ks = if any (same_key k) ks then ks else k ∷ ks

-- `dispatched_events` gives the list as it is; this one clears it.
abbrev reset_dispatch_state : List Key
reset_dispatch_state = []

abbrev pub finish :
    Key → List Key → Result EventError (Option Fields) → List Key × Option EventError
finish k dispatched (ok _) = (mark_dispatched k dispatched, none)
finish k dispatched (err e) = (dispatched, some e)

-- `enforce`, with the exception that it ends by, if any.
unfoldable pub enforce :
    {H : Type 0}
    → (H → Fields → Answer)
    → Option (Registry H)
    → Key
    → String
    → Option Json
    → Fields
    → Cache H × List Key
    → (Cache H × List Key) × Option EventError
enforce call auth k method body path_params (cache, dispatched) =
    let value = event_value method body path_params in
    let (cache', result) = handle_event (λ h. call h value) auth (some k) cache in
    let (dispatched', raised) = finish k dispatched result in ((cache', dispatched'), raised)

-- A dict has a key once.
unfoldable pub is_dict : Fields → Bool
is_dict end = true
is_dict (field k v d) = not (has_key d k) && is_dict d
