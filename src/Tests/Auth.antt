-- ===== src/Tests/Auth.antt =====
-- A local engine with an approval gate, filters of both kinds, and a registry of three handlers.
use fastapi_langgraph_templa.Base.{
  String, Option, true, false, ◌≡◌, refl, none, some, [], ◌∷◌, Memᴰ, inl, ok, str_eq, if◌then◌else◌,
}
use fastapi_langgraph_templa.Base.Json.{Json, Fields, end, field, text, obj, get}
use fastapi_langgraph_templa.Auth.{User}
use fastapi_langgraph_templa.Auth.Policy.{
  Permission, ResourceType, AccessFilter, PolicyEngine, raise_unless, local_engine, compose_filters,
  composite_of,
}
use fastapi_langgraph_templa.Auth.Narrowing.{
  admits, is_one, local_lists_allowed, compose_filters_exact,
}
use fastapi_langgraph_templa.Auth.Handlers.{
  Registry, Answer, denies, filters, handle_event, resolve,
}
use fastapi_langgraph_templa.Auth.Resolution.{asked, handle_event-resolve}
use fastapi_langgraph_templa.Auth.Enforcement.{
  enforcer, own, Route, api_route, router, Routes, no_routes, node, wire_route,
  apply_auth_enforcement, wire_node,
}
use fastapi_langgraph_templa.Auth.Registry.{is_self_dispatching, lookup_route_auth}
use fastapi_langgraph_templa.Auth.Wiring.{
  Layer, wire_route_authorizes, apply_auth_enforcement_idempotent,
}
use fastapi_langgraph_templa.Auth.Enforcer.{enforce, event_value, read_json_body, is_dict}
use fastapi_langgraph_templa.Auth.Spoofing.{enforce_ignores_body}

-- Nothing passes until it is approved.
abbrev closed_gate : PolicyEngine
closed_gate = record {
  check = λ u p r c. false;
  require = λ u p r c. raise_unless false;
  access_filter = λ u p t c. record { allow_all = false; owner_id = none; object_ids = some [] };
}

abbrev gated : PolicyEngine
gated = composite_of (local_engine ∷ closed_gate ∷ [])

abbrev alice : User
alice = record { identity = "alice"; permissions = [] }

abbrev reading : Permission
reading = record { value = "read" }

abbrev skill : ResourceType
skill = record { value = "skill" }

local_lists_allowed_example :
    admits (local_engine.access_filter alice reading skill none) "s1" "bob"
    ≡ local_engine.check alice reading
        (record { type_of = skill; id = "s1"; owner_id = some "bob" })
        none
local_lists_allowed_example = local_lists_allowed alice reading skill "s1" "bob" none

abbrev all_rows : AccessFilter
all_rows = record { allow_all = true; owner_id = none; object_ids = none }

abbrev rows_of : String → AccessFilter
rows_of o = record { allow_all = false; owner_id = some o; object_ids = none }

abbrev two_rows : AccessFilter
two_rows = record { allow_all = false; owner_id = none; object_ids = some ("s1" ∷ "s2" ∷ []) }

compose_filters_exact_example :
    admits (compose_filters (rows_of "alice" ∷ all_rows ∷ rows_of "bob" ∷ [])) "s1" "bob" ≡ false
unfolding is_one admits
compose_filters_exact_example =
    compose_filters_exact "s1" "bob" (rows_of "alice" ∷ all_rows ∷ rows_of "bob" ∷ []) refl
      (inl refl)

-- Handlers by name.
abbrev registry : Registry String
registry = record {
  handlers = (("threads", "create"), "first" ∷ "latest" ∷ []) ∷ (("*", "*"), "global" ∷ []) ∷ [];
  global_handlers = [];
}

abbrev answer : String → Answer
answer name = if str_eq name "latest" then filters (field "owner" (text "u1") end) else denies

handle_event-resolve_example :
    (handle_event answer
      (some registry)
      (some ("threads", "create"))
      (asked registry (("threads", "read") ∷ ("threads", "create") ∷ []) [])).1
    ≡ ok (some (field "owner" (text "u1") end))
unfolding resolve
handle_event-resolve_example =
    handle_event-resolve registry answer (("threads", "read") ∷ ("threads", "create") ∷ [])
      "threads" "create"

-- A route that the enforcer authorizes, one that authorizes in its body, and one that is open.
abbrev route_of : String → String → Route
route_of method path = record {
  methods = method ∷ [];
  path = path;
  dependencies = own "limit" ∷ [];
  dependant = own "limit" ∷ [];
  wired = false;
}

abbrev state_route : Route
state_route = route_of "GET" "/threads/{thread_id}/state"

abbrev app_routes : Routes
app_routes =
    node
      (router (node (api_route state_route) (node (api_route (route_of "POST" "/runs")) no_routes)))
      (node (api_route (route_of "GET" "/health")) no_routes)

app_is_wired_once : (apply_auth_enforcement app_routes).1 ≡ 1
unfolding wire_node apply_auth_enforcement wire_route is_self_dispatching lookup_route_auth
app_is_wired_once = refl

state_is_guarded :
    (wire_route state_route).0.dependencies ≡ enforcer "threads" "read" ∷ own "limit" ∷ []
unfolding wire_route is_self_dispatching lookup_route_auth
state_is_guarded = refl

apply_auth_enforcement_idempotent_example :
    apply_auth_enforcement (apply_auth_enforcement app_routes).0
    ≡ ((apply_auth_enforcement app_routes).0, 0)
apply_auth_enforcement_idempotent_example = apply_auth_enforcement_idempotent app_routes

wire_route_authorizes_example : Layer ("GET" ∷ []) state_route (wire_route state_route)
unfolding lookup_route_auth
wire_route_authorizes_example =
    wire_route_authorizes state_route "GET" ("threads", "read") refl (Memᴰ.head refl) refl

-- Thread t1 is in the path and another one in the body; the handler denies what is not t1.
abbrev only_t1 : String → Option Json → Answer
only_t1 h (some (text s)) = if str_eq s "t1" then filters end else denies
only_t1 h _ = denies

abbrev thread_handlers : Registry String
thread_handlers = record {
  handlers = (("threads", "read"), "on_read" ∷ []) ∷ [];
  global_handlers = [];
}

abbrev thread_in_path : Fields
thread_in_path = field "thread_id" (text "t1") end

abbrev crafted : Option Json
crafted = some (obj (field "thread_id" (text "t2") end))

enforce_ignores_body_example :
    enforce
      (λ h value. only_t1 h (get value "thread_id"))
      (some thread_handlers)
      ("threads", "read")
      "POST"
      crafted
      thread_in_path
      ([], [])
    ≡ enforce
        (λ h value. only_t1 h (get value "thread_id"))
        (some thread_handlers)
        ("threads", "read")
        "POST"
        none
        thread_in_path
        ([], [])
unfolding is_dict
enforce_ignores_body_example =
    enforce_ignores_body only_t1 (some thread_handlers) ("threads", "read") "POST" crafted none
      thread_in_path "thread_id" (text "t1") ([], []) refl refl

crafted_body_loses : event_value "POST" crafted thread_in_path ≡ thread_in_path
unfolding event_value read_json_body
crafted_body_loses = refl
