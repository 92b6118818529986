-- ===== src/Auth/Registry.antt =====
-- `auth/registry.py`: which resource and action a route authorizes as, and the routes that see to it
-- themselves.
use Prim.Native.Char.{code}
use fastapi_langgraph_templa.Base.{
  ℕ, ◌-◌, String, Bool, true, false, ◌&&◌, Option, none, some, List, [], ◌∷◌, leb, ◌==◌, any,
  str_eq, if◌then◌else◌,
}

abbrev pub route_auth_map : List ((String × String) × (String × String))
route_auth_map =
    (("POST", "/assistants"), ("assistants", "create"))
    ∷ (("GET", "/assistants"), ("assistants", "search"))
    ∷ (("POST", "/assistants/search"), ("assistants", "search"))
    ∷ (("POST", "/assistants/count"), ("assistants", "search"))
    ∷ (("GET", "/assistants/{assistant_id}"), ("assistants", "read"))
    ∷ (("PATCH", "/assistants/{assistant_id}"), ("assistants", "update"))
    ∷ (("DELETE", "/assistants/{assistant_id}"), ("assistants", "delete"))
    ∷ (("POST", "/assistants/{assistant_id}/latest"), ("assistants", "update"))
    ∷ (("POST", "/assistants/{assistant_id}/versions"), ("assistants", "read"))
    ∷ (("GET", "/assistants/{assistant_id}/schemas"), ("assistants", "read"))
    ∷ (("GET", "/assistants/{assistant_id}/graph"), ("assistants", "read"))
    ∷ (("GET", "/assistants/{assistant_id}/subgraphs"), ("assistants", "read"))
    ∷ (("POST", "/threads"), ("threads", "create"))
    ∷ (("GET", "/threads"), ("threads", "search"))
    ∷ (("POST", "/threads/search"), ("threads", "search"))
    ∷ (("GET", "/threads/{thread_id}"), ("threads", "read"))
    ∷ (("PATCH", "/threads/{thread_id}"), ("threads", "update"))
    ∷ (("DELETE", "/threads/{thread_id}"), ("threads", "delete"))
    ∷ (("POST", "/threads/prune"), ("threads", "delete"))
    ∷ (("GET", "/threads/{thread_id}/state"), ("threads", "read"))
    ∷ (("POST", "/threads/{thread_id}/state"), ("threads", "update"))
    ∷ (("GET", "/threads/{thread_id}/state/{checkpoint_id}"), ("threads", "read"))
    ∷ (("POST", "/threads/{thread_id}/state/checkpoint"), ("threads", "read"))
    ∷ (("GET", "/threads/{thread_id}/history"), ("threads", "read"))
    ∷ (("POST", "/threads/{thread_id}/history"), ("threads", "read"))
    ∷ (("POST", "/threads/{thread_id}/runs"), ("threads", "create_run"))
    ∷ (("POST", "/threads/{thread_id}/runs/stream"), ("threads", "create_run"))
    ∷ (("POST", "/threads/{thread_id}/runs/wait"), ("threads", "create_run"))
    ∷ (("GET", "/threads/{thread_id}/runs"), ("threads", "search"))
    ∷ (("GET", "/threads/{thread_id}/runs/{run_id}"), ("threads", "read"))
    ∷ (("PATCH", "/threads/{thread_id}/runs/{run_id}"), ("threads", "update"))
    ∷ (("GET", "/threads/{thread_id}/runs/{run_id}/join"), ("threads", "read"))
    ∷ (("GET", "/threads/{thread_id}/runs/{run_id}/stream"), ("threads", "read"))
    ∷ (("POST", "/threads/{thread_id}/runs/{run_id}/cancel"), ("threads", "update"))
    ∷ (("DELETE", "/threads/{thread_id}/runs/{run_id}"), ("threads", "delete"))
    ∷ (("POST", "/runs"), ("threads", "create_run"))
    ∷ (("POST", "/runs/cancel"), ("threads", "update"))
    ∷ (("POST", "/runs/stream"), ("threads", "create_run"))
    ∷ (("POST", "/runs/wait"), ("threads", "create_run"))
    ∷ (("POST", "/runs/crons"), ("crons", "create"))
    ∷ (("POST", "/threads/{thread_id}/runs/crons"), ("crons", "create"))
    ∷ (("PATCH", "/runs/crons/{cron_id}"), ("crons", "update"))
    ∷ (("DELETE", "/runs/crons/{cron_id}"), ("crons", "delete"))
    ∷ (("POST", "/runs/crons/search"), ("crons", "search"))
    ∷ (("POST", "/runs/crons/count"), ("crons", "search"))
    ∷ (("PUT", "/store/items"), ("store", "put"))
    ∷ (("GET", "/store/items"), ("store", "get"))
    ∷ (("DELETE", "/store/items"), ("store", "delete"))
    ∷ (("POST", "/store/items/search"), ("store", "search"))
    ∷ (("POST", "/store/namespaces"), ("store", "list_namespaces"))
    ∷ (("POST", "/threads/{thread_id}/stream/events"), ("threads", "read"))
    ∷ (("POST", "/threads/{thread_id}/commands"), ("threads", "create_run"))
    ∷ []

abbrev pub self_dispatching : List (String × String)
self_dispatching =
    ("POST", "/assistants")
    ∷ ("GET", "/assistants")
    ∷ ("POST", "/assistants/search")
    ∷ ("POST", "/assistants/count")
    ∷ ("GET", "/assistants/{assistant_id}")
    ∷ ("PATCH", "/assistants/{assistant_id}")
    ∷ ("DELETE", "/assistants/{assistant_id}")
    ∷ ("POST", "/assistants/{assistant_id}/latest")
    ∷ ("POST", "/assistants/{assistant_id}/versions")
    ∷ ("GET", "/assistants/{assistant_id}/schemas")
    ∷ ("GET", "/assistants/{assistant_id}/graph")
    ∷ ("GET", "/assistants/{assistant_id}/subgraphs")
    ∷ ("POST", "/threads")
    ∷ ("GET", "/threads")
    ∷ ("POST", "/threads/search")
    ∷ ("POST", "/threads/prune")
    ∷ ("GET", "/threads/{thread_id}")
    ∷ ("PATCH", "/threads/{thread_id}")
    ∷ ("DELETE", "/threads/{thread_id}")
    ∷ ("POST", "/threads/{thread_id}/runs")
    ∷ ("POST", "/threads/{thread_id}/runs/stream")
    ∷ ("POST", "/threads/{thread_id}/runs/wait")
    ∷ ("GET", "/threads/{thread_id}/runs/{run_id}")
    ∷ ("DELETE", "/threads/{thread_id}/runs/{run_id}")
    ∷ ("POST", "/runs")
    ∷ ("POST", "/runs/stream")
    ∷ ("POST", "/runs/wait")
    ∷ ("POST", "/runs/crons")
    ∷ ("POST", "/threads/{thread_id}/runs/crons")
    ∷ ("PATCH", "/runs/crons/{cron_id}")
    ∷ ("DELETE", "/runs/crons/{cron_id}")
    ∷ ("POST", "/runs/crons/search")
    ∷ ("POST", "/runs/crons/count")
    ∷ ("PUT", "/store/items")
    ∷ ("GET", "/store/items")
    ∷ ("DELETE", "/store/items")
    ∷ ("POST", "/store/items/search")
    ∷ ("POST", "/store/namespaces")
    ∷ []

-- `method.upper()` on the letters of HTTP methods, which are ASCII, against a method of the tables.
abbrev upper : ℕ → ℕ
upper c = if leb 97 c && leb c 122 then c - 32 else c

abbrev pub upper_is : String → String → Bool
upper_is String.[] String.[] = true
upper_is (String.◌∷◌ c s) (String.◌∷◌ d t) = upper (code c) == code d && upper_is s t
upper_is _ _ = false

unfoldable pub is_self_dispatching : String → String → Bool
is_self_dispatching method path = any (λ r. upper_is method r.0 && str_eq r.1 path) self_dispatching

abbrev pub lookup_in :
    List ((String × String) × (String × String)) → String → String → Option (String × String)
lookup_in [] method path = none
lookup_in (((m, p), identity) ∷ rows) method path =
    if upper_is method m && str_eq p path then some identity else lookup_in rows method path

unfoldable pub lookup_route_auth : String → String → Option (String × String)
lookup_route_auth method path = lookup_in route_auth_map method path
