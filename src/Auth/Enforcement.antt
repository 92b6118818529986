-- ===== src/Auth/Enforcement.antt =====
-- `auth/enforcement.py`: the dependency that authorizes a route, attached to every route of an app. A
-- route's own dependencies are told by their names.
use Prim.Native.String.{compare}
use Prim.Native.Nat.{Ordering}
use fastapi_langgraph_templa.Base.{
  ℕ, ◌+◌, String, Bool, true, false, none, some, List, [], ◌∷◌, if◌then◌else◌,
}
use fastapi_langgraph_templa.Auth.Registry.{is_self_dispatching, lookup_route_auth}

pub data Dependency : Type 0 where
  enforcer : String → String → Dependency
  own : String → Dependency

-- `APIRoute`, with the mark that it was wired; `dependant` is the list that requests go by.
pub record Route : Type 0 where
  pub methods : List String
  pub path : String
  pub dependencies : List Dependency
  pub dependant : List Dependency
  pub wired : Bool

-- An app's routes: a route, or a router with routes of its own.
mutual
  pub data Node : Type 0 where
    api_route : Route → Node
    router : Routes → Node

  pub data Routes : Type 0 where
    no_routes : Routes
    node : Node → Routes → Routes

-- `sorted(route.methods)`
abbrev pub is_before : String → String → Bool
is_before s t = elim (compare s t) [ Ordering.gt ↦ false | _ ↦ true ]

abbrev pub insert_method : String → List String → List String
insert_method s [] = s ∷ []
insert_method s (t ∷ ts) =
    let later = insert_method s ts in if is_before s t then s ∷ t ∷ ts else t ∷ later

abbrev pub sorted_methods : List String → List String
sorted_methods [] = []
sorted_methods (s ∷ ss) = insert_method s (sorted_methods ss)

abbrev pub attach : String → String → Route → Route
attach resource action route = record route {
  dependencies = enforcer resource action ∷ route.dependencies;
  dependant = enforcer resource action ∷ route.dependant;
  wired = true;
}

-- The loop over the methods, which ends at the first one that the map knows.
abbrev pub wire_methods : List String → Route → Route × ℕ
wire_methods [] route = (route, 0)
wire_methods (method ∷ methods) route =
    let rest = wire_methods methods route in
    elim (lookup_route_auth method route.path) [
      | none ↦ rest
      | some (resource, action) ↦
          if is_self_dispatching method route.path
          then (record route { wired = true }, 0)
          else (attach resource action route, 1)
    ]

unfoldable pub wire_route : Route → Route × ℕ
wire_route route =
    if route.wired then (route, 0) else wire_methods (sorted_methods route.methods) route

unfoldable mutual
  pub wire_node : Node → Node × ℕ
  wire_node (api_route route) = let (route', n) = wire_route route in (api_route route', n)
  wire_node (router routes) =
      let (routes', n) = apply_auth_enforcement routes in (router routes', n)

  -- `walk`, with the number of routes that were wired.
  pub apply_auth_enforcement : Routes → Routes × ℕ
  apply_auth_enforcement no_routes = (no_routes, 0)
  apply_auth_enforcement (node r routes) =
      let (r', n) = wire_node r in
      let (routes', m) = apply_auth_enforcement routes in (node r' routes', n + m)
