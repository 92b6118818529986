-- ===== src/Auth/Wiring.antt =====
-- `auth/enforcement.py`: a second pass over an app, and the layer that authorizes a route.
use fastapi_langgraph_templa.Base.{
  ℕ, ◌+◌, String, true, false, ◌≡◌, refl, sym, ap, ◌∙◌, none, some, List, [], ◌∷◌, Memᴰ,
  if◌then◌else◌, if-cases, Option-cases, Bool-cases, inl, inr, ◌⊎◌,
}
use mathlib.Core.Path.{subst}
use mathlib.Core.Option.{none-ne-some}
use fastapi_langgraph_templa.Auth.Registry.{is_self_dispatching, lookup_route_auth}
use fastapi_langgraph_templa.Auth.Enforcement.{
  enforcer, Route, Node, api_route, router, Routes, no_routes, node, insert_method, sorted_methods,
  attach, wire_methods, wire_route, wire_node, apply_auth_enforcement, is_before,
}

both {ℓ ℓ'} : {A : Type ℓ} {B : Type ℓ'} (p q : A × B) → p.0 ≡ q.0 → p.1 ≡ q.1 → p ≡ q
both p q e f i = (e i, f i)

wire_methods-cases :
    (methods : List String) (route : Route)
    → (wire_methods methods route ≡ (route, 0)) ⊎ ((wire_methods methods route).0.wired ≡ true)
wire_methods-cases [] route = inl refl
wire_methods-cases (method ∷ methods) route =
    elim (Option-cases (lookup_route_auth method route.path)) [
      | inl e ↦ rw (e, wire_methods) (wire_methods-cases methods route)
      | inr ((resource, action), e) ↦
          rw (e, wire_methods)
            (if-cases (λ (r : Route × ℕ). (r ≡ (route, 0)) ⊎ (r.0.wired ≡ true))
              (is_self_dispatching method route.path) (inr refl) (inr refl))
    ]

wire_route-wired : (route : Route) → route.wired ≡ true → wire_route route ≡ (route, 0)
unfolding wire_route
wire_route-wired route h = rw h refl

wire_route-cases :
    (route : Route) → (wire_route route ≡ (route, 0)) ⊎ ((wire_route route).0.wired ≡ true)
unfolding wire_route
wire_route-cases route =
    if-cases (λ (r : Route × ℕ). (r ≡ (route, 0)) ⊎ (r.0.wired ≡ true)) route.wired (inl refl)
      (wire_methods-cases (sorted_methods route.methods) route)

wire_route-again : (route : Route) → wire_route (wire_route route).0 ≡ ((wire_route route).0, 0)
wire_route-again route = elim (wire_route-cases route) [
  | inl e ↦ ap (λ r. wire_route r.0) e ∙ e ∙ sym (ap (λ (r : Route × ℕ). (r.0, 0)) e)
  | inr wired ↦ wire_route-wired (wire_route route).0 wired
]

mutual
  unfolding wire_node apply_auth_enforcement

  wire_node-again : (n : Node) → wire_node (wire_node n).0 ≡ ((wire_node n).0, 0)
  wire_node-again (api_route route) =
      ap (λ (r : Route × ℕ). (api_route r.0, r.1)) (wire_route-again route)
  wire_node-again (router routes) = ap (λ (r : Routes × ℕ). (router r.0, r.1)) (routes-again routes)

  routes-again :
      (routes : Routes)
      → apply_auth_enforcement (apply_auth_enforcement routes).0
        ≡ ((apply_auth_enforcement routes).0, 0)
  routes-again no_routes = refl
  routes-again (node n routes) =
      ap (λ (r : (Node × ℕ) × (Routes × ℕ)). (node r.0.0 r.1.0, r.0.1 + r.1.1))
        (both (wire_node (wire_node n).0, apply_auth_enforcement (apply_auth_enforcement routes).0)
          (((wire_node n).0, 0), ((apply_auth_enforcement routes).0, 0)) (wire_node-again n)
          (routes-again routes))

-- A second pass over an app attaches nothing and changes no route.
pub apply_auth_enforcement_idempotent :
    (routes : Routes)
    → apply_auth_enforcement (apply_auth_enforcement routes).0
      ≡ ((apply_auth_enforcement routes).0, 0)
apply_auth_enforcement_idempotent = routes-again

-- The enforcer for an identity stands first in the list that the route declares and in the list that
-- requests go by, in front of what stood there, and the rest of the route is as it was.
pub record IsGuarded (identity : String × String) (route guarded : Route) : Type 0 where
  pub dependencies : guarded.dependencies ≡ enforcer identity.0 identity.1 ∷ route.dependencies
  pub dependant : guarded.dependant ≡ enforcer identity.0 identity.1 ∷ route.dependant
  pub wired : guarded.wired ≡ true
  pub methods : guarded.methods ≡ route.methods
  pub path : guarded.path ≡ route.path

attach-IsGuarded :
    (identity : String × String) (route : Route)
    → IsGuarded identity route (attach identity.0 identity.1 route)
attach-IsGuarded identity route = record {
  dependencies = refl;
  dependant = refl;
  wired = refl;
  methods = refl;
  path = refl;
}

-- What became of a route: its body authorizes, and nothing was attached, or the enforcer of a method
-- of it was attached in front of its dependencies, once.
pub data Layer (methods : List String) (route : Route) (result : Route × ℕ) : Type 0 where
  in_body :
      (m : String)
      → Memᴰ m methods
      → is_self_dispatching m route.path ≡ true
      → result ≡ (record route { wired = true }, 0)
      → Layer methods route result
  attached :
      (m : String) (identity : String × String)
      → Memᴰ m methods
      → lookup_route_auth m route.path ≡ some identity
      → is_self_dispatching m route.path ≡ false
      → IsGuarded identity route result.0
      → result.1 ≡ 1
      → Layer methods route result

Layer-among :
    (ms ns : List String) (route : Route) (result : Route × ℕ)
    → ((m : String) → Memᴰ m ms → Memᴰ m ns)
    → Layer ms route result
    → Layer ns route result
Layer-among ms ns route result f (in_body m mem h e) = in_body m (f m mem) h e
Layer-among ms ns route result f (attached m identity mem found h e n) =
    attached m identity (f m mem) found h e n

abbrev IsKnown : String → Route → (String × String) → Type 0
IsKnown m route identity = lookup_route_auth m route.path ≡ some identity

mem-tail_known :
    (m method : String) (methods : List String) (route : Route) (identity : String × String)
    → IsKnown m route identity
    → lookup_route_auth method route.path ≡ none
    → Memᴰ m (method ∷ methods)
    → Memᴰ m methods
mem-tail_known m method methods route identity found e (Memᴰ.head same) =
    absurd
      (none-ne-some identity (sym e ∙ ap (λ s. lookup_route_auth s route.path) (sym same) ∙ found))
mem-tail_known m method methods route identity found e (Memᴰ.tail mem) = mem

wire_methods-Layer :
    (methods : List String) (route : Route) (m : String) (identity : String × String)
    → IsKnown m route identity
    → Memᴰ m methods
    → Layer methods route (wire_methods methods route)
wire_methods-Layer [] route m identity found mem = elim mem [ ]
wire_methods-Layer (method ∷ methods) route m identity found mem =
    elim (Option-cases (lookup_route_auth method route.path)) [
      | inl e ↦
          rw (e, wire_methods)
            (Layer-among methods (method ∷ methods) route (wire_methods methods route)
              (λ _ k. Memᴰ.tail k)
              (wire_methods-Layer methods route m identity found
                (mem-tail_known m method methods route identity found e mem)))
      | inr ((resource, action), e) ↦ elim (Bool-cases (is_self_dispatching method route.path)) [
        | inl h ↦ in_body method (Memᴰ.head refl) h (rw (e, wire_methods) (rw h refl))
        | inr h ↦
            attached method (resource, action) (Memᴰ.head refl) e h
              (rw (e, wire_methods) (rw h (attach-IsGuarded (resource, action) route)))
              (rw (e, wire_methods) (rw h refl))
      ]
    ]

mem-behind : (s t : String) (ts : List String) (m : String) → Memᴰ m (s ∷ ts) → Memᴰ m (s ∷ t ∷ ts)
mem-behind s t ts m (Memᴰ.head e) = Memᴰ.head e
mem-behind s t ts m (Memᴰ.tail k) = Memᴰ.tail (Memᴰ.tail k)

mem-later :
    (s t : String) (ts us : List String) (m : String)
    → ((n : String) → Memᴰ n (s ∷ ts) → Memᴰ n us)
    → Memᴰ m (s ∷ t ∷ ts)
    → Memᴰ m (t ∷ us)
mem-later s t ts us m f (Memᴰ.head e) = Memᴰ.tail (f m (Memᴰ.head e))
mem-later s t ts us m f (Memᴰ.tail (Memᴰ.head e)) = Memᴰ.head e
mem-later s t ts us m f (Memᴰ.tail (Memᴰ.tail k)) = Memᴰ.tail (f m (Memᴰ.tail k))

mem-insert :
    (s : String) (ts : List String) (m : String) → Memᴰ m (s ∷ ts) → Memᴰ m (insert_method s ts)
mem-insert s [] m k = k
mem-insert s (t ∷ ts) m k =
    if-cases (λ us. Memᴰ m us) (is_before s t) k
      (mem-later s t ts (insert_method s ts) m (mem-insert s ts) k)

mem-sorted : (ss : List String) (m : String) → Memᴰ m ss → Memᴰ m (sorted_methods ss)
mem-sorted [] m k = k
mem-sorted (s ∷ ss) m (Memᴰ.head e) = mem-insert s (sorted_methods ss) m (Memᴰ.head e)
mem-sorted (s ∷ ss) m (Memᴰ.tail k) =
    mem-insert s (sorted_methods ss) m (Memᴰ.tail (mem-sorted ss m k))

mem-insert_inv :
    (s : String) (ts : List String) (m : String) → Memᴰ m (insert_method s ts) → Memᴰ m (s ∷ ts)
mem-insert_inv s [] m = λ k. k
mem-insert_inv s (t ∷ ts) m =
    if-cases (λ us. Memᴰ m us → Memᴰ m (s ∷ t ∷ ts)) (is_before s t) (λ k. k)
      (elim [
        | Memᴰ.head e ↦ Memᴰ.tail (Memᴰ.head e)
        | Memᴰ.tail k ↦ mem-behind s t ts m (mem-insert_inv s ts m k)
      ])

mem-sorted_inv : (ss : List String) (m : String) → Memᴰ m (sorted_methods ss) → Memᴰ m ss
mem-sorted_inv [] m k = k
mem-sorted_inv (s ∷ ss) m k = elim (mem-insert_inv s (sorted_methods ss) m k) [
  | Memᴰ.head e ↦ Memᴰ.head e
  | Memᴰ.tail j ↦ Memᴰ.tail (mem-sorted_inv ss m j)
]

-- Of a route that is not wired yet and has a method that the map knows, either a method authorizes in
-- the body of the route, and nothing is attached, or the enforcer for the identity of one of its
-- methods stands in front of its dependencies, in both lists, once.
pub wire_route_authorizes :
    (route : Route) (m : String) (identity : String × String)
    → route.wired ≡ false
    → Memᴰ m route.methods
    → IsKnown m route identity
    → Layer route.methods route (wire_route route)
unfolding wire_route
wire_route_authorizes route m identity unwired mem found =
    subst (Layer route.methods route)
      (sym (
        ap (λ b. if b then (route, 0) else wire_methods (sorted_methods route.methods) route)
          unwired))
      (Layer-among (sorted_methods route.methods) route.methods route
        (wire_methods (sorted_methods route.methods) route) (mem-sorted_inv route.methods)
        (wire_methods-Layer (sorted_methods route.methods) route m identity found
          (mem-sorted route.methods m mem)))
