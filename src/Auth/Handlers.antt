-- ===== src/Auth/Handlers.antt =====
-- `auth/handlers.py`: the handler that decides on a resource and an action, and what its answer means.
-- Handlers are an argument, told apart by a type `H`.
use fastapi_langgraph_templa.Base.{
  ℕ, String, Bool, ◌&&◌, Option, none, some, List, [], ◌∷◌, if◌then◌else◌, str_eq, Result, ok, err,
}
use fastapi_langgraph_templa.Base.Json.{Fields}

abbrev pub Key : Type 0
Key = String × String

abbrev pub same_key : Key → Key → Bool
same_key (r, a) (s, b) = str_eq r s && str_eq a b

abbrev pub find_key {ℓ} : {A : Type ℓ} → Key → List (Key × A) → Option A
find_key k [] = none
find_key k ((j, v) ∷ d) = let rest = find_key k d in if same_key j k then some v else rest

-- `xs[-1]`, where there is one.
abbrev pub last {ℓ} : {A : Type ℓ} → List A → Option A
last [] = none
last (x ∷ []) = some x
last (x ∷ (y ∷ ys)) = last (y ∷ ys)

abbrev pub last_of {ℓ} : {A : Type ℓ} → Option (List A) → Option A
last_of none = none
last_of (some xs) = last xs

abbrev pub or_else {ℓ} : {A : Type ℓ} → Option A → Option A → Option A
or_else none other = other
or_else (some a) other = some a

-- The registrations of `Auth`.
pub record Registry (H : Type 0) : Type 0 where
  pub handlers : List (Key × List H)
  pub global_handlers : List H

-- `_handler_cache`
abbrev pub Cache : Type 0 → Type 0
Cache H = List (Key × H)

-- How a call of a handler ends: `None` or `True`, `False`, a dict, a value of another type,
-- `Auth.exceptions.HTTPException`, an `AssertionError`, or another exception.
pub data Answer : Type 0 where
  allows denies : Answer
  filters : Fields → Answer
  other_value : Answer
  http_error : ℕ → Answer
  assertion_error other_error : Answer

-- `HTTPException` with its status, or the exception that the handler raised.
pub data EventError : Type 0 where
  http : ℕ → EventError
  propagated : EventError

module _ {H : Type 0} (auth : Registry H) where
  -- The search of `_get_handler`, the most specific key first and the last registration of a key.
  unfoldable pub resolve : String → String → Option H
  resolve resource action = or_else (last_of (find_key (resource, action) auth.handlers)) (
      or_else (last_of (find_key (resource, "*") auth.handlers)) (
        or_else (last_of (find_key ("*", action) auth.handlers))
          (or_else (last_of (find_key ("*", "*") auth.handlers)) (last auth.global_handlers))))

  unfoldable pub get_handler : String → String → Cache H → Cache H × Option H
  get_handler resource action cache = elim (find_key (resource, action) cache) [
    | some h ↦ (cache, some h)
    | none ↦ elim (resolve resource action) [
      | none ↦ (cache, none)
      | some h ↦ (((resource, action), h) ∷ cache, some h)
    ]
  ]

abbrev pub interpret : Answer → Result EventError (Option Fields)
interpret allows = ok none
interpret denies = err (http 403)
interpret (filters f) = ok (some f)
interpret other_value = err (http 500)
interpret (http_error n) = err (http n)
interpret assertion_error = err (http 403)
interpret other_error = err propagated

abbrev pub decide : {H : Type 0} → (H → Answer) → Option H → Result EventError (Option Fields)
decide call none = ok none
decide call (some h) = interpret (call h)

-- `handle_event`; the context is the resource and the action, and `none` is no context or no auth.
unfoldable pub handle_event :
    {H : Type 0}
    → (H → Answer)
    → Option (Registry H)
    → Option Key
    → Cache H
    → Cache H × Result EventError (Option Fields)
unfolding get_handler
handle_event call auth none cache = (cache, ok none)
handle_event call none (some k) cache = (cache, ok none)
handle_event call (some auth) (some (resource, action)) cache =
    let (cache', h) = get_handler auth resource action cache in (cache', decide call h)
