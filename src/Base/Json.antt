-- ===== src/Base/Json.antt =====
-- JSON values, as the JSONB columns and the request bodies hold them. Numbers are the natural ones.
use fastapi_langgraph_templa.Base.{
  not, zero, suc, ℕ, String, Bool, Option, none, some, str_eq, if◌then◌else◌, List, [], ◌∷◌, true,
  false,
}

mutual
  pub data Json : Type 0 where
    null : Json
    bool : Bool → Json
    num : ℕ → Json
    text : String → Json
    arr : Items → Json
    obj : Fields → Json

  pub data Items : Type 0 where
    nil : Items
    cons : Json → Items → Items

  pub data Fields : Type 0 where
    end : Fields
    field : String → Json → Fields → Fields

-- `d.get(key)`
abbrev pub get : Fields → String → Option Json
get end k = none
get (field j v fs) k = if str_eq j k then some v else get fs k

-- A JSON text, where `None` and other values are none.
abbrev pub text_of : Option Json → Option String
text_of (some (text s)) = some s
text_of _ = none

-- `d[name]` if it is a text.
abbrev pub text_field : Fields → String → Option String
text_field d name = text_of (get d name)

-- `isinstance(v, dict)` and `isinstance(v, list)`, with the value.
abbrev pub dict_of : Option Json → Option Fields
dict_of (some (obj d)) = some d
dict_of _ = none

abbrev pub list_of : Option Json → Option Items
list_of (some (arr xs)) = some xs
list_of _ = none

-- `key in d`
abbrev pub has_key : Fields → String → Bool
has_key d k = elim (get d k) [ none ↦ false | some v ↦ true ]

-- `d.get(key)` where a missing key is `None`.
abbrev pub get_or_null : Fields → String → Json
get_or_null d k = elim (get d k) [ none ↦ null | some v ↦ v ]

-- A dict built in order: a field that is there only if there is a value for it.
abbrev pub add_given : String → Option Json → Fields → Fields
add_given name none rest = rest
add_given name (some v) rest = field name v rest

abbrev pub add_text : String → Option String → Fields → Fields
add_text name none rest = rest
add_text name (some s) rest = field name (text s) rest

-- `d[key] = value` and `d.update(other)`
abbrev pub set_item : Fields → String → Json → Fields
set_item end k v = field k v end
set_item (field j w d) k v = if str_eq j k then field k v d else field j w (set_item d k v)

abbrev pub update_items : Fields → Fields → Fields
update_items d end = d
update_items d (field k v other) = update_items (set_item d k v) other

-- `{k: v for k, v in d.items() if k != key}`
abbrev pub without : String → Fields → Fields
without key end = end
without key (field k v d) =
    let rest = without key d in if str_eq k key then rest else field k v rest

-- A list of dicts as a JSON list.
abbrev pub items_of : List Fields → Items
items_of [] = nil
items_of (d ∷ ds) = cons (obj d) (items_of ds)

-- `bool(v)`
abbrev pub truthy : Json → Bool
truthy null = false
truthy (bool b) = b
truthy (num zero) = false
truthy (num (suc n)) = true
truthy (text s) = not (str_eq s "")
truthy (arr nil) = false
truthy (arr (cons x xs)) = true
truthy (obj end) = false
truthy (obj (field k v d)) = true
