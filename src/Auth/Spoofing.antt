-- ===== src/Auth/Spoofing.antt =====
-- `auth/enforcement.py`: what of a request's value a handler can rely on.
use fastapi_langgraph_templa.Base.{
  String, Bool, true, false, not, ◌&&◌, ◌≡◌, refl, sym, ap, ◌∙◌, Option, Option-cases, none, some,
  List, str_eq, eq_iff, str_eq_refl, Bool-cases, inl, inr, if◌then◌else◌,
}
use fastapi_langgraph_templa.Base.Json.{
  Json, Fields, end, field, get, has_key, set_item, update_items,
}
use fastapi_langgraph_templa.Auth.Handlers.{Key, Registry, Cache, Answer, handle_event}
use fastapi_langgraph_templa.Auth.Enforcer.{read_json_body, event_value, enforce, is_dict, finish}
use mathlib.Core.Option.{none-ne-some}

get-set_item : (d : Fields) (k : String) (v : Json) → get (set_item d k v) k ≡ some v
get-set_item end k v = rw (str_eq_refl k) refl
get-set_item (field j w d) k v = elim (Bool-cases (str_eq j k)) [
  | inl h ↦ rw h (rw (str_eq_refl k) refl)
  | inr h ↦ rw h (rw h (get-set_item d k v))
]

get-set_item_other :
    (d : Fields) (j k : String) (v : Json) → str_eq j k ≡ false → get (set_item d j v) k ≡ get d k
get-set_item_other end j k v off = rw off refl
get-set_item_other (field i w d) j k v off = elim (Bool-cases (str_eq i j)) [
  | inl h ↦ rw h (rw off (rw (ap (λ s. str_eq s k) ((eq_iff i j).0 h) ∙ off) refl))
  | inr h ↦ rw h (ap (λ r. if str_eq i k then some w else r) (get-set_item_other d j k v off))
]

if_none :
    (b : Bool) (v : Json) (r : Option Json)
    → (if b then some v else r) ≡ none
    → (b ≡ false) × (r ≡ none)
if_none true v r e = absurd (none-ne-some v (sym e))
if_none false v r e = (refl, e)

get-update_items_absent :
    (d other : Fields) (k : String) → get other k ≡ none → get (update_items d other) k ≡ get d k
get-update_items_absent d end k absent = refl
get-update_items_absent d (field j v other) k absent =
    let (off, rest) = if_none (str_eq j k) v (get other k) absent in
    get-update_items_absent (set_item d j v) other k rest ∙ get-set_item_other d j k v off

has_key-get : (d : Fields) (k : String) → has_key d k ≡ false → get d k ≡ none
has_key-get d k h = elim (Option-cases (get d k)) [
  | inl e ↦ e
  | inr (v, e) ↦
      let there : has_key d k ≡ true =
        ap (λ (r : Option Json). elim r [ none ↦ false | some w ↦ true ]) e in
      absurd (cc)
]

is_dict_inv : (b c : Bool) → (not b && c) ≡ true → (b ≡ false) × (c ≡ true)
is_dict_inv false c h = (refl, h)
is_dict_inv true c h = absurd (cc)

get-update_items :
    (d other : Fields) (k : String) (v : Json)
    → is_dict other ≡ true
    → get other k ≡ some v
    → get (update_items d other) k ≡ some v
unfolding is_dict
get-update_items d end k v dict found = absurd (none-ne-some v found)
get-update_items d (field j w other) k v dict found =
    let (fresh, rest) = is_dict_inv (has_key other j) (is_dict other) dict in
    elim (Bool-cases (str_eq j k)) [
      | inl h ↦
          let same = (eq_iff j k).0 h in
          get-update_items_absent (set_item d j w) other k
            (has_key-get other k (sym (ap (has_key other) same) ∙ fresh))
          ∙ ap (get (set_item d j w)) (sym same)
          ∙ get-set_item d j w
          ∙ sym (ap (λ b. if b then some w else get other k) h)
          ∙ found
      | inr h ↦
          get-update_items (set_item d j w) other k v rest
            (sym (ap (λ b. if b then some w else get other k) h) ∙ found)
    ]

-- Path parameters win over the body: a handler that looks at a path parameter only does the same,
-- whatever the body of the request is.
pub enforce_ignores_body :
    {H : Type 0} (look : H → Option Json → Answer) (auth : Option (Registry H)) (identity : Key)
    (method : String) (body other : Option Json) (path_params : Fields) (k : String) (v : Json)
    (state : Cache H × List Key)
    → is_dict path_params ≡ true
    → get path_params k ≡ some v
    → enforce (λ h value. look h (get value k)) auth identity method body path_params state
      ≡ enforce (λ h value. look h (get value k)) auth identity method other path_params state
unfolding enforce event_value
enforce_ignores_body look auth identity method body other path_params k v (cache, dispatched) dict
      found =
    ap
      (λ r.
        let (cache', result) = handle_event (λ h. look h r) auth (some identity) cache in
        let (dispatched', raised) = finish identity dispatched result in
        ((cache', dispatched'), raised))
      (get-update_items (read_json_body method body) path_params k v dict found
        ∙ sym (get-update_items (read_json_body method other) path_params k v dict found))
