-- ===== src/Auth/Filters/Meaning.antt =====
-- `auth/filters.py`: the filters that its text allows, and what they ask of the metadata.
use fastapi_langgraph_templa.Base.{
  ℕ, zero, suc, String, Bool, true, false, ◌&&◌, ◌||◌, str_eq, if◌then◌else◌,
}
use fastapi_langgraph_templa.Base.Json.{Json, arr, obj, Items, nil, cons, Fields, end, field, get}
use fastapi_langgraph_templa.Auth.Filters.{as_items, is_bool_op, array_at}

-- The shapes that the module's text allows, with a number of levels of `$or` and `$and` at most.
abbrev pub is_valid_field : Json → Bool
is_valid_field (obj (field operator operand end)) =
    str_eq operator "$eq" || str_eq operator "$contains"
is_valid_field (obj value) = false
is_valid_field value = true

abbrev pub has_two : Items → Bool
has_two (cons a (cons b items)) = true
has_two items = false

unfoldable mutual
  pub is_valid : ℕ → Fields → Bool
  is_valid levels end = true
  is_valid levels (field key value d) =
      let rest = is_valid levels d in
      let op = is_valid_op levels value in
      (if is_bool_op key then op else is_valid_field value) && rest

  pub is_valid_op : ℕ → Json → Bool
  is_valid_op zero value = false
  is_valid_op (suc levels) (arr branches) = has_two branches && are_valid levels branches
  is_valid_op (suc levels) value = false

  pub are_valid : ℕ → Items → Bool
  are_valid levels nil = true
  are_valid levels (cons (obj end) branches) = false
  are_valid levels (cons (obj (field key value d)) branches) =
      is_valid levels (field key value d) && are_valid levels branches
  are_valid levels (cons branch branches) = false

-- What a filter asks of the metadata.
module _ (contained : Json → Json → Bool) (metadata : Fields) where
  abbrev pub satisfies_field : String → Json → Bool
  satisfies_field key (obj (field operator operand end)) =
      if str_eq operator "$eq"
      then contained (obj (field key operand end)) (obj metadata)
      else array_at contained metadata (get metadata key) (as_items operand)
  satisfies_field key value = contained (obj (field key value end)) (obj metadata)

  unfoldable mutual
    pub satisfies : Fields → Bool
    satisfies end = true
    satisfies (field key value d) =
        let rest = satisfies d in
        let any_ = satisfies_any value in
        let all_ = satisfies_all value in
        (if str_eq key "$or"
          then any_
          else if str_eq key "$and"
          then all_
          else satisfies_field key value)
        && rest

    pub satisfies_any : Json → Bool
    satisfies_any (arr branches) = any_branch branches
    satisfies_any value = false

    pub satisfies_all : Json → Bool
    satisfies_all (arr branches) = all_branches branches
    satisfies_all value = false

    pub any_branch : Items → Bool
    any_branch nil = false
    any_branch (cons (obj branch) branches) = satisfies branch || any_branch branches
    any_branch (cons branch branches) = false

    pub all_branches : Items → Bool
    all_branches nil = true
    all_branches (cons (obj branch) branches) = satisfies branch && all_branches branches
    all_branches (cons branch branches) = false
