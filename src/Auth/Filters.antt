-- ===== src/Auth/Filters.antt =====
-- `auth/filters.py`: the filter of an authorization handler, compiled to a condition on the metadata
-- column. The operator `@>` of the database is an argument of the condition's evaluation.
pub mod Meaning
pub mod Decisions
pub mod Compiled
use fastapi_langgraph_templa.Base.{
  ℕ, suc, String, Bool, true, false, not, ◌&&◌, ◌||◌, Option, none, some, leb, ltb, str_eq,
  if◌then◌else◌, Result, ok, err, ◌>>=◌,
}
use fastapi_langgraph_templa.Base.Json.{
  Json, arr, obj, Items, nil, cons, Fields, end, field, get, dict_of, without, update_items,
}
use fastapi_langgraph_templa.Base.Http.{HttpException}

-- `metadata @> d`, `metadata->key @> items`, and their conjunctions and disjunctions.
mutual
  pub data Clause : Type 0 where
    includes : Fields → Clause
    array_includes : String → Items → Clause
    all_of : Clauses → Clause
    any_of : Clauses → Clause

  pub data Clauses : Type 0 where
    done : Clauses
    also : Clause → Clauses → Clauses

abbrev pub filter_error {ℓ} : {A : Type ℓ} → Result HttpException A
filter_error = err (record { status_code = 500 })

-- `operand if isinstance(operand, list) else [operand]`
abbrev pub as_items : Json → Items
as_items (arr items) = items
as_items operand = cons operand nil

abbrev pub compile_operator : String → String → Json → Result HttpException Clause
compile_operator key operator operand =
    if str_eq operator "$eq"
    then ok (includes (field key operand end))
    else if str_eq operator "$contains"
    then ok (array_includes key (as_items operand))
    else filter_error

unfoldable pub compile_field : String → Json → Result HttpException Clause
compile_field key (obj (field operator operand end)) = compile_operator key operator operand
compile_field key (obj value) = filter_error
compile_field key value = ok (includes (field key value end))

abbrev pub count_items : Items → ℕ
count_items nil = 0
count_items (cons item items) = suc (count_items items)

-- `not isinstance(branch, dict) or not branch`, for no branch.
abbrev pub are_filters : Items → Bool
are_filters nil = true
are_filters (cons (obj (field key value d)) items) = are_filters items
are_filters (cons item items) = false

abbrev pub is_bool_op : String → Bool
is_bool_op key = str_eq key "$or" || str_eq key "$and"

abbrev pub bool_clause : String → Clauses → Clause
bool_clause op branches = if str_eq op "$or" then any_of branches else all_of branches

-- The checks of `_compile_bool_op`, in its order, before the branches are compiled.
abbrev pub compile_branches_if :
    ℕ → String → Items → Result HttpException Clauses → Result HttpException Clause
compile_branches_if depth op branches compiled =
    if leb 2 depth
    then filter_error
    else if ltb (count_items branches) 2
    then filter_error
    else if not (are_filters branches)
    then filter_error
    else compiled >>= λ clauses. ok (bool_clause op clauses)

unfoldable mutual
  pub compile : ℕ → Fields → Result HttpException Clauses
  compile depth end = ok done
  compile depth (field key value d) =
      let rest = compile depth d in
      let bool_op = compile_bool_op depth key value in
      (if is_bool_op key then bool_op else compile_field key value) >>= λ clause.
      rest >>= λ clauses. ok (also clause clauses)

  pub compile_bool_op : ℕ → String → Json → Result HttpException Clause
  compile_bool_op depth op (arr branches) =
      compile_branches_if depth op branches (compile_branches (suc depth) branches)
  compile_bool_op depth op value = filter_error

  pub compile_branches : ℕ → Items → Result HttpException Clauses
  compile_branches depth nil = ok done
  compile_branches depth (cons (obj branch) branches) =
      let rest = compile_branches depth branches in
      compile depth branch >>= λ clauses. rest >>= λ more. ok (also (all_of clauses) more)
  compile_branches depth (cons branch branches) = filter_error

-- A `metadata` envelope is merged with its siblings, which win.
unfoldable pub unwrap_metadata_envelope : Fields → Fields
unwrap_metadata_envelope filters = elim (dict_of (get filters "metadata")) [
  | none ↦ filters
  | some envelope ↦ update_items envelope (without "metadata" filters)
]

abbrev pub conjunction : Clauses → Option Clause
conjunction done = none
conjunction (also clause done) = some clause
conjunction (also clause (also next clauses)) = some (all_of (also clause (also next clauses)))

unfoldable pub build_metadata_filter : Option Fields → Result HttpException (Option Clause)
build_metadata_filter none = ok none
build_metadata_filter (some end) = ok none
build_metadata_filter (some (field key value d)) =
    compile 0 (unwrap_metadata_envelope (field key value d)) >>= λ clauses. ok (conjunction clauses)

-- Whether a row with this metadata passes. A missing key has no array, so the row does not.
module _ (contained : Json → Json → Bool) (metadata : Fields) where
  abbrev pub array_at : Option Json → Items → Bool
  array_at none items = false
  array_at (some value) items = contained (arr items) value

  unfoldable mutual
    pub passes : Clause → Bool
    passes (includes d) = contained (obj d) (obj metadata)
    passes (array_includes key items) = array_at (get metadata key) items
    passes (all_of clauses) = passes_all clauses
    passes (any_of clauses) = passes_any clauses

    pub passes_all : Clauses → Bool
    passes_all done = true
    passes_all (also clause clauses) = passes clause && passes_all clauses

    pub passes_any : Clauses → Bool
    passes_any done = false
    passes_any (also clause clauses) = passes clause || passes_any clauses

  -- A query with the filter as a further condition, if there is one.
  abbrev pub passes_filter : Option Clause → Bool
  passes_filter none = true
  passes_filter (some clause) = passes clause
