-- ===== src/Auth/Filters/Compiled.antt =====
-- `auth/filters.py`: a compiled filter is what the filter means.
use fastapi_langgraph_templa.Base.{
  ℕ, zero, suc, ◌+◌, String, Bool, true, false, not, ◌&&◌, ◌||◌, ◌≡◌, refl, ◌∙◌, Option, some, leb,
  ltb, str_eq, if◌then◌else◌, Result, ok, ◌>>=◌, arith, Bool-cases, inl, inr,
}
use fastapi_langgraph_templa.Base.Json.{
  Json, null, bool, num, text, arr, obj, Items, nil, cons, Fields, end, field,
}
use fastapi_langgraph_templa.Base.Http.{HttpException}
use fastapi_langgraph_templa.Auth.Filters.{
  Clause, includes, array_includes, all_of, Clauses, done, also, filter_error, as_items,
  compile_field, compile_operator, count_items, are_filters, is_bool_op, bool_clause,
  compile_branches_if, compile, compile_bool_op, compile_branches, unwrap_metadata_envelope,
  conjunction, build_metadata_filter, passes, passes_all, passes_any, passes_filter,
}
use fastapi_langgraph_templa.Auth.Filters.Meaning.{
  is_valid_field, has_two, is_valid, is_valid_op, are_valid, satisfies_field, satisfies,
  satisfies_any, satisfies_all, any_branch, all_branches,
}
use fastapi_langgraph_templa.Auth.Filters.Decisions.{
  Decides, Decides-ok, Decides-failed, Decides-bind, Decides-map,
}

and_false : (b : Bool) → (b && false) ≡ false
and_false true = refl
and_false false = refl

too_deep : (depth : ℕ) → depth + 0 ≡ 2 → leb 2 depth ≡ true
too_deep depth h = ground (arith, h)

not_too_deep : (depth levels : ℕ) → depth + suc levels ≡ 2 → leb 2 depth ≡ false
not_too_deep depth levels h = ground (arith, h)

count-has_two : (items : Items) → ltb (count_items items) 2 ≡ not (has_two items)
count-has_two nil = refl
count-has_two (cons a nil) = refl
count-has_two (cons a (cons b items)) = ground arith

module _ (contained : Json → Json → Bool) (metadata : Fields) where
  IsMeant : Bool → Clause → Type 0
  IsMeant b clause = passes contained metadata clause ≡ b

  AreMeant : Bool → Clauses → Type 0
  AreMeant b clauses = passes_all contained metadata clauses ≡ b

  -- The branches, for a disjunction and for a conjunction.
  BranchesMeant : Items → Clauses → Type 0
  BranchesMeant branches clauses =
      (passes_any contained metadata clauses ≡ any_branch contained metadata branches)
      × (passes_all contained metadata clauses ≡ all_branches contained metadata branches)

  compile_operator-Decides :
      (key operator : String) (operand : Json)
      → Decides
          (compile_operator key operator operand)
          (str_eq operator "$eq" || str_eq operator "$contains")
          (IsMeant (satisfies_field contained metadata key (obj (field operator operand end))))
  unfolding IsMeant passes
  compile_operator-Decides key operator operand = elim (Bool-cases (str_eq operator "$eq")) [
    | inl e ↦ rw e (Decides-ok _ (includes (field key operand end)) refl)
    | inr e ↦ rw e (elim (Bool-cases (str_eq operator "$contains")) [
      | inl k ↦ rw k (Decides-ok _ (array_includes key (as_items operand)) refl)
      | inr k ↦ rw k (Decides-failed _)
    ])
  ]

  compile_field-Decides :
      (key : String) (value : Json)
      → Decides
          (compile_field key value)
          (is_valid_field value)
          (IsMeant (satisfies_field contained metadata key value))
  unfolding compile_field IsMeant passes
  compile_field-Decides key (obj (field operator operand end)) =
      compile_operator-Decides key operator operand
  compile_field-Decides key (obj end) = Decides-failed _
  compile_field-Decides key (obj (field a v (field b w d))) = Decides-failed _
  compile_field-Decides key null = Decides-ok _ _ refl
  compile_field-Decides key (bool b) = Decides-ok _ _ refl
  compile_field-Decides key (num n) = Decides-ok _ _ refl
  compile_field-Decides key (text s) = Decides-ok _ _ refl
  compile_field-Decides key (arr items) = Decides-ok _ _ refl

  bool_clause-IsMeant :
      (key : String) (branches : Items) (clauses : Clauses)
      → passes_any contained metadata clauses ≡ any_branch contained metadata branches
      → passes_all contained metadata clauses ≡ all_branches contained metadata branches
      → IsMeant
          (if str_eq key "$or"
            then any_branch contained metadata branches
            else all_branches contained metadata branches)
          (bool_clause key clauses)
  unfolding IsMeant passes
  bool_clause-IsMeant key branches clauses any_ all_ = elim (Bool-cases (str_eq key "$or")) [
    | inl e ↦ rw e any_
    | inr e ↦ rw e all_
  ]

  are_valid-are_filters :
      (levels : ℕ) (branches : Items)
      → are_filters branches ≡ false
      → are_valid levels branches ≡ false
  unfolding is_valid
  are_valid-are_filters levels nil h = absurd (cc)
  are_valid-are_filters levels (cons (obj (field key value d)) branches) h =
      rw (are_valid-are_filters levels branches h) (and_false _)
  are_valid-are_filters levels (cons (obj end) branches) h = refl
  are_valid-are_filters levels (cons branch branches) h = refl

  -- The result of an operator on a list of branches, from that of the branches.
  compile_branches_if-Decides :
      (depth levels : ℕ) (key : String) (branches : Items) (compiled : Result HttpException Clauses)
      → depth + suc levels ≡ 2
      → (are_filters branches ≡ true
          → Decides compiled (are_valid levels branches) (BranchesMeant branches))
      → Decides
          (compile_branches_if depth key branches compiled)
          (has_two branches && are_valid levels branches)
          (IsMeant (
            if str_eq key "$or"
            then any_branch contained metadata branches
            else all_branches contained metadata branches))
  unfolding IsMeant BranchesMeant passes
  compile_branches_if-Decides depth levels key branches compiled sum p =
      rw (not_too_deep depth levels sum, count-has_two branches)
        (elim (Bool-cases (has_two branches)) [
          | inr e ↦ rw e (Decides-failed _)
          | inl e ↦ rw e (elim (Bool-cases (are_filters branches)) [
            | inr k ↦ rw (k, are_valid-are_filters levels branches k) (Decides-failed _)
            | inl k ↦ rw k (
                Decides-map compiled (bool_clause key) (are_valid levels branches) _ _ (p k)
                  (λ clauses (any_, all_). bool_clause-IsMeant key branches clauses any_ all_))
          ])
        ])

  -- An entry is an operator on branches or a condition on a field.
  entry-Decides :
      (key : String) (value : Json) (op : Result HttpException Clause) (b any_ all_ : Bool)
      → Decides op b (IsMeant (if str_eq key "$or" then any_ else all_))
      → Decides
          (if is_bool_op key then op else compile_field key value)
          (if is_bool_op key then b else is_valid_field value)
          (IsMeant (
            if str_eq key "$or"
            then any_
            else if str_eq key "$and"
            then all_
            else satisfies_field contained metadata key value))
  entry-Decides key value op b any_ all_ p = elim (Bool-cases (str_eq key "$or")) [
    | inl e ↦ let p' = rw e at p in rw e p'
    | inr e ↦
        let p' = rw e at p in
        rw e (elim (Bool-cases (str_eq key "$and")) [
          | inl k ↦ rw k p'
          | inr k ↦ rw k (compile_field-Decides key value)
        ])
  ]

  mutual
    unfolding compile is_valid satisfies IsMeant AreMeant BranchesMeant passes

    compile-Decides :
        (depth levels : ℕ) (d : Fields)
        → depth + levels ≡ 2
        → Decides (compile depth d) (is_valid levels d) (AreMeant (satisfies contained metadata d))
    compile-Decides depth levels end sum = Decides-ok _ done refl
    compile-Decides depth levels (field key value d) sum =
        let rest = compile-Decides depth levels d sum in
        let op = compile_bool_op-Decides depth levels key value sum in
        Decides-bind _ _ _ _ _ _
          (entry-Decides key value (compile_bool_op depth key value) (is_valid_op levels value)
            (satisfies_any contained metadata value) (satisfies_all contained metadata value) op)
          (λ clause meant.
            Decides-map (compile depth d) (also clause) (is_valid levels d)
              (AreMeant (satisfies contained metadata d)) _ rest
              (λ clauses more. rw (meant, more) refl))

    compile_bool_op-Decides :
        (depth levels : ℕ) (key : String) (value : Json)
        → depth + levels ≡ 2
        → Decides (compile_bool_op depth key value) (is_valid_op levels value) (
            IsMeant (
              if str_eq key "$or"
              then satisfies_any contained metadata value
              else satisfies_all contained metadata value))
    compile_bool_op-Decides depth zero key (arr branches) sum =
        rw (too_deep depth sum) (Decides-failed _)
    compile_bool_op-Decides depth (suc levels) key (arr branches) sum =
        compile_branches_if-Decides depth levels key branches _ sum
          (λ f. compile_branches-Decides (suc depth) levels branches (omega (arith, sum)) f)
    compile_bool_op-Decides depth zero key value sum = Decides-failed _
    compile_bool_op-Decides depth (suc levels) key value sum = Decides-failed _

    compile_branches-Decides :
        (depth levels : ℕ) (branches : Items)
        → depth + levels ≡ 2
        → are_filters branches ≡ true
        → Decides
            (compile_branches depth branches)
            (are_valid levels branches)
            (BranchesMeant branches)
    compile_branches-Decides depth levels nil sum f = Decides-ok _ done (refl, refl)
    compile_branches-Decides depth levels (cons (obj end) branches) sum f = absurd (cc)
    compile_branches-Decides depth levels (cons (obj (field key value d)) branches) sum f =
        let branch = compile-Decides depth levels (field key value d) sum in
        let rest = compile_branches-Decides depth levels branches sum f in
        Decides-bind _ _ _ _ (AreMeant (satisfies contained metadata (field key value d))) _ branch
          (λ clauses meant.
            Decides-map (compile_branches depth branches) (also (all_of clauses))
              (are_valid levels branches) (BranchesMeant branches) _ rest
              (λ more (any_, all_). (rw (meant, any_) refl, rw (meant, all_) refl)))
    compile_branches-Decides depth levels (cons branch branches) sum f = absurd (cc)

module _ (contained : Json → Json → Bool) (metadata filters : Fields) where
  passes-conjunction :
      (clauses : Clauses)
      → passes_filter contained metadata (conjunction clauses)
        ≡ passes_all contained metadata clauses
  unfolding passes
  passes-conjunction done = refl
  passes-conjunction (also clause done) = ground arith
  passes-conjunction (also clause (also next clauses)) = refl

  built :
      Decides
        (compile 0 (unwrap_metadata_envelope filters) >>= λ clauses. ok (conjunction clauses))
        (is_valid 2 (unwrap_metadata_envelope filters))
        (λ c.
          passes_filter contained metadata c
          ≡ satisfies contained metadata (unwrap_metadata_envelope filters))
  unfolding AreMeant
  built =
      Decides-map (compile 0 (unwrap_metadata_envelope filters)) conjunction _ _ _
        (compile-Decides contained metadata 0 2 (unwrap_metadata_envelope filters) refl)
        (λ clauses meant. passes-conjunction clauses ∙ meant)

build_all :
    (filters : Fields)
    → build_metadata_filter (some filters)
      ≡ (compile 0 (unwrap_metadata_envelope filters) >>= λ clauses. ok (conjunction clauses))
unfolding build_metadata_filter unwrap_metadata_envelope compile
build_all end = refl
build_all (field key value d) = refl

-- A handler's filter that keeps to the shapes that the module allows, with two levels of `$or` and
-- `$and` at most, compiles, and a row passes the condition exactly if its metadata has what the filter
-- asks for, whatever `@>` is on JSON values.
pub build_metadata_filter-satisfies :
    (contained : Json → Json → Bool) (metadata filters : Fields)
    → is_valid 2 (unwrap_metadata_envelope filters) ≡ true
    → (c : Option Clause) × (build_metadata_filter (some filters) ≡ ok c)
      × (passes_filter contained metadata c
          ≡ satisfies contained metadata (unwrap_metadata_envelope filters))
build_metadata_filter-satisfies contained metadata filters h =
    let (c, e, meant) = (built contained metadata filters).0 h in (c, build_all filters ∙ e, meant)

-- Any other filter fails with the status 500: no malformed filter becomes a condition, or none.
pub build_metadata_filter_rejects :
    (filters : Fields)
    → is_valid 2 (unwrap_metadata_envelope filters) ≡ false
    → build_metadata_filter (some filters) ≡ filter_error
build_metadata_filter_rejects filters h = build_all filters ∙ (built (λ a b. true) end filters).1 h
