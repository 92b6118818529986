-- ===== src/Auth/Narrowing.antt =====
-- The narrowing of lists: the rows that a filter lets through, and the filter of a composite.
use fastapi_langgraph_templa.Base.{
  String, Bool, true, false, ◌&&◌, ◌||◌, not, ◌≡◌, refl, ap, sym, ◌∙◌, ◌⊎◌, inl, inr, Option, none,
  some, List, [], ◌∷◌, arith, is_none, is_text, ◌≢◌, all, select, contains, str_eq, eq_iff,
  Bool-cases, if◌then◌else◌,
}
use fastapi_langgraph_templa.Auth.{User}
use fastapi_langgraph_templa.Auth.Policy.{
  Permission, ResourceType, DecisionContext, AccessFilter, local_check, local_filter, local_engine,
  id_sets, add_set, add_owner, owners_of, narrow, compose_filters,
}

in_ids : Option (List String) → String → Bool
in_ids none id = false
in_ids (some ids) id = contains ids id

-- The rows that a filter lets through, each with its id and its owner.
unfoldable pub admits : AccessFilter → String → String → Bool
unfolding in_ids
admits f id owner = f.allow_all || (is_text f.owner_id owner || in_ids f.object_ids id)

-- The local engine lists a row with an owner exactly where it allows to read it.
pub local_lists_allowed :
    (u : User) (p : Permission) (t : ResourceType) (id owner : String) (c : DecisionContext)
    → admits (local_engine.access_filter u p t c) id owner
      ≡ local_engine.check u p (record { type_of = t; id = id; owner_id = some owner }) c
unfolding local_engine local_filter local_check admits
local_lists_allowed u p t id owner c =
    ground (arith, eq_iff u.identity owner, eq_iff owner u.identity)

-- Exactly one field is set.
unfoldable pub is_one : AccessFilter → Bool
is_one f =
    if f.allow_all
    then is_none f.owner_id && is_none f.object_ids
    else if is_none f.owner_id
    then not (is_none f.object_ids)
    else is_none f.object_ids

module _ (id owner : String) where
  all_in : List (List String) → Bool
  all_in sets = all (λ t. contains t id) sets

  all_own : List String → Bool
  all_own owners = all (λ o. str_eq o owner) owners

  own_member :
      (o : String) (owners : List String)
      → contains owners o ≡ true
      → (str_eq o owner && all_own owners) ≡ all_own owners
  unfolding all_own
  own_member o [] h = absurd (cc)
  own_member o (x ∷ owners) h = ground (arith, own_member o owners, eq_iff x o)

  filter_step :
      (a : Bool) (o : Option String) (s : Option (List String)) (sets : List (List String))
      (owners : List String)
      → is_one (record { allow_all = a; owner_id = o; object_ids = s }) ≡ true
      → (admits (record { allow_all = a; owner_id = o; object_ids = s }) id owner
          && (all_in sets && all_own owners))
        ≡ (all_in (add_set s sets) && all_own (add_owner o owners))
  unfolding is_one admits all_in all_own in_ids
  filter_step true none none sets owners h = refl
  filter_step true (some o) s sets owners h = absurd (cc)
  filter_step true none (some s) sets owners h = absurd (cc)
  filter_step false none none sets owners h = absurd (cc)
  filter_step false none (some s) sets owners h = ground arith
  filter_step false (some o) (some s) sets owners h = absurd (cc)
  filter_step false (some o) none sets owners h = ground (arith, own_member o owners)

  -- What all filters let through, by the ids and the owners that they name.
  admits-all :
      (fs : List AccessFilter)
      → all is_one fs ≡ true
      → all (λ f. admits f id owner) fs ≡ (all_in (id_sets fs) && all_own (owners_of fs))
  unfolding all_in all_own
  admits-all [] h = refl
  admits-all (f ∷ fs) h =
      let rest = admits-all fs (ground arith) in
      let step =
        filter_step f.allow_all f.owner_id f.object_ids (id_sets fs) (owners_of fs)
          (ground arith) in
      ap (λ b. admits f id owner && b) rest ∙ step

  contains-select :
      (p : String → Bool) (xs : List String) → contains (select p xs) id ≡ (contains xs id && p id)
  contains-select p [] = refl
  contains-select p (x ∷ xs) = ground (arith, contains-select p xs, eq_iff x id, ap p)

  is_distinct : List String → Bool
  is_distinct [] = true
  is_distinct (o ∷ owners) = not (contains owners o) && is_distinct owners

  add_owner-distinct :
      (o : Option String) (owners : List String)
      → is_distinct owners ≡ true
      → is_distinct (add_owner o owners) ≡ true
  unfolding is_distinct
  add_owner-distinct none owners h = h
  add_owner-distinct (some o) owners h = ground arith

  owners_of-distinct : (fs : List AccessFilter) → is_distinct (owners_of fs) ≡ true
  unfolding is_distinct
  owners_of-distinct [] = refl
  owners_of-distinct (f ∷ fs) = add_owner-distinct f.owner_id (owners_of fs) (owners_of-distinct fs)

  all_allowed :
      (fs : List AccessFilter)
      → all (λ f. f.allow_all) fs ≡ true
      → all (λ f. admits f id owner) fs ≡ true
  unfolding admits
  all_allowed [] h = refl
  all_allowed (f ∷ fs) h = ground (arith, all_allowed fs)

  add_owner-nonempty : (o : String) (owners : List String) → add_owner (some o) owners ≢ []
  add_owner-nonempty o [] e = cc
  add_owner-nonempty o (x ∷ owners) e = elim (Bool-cases (contains (x ∷ owners) o)) [
    | inl y ↦ let e' = rw y at e in cc
    | inr y ↦ let e' = rw y at e in cc
  ]

  names_nothing :
      (a : Bool) (o : Option String) (s : Option (List String)) (sets : List (List String))
      (owners : List String)
      → is_one (record { allow_all = a; owner_id = o; object_ids = s }) ≡ true
      → add_set s sets ≡ []
      → add_owner o owners ≡ []
      → (a ≡ true) × (sets ≡ []) × (owners ≡ [])
  unfolding is_one
  names_nothing a o (some s) sets owners h i j = absurd (cc)
  names_nothing a (some o) none sets owners h i j = absurd (add_owner-nonempty o owners j)
  names_nothing true none none sets owners h i j = (refl, i, j)
  names_nothing false none none sets owners h i j = absurd (cc)

  unnamed_all :
      (fs : List AccessFilter)
      → all is_one fs ≡ true
      → id_sets fs ≡ []
      → owners_of fs ≡ []
      → all (λ f. f.allow_all) fs ≡ true
  unnamed_all [] h i j = refl
  unnamed_all (f ∷ fs) h i j =
      let (a, i', j') =
        names_nothing f.allow_all f.owner_id f.object_ids (id_sets fs) (owners_of fs) (ground arith)
          i j in
      ground (arith, a, unnamed_all fs (ground arith) i' j')

  narrow-admits :
      (sets : List (List String)) (owners : List String)
      → is_distinct owners ≡ true
      → (sets ≡ []) ⊎ (owners ≡ [])
      → ((sets ≡ []) × (owners ≡ []) → ⊥)
      → admits (narrow sets owners) id owner ≡ (all_in sets && all_own owners)
  unfolding admits all_in all_own in_ids is_distinct
  narrow-admits [] [] d pure_ some_ = absurd (some_ (refl, refl))
  narrow-admits [] (o ∷ []) d pure_ some_ = ground arith
  narrow-admits [] (o ∷ (q ∷ more)) d pure_ some_ =
      ground (arith, eq_iff o owner, eq_iff q owner, eq_iff q o)
  narrow-admits (s ∷ ss) [] d pure_ some_ =
      contains-select (λ i. all (λ t. contains t i) ss) s ∙ ground arith
  narrow-admits (s ∷ ss) (o ∷ owners) d (inl e) some_ = absurd (cc)
  narrow-admits (s ∷ ss) (o ∷ owners) d (inr e) some_ = absurd (cc)

  -- Where no engine names an owner, or none names ids, the composite's filter lets through exactly the
  -- rows that the filters of all its engines let through; each filter has exactly one field set.
  pub compose_filters_exact :
      (fs : List AccessFilter)
      → all is_one fs ≡ true
      → (id_sets fs ≡ []) ⊎ (owners_of fs ≡ [])
      → admits (compose_filters fs) id owner ≡ all (λ f. admits f id owner) fs
  unfolding compose_filters
  compose_filters_exact fs h pure_ = elim (Bool-cases (all (λ f. f.allow_all) fs)) [
    | inl e ↦ rw e (unfold admits in sym (all_allowed fs e))
    | inr e ↦ rw e (
        narrow-admits (id_sets fs) (owners_of fs) (owners_of-distinct fs) pure_
          (λ b. let yes = unnamed_all fs h b.0 b.1 in cc (yes, e))
        ∙ sym (admits-all fs h))
  ]
