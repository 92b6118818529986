-- ===== src/Base/Dict/Keys.antt =====
-- Dictionaries in which each key stands once, as in every `dict`, and the removal of several keys.
use fastapi_langgraph_templa.Base.{
  String, Bool, false, ◌≡◌, refl, ap, ◌∙◌, Option, none, some, List, [], ◌∷◌, arith, str_eq, eq_iff,
  if◌then◌else◌, Bool-cases, inl, inr, contains,
}
use fastapi_langgraph_templa.Base.Dict.{Dict, lookup, insert, remove, lookup-insert, lookup-remove}

module _ {ℓ} {V : Type ℓ} where
  abbrev pub IsUnique : Dict V → Type ℓ
  IsUnique [] = Unit
  IsUnique ((k, v) ∷ d) = (lookup d k ≡ none) × IsUnique d

  pub insert-IsUnique : (d : Dict V) (k : String) (v : V) → IsUnique d → IsUnique (insert d k v)
  unfolding insert
  insert-IsUnique [] k v u = (unfold lookup in refl, tt)
  insert-IsUnique ((j, w) ∷ d) k v (h, u) = elim (Bool-cases (str_eq j k)) [
    | inl e ↦ rw e (rw (← (eq_iff j k).0 e) h, u)
    | inr e ↦ rw e (
      rw (lookup-insert d k j v) (ground (arith, eq_iff j k, eq_iff k j)),
      insert-IsUnique d k v u,
    )
  ]

  pub remove-IsUnique : (d : Dict V) (k : String) → IsUnique d → IsUnique (remove d k)
  unfolding remove
  remove-IsUnique [] k u = u
  remove-IsUnique ((j, w) ∷ d) k (h, u) = elim (Bool-cases (str_eq j k)) [
    | inl e ↦ rw e (remove-IsUnique d k u)
    | inr e ↦ rw e (rw (lookup-remove d k j) (ground arith), remove-IsUnique d k u)
  ]

  unfoldable pub remove_all : Dict V → List String → Dict V
  remove_all d [] = d
  remove_all d (k ∷ ks) = remove_all (remove d k) ks

  pub lookup-remove_all :
      (d : Dict V) (ks : List String) (j : String)
      → lookup (remove_all d ks) j ≡ (if contains ks j then none else lookup d j)
  unfolding remove_all
  lookup-remove_all d [] j = refl
  lookup-remove_all d (k ∷ ks) j =
      lookup-remove_all (remove d k) ks j ∙ rw (lookup-remove d k j) (ground arith)

  -- The keys of the values that pass a test.
  abbrev pub keys_where : (V → Bool) → Dict V → List String
  keys_where p [] = []
  keys_where p ((k, v) ∷ d) = let rest = keys_where p d in if p v then k ∷ rest else rest

  abbrev pub holds : (V → Bool) → Option V → Bool
  holds p none = false
  holds p (some v) = p v

  pub contains-keys_where :
      (p : V → Bool) (d : Dict V) (j : String)
      → IsUnique d
      → contains (keys_where p d) j ≡ holds p (lookup d j)
  unfolding lookup
  contains-keys_where p [] j u = refl
  contains-keys_where p ((k, v) ∷ d) j (h, u) = elim (Bool-cases (str_eq k j)) [
    | inl e ↦
        let absent : lookup d j ≡ none = rw ((eq_iff k j).0 e) at h in
        ground (arith, e, ap (holds p) absent, contains-keys_where p d j u)
    | inr e ↦ ground (arith, e, contains-keys_where p d j u)
  ]
