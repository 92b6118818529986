-- ===== src/Base/Dict.antt =====
-- Python's `dict` with text keys: a new key goes to the end, an old one keeps its place.
pub mod Keys
use fastapi_langgraph_templa.Base.{
  ℕ, suc, String, Bool, true, false, ◌≡◌, refl, Option, none, some, List, [], ◌∷◌, arith, str_eq,
  eq_iff, if◌then◌else◌,
}

abbrev pub Dict {ℓ} : Type ℓ → Type ℓ
Dict V = List (String × V)

module _ {ℓ} {V : Type ℓ} where
  -- `d.get(k)`
  unfoldable pub lookup : Dict V → String → Option V
  lookup [] k = none
  lookup ((j, v) ∷ d) k = if str_eq j k then some v else lookup d k

  -- `d[k] = v`
  unfoldable pub insert : Dict V → String → V → Dict V
  insert [] k v = (k, v) ∷ []
  insert ((j, w) ∷ d) k v = if str_eq j k then (k, v) ∷ d else (j, w) ∷ insert d k v

  -- `d.pop(k, None)`
  unfoldable pub remove : Dict V → String → Dict V
  remove [] k = []
  remove ((j, v) ∷ d) k = let rest = remove d k in if str_eq j k then rest else (j, v) ∷ rest

  pub lookup-insert :
      (d : Dict V) (k j : String) (v : V)
      → lookup (insert d k v) j ≡ (if str_eq k j then some v else lookup d j)
  unfolding lookup insert
  lookup-insert [] k j v = refl
  lookup-insert ((i, w) ∷ d) k j v =
      ground (arith, eq_iff k j, eq_iff i k, eq_iff i j, lookup-insert d k j v)

  pub lookup-remove :
      (d : Dict V) (k j : String)
      → lookup (remove d k) j ≡ (if str_eq k j then none else lookup d j)
  unfolding lookup remove
  lookup-remove [] k j = ground arith
  lookup-remove ((i, v) ∷ d) k j =
      ground (arith, eq_iff k j, eq_iff i k, eq_iff i j, lookup-remove d k j)
