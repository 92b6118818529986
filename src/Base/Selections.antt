-- ===== src/Base/Selections.antt =====
-- Slices and selections of lists, and what an update leaves.
use Prim.Native.Nat.{ℕ, zero, suc, ◌≤◌, ◌<◌}
use Prim.Native.String.{String}
use mathlib.Core.Path.{◌≡◌, refl, ap}
use mathlib.Core.Logic.{inl, inr}
use mathlib.Core.Bool.{Bool, true, false, not, ◌&&◌}
use mathlib.Core.List.{List, [], ◌∷◌, ◌++◌, map}
use native.Mathlib.Omega.{arith}
use text.Mathlib.Text.{◌==◌ as str_eq}
use fastapi_langgraph_templa.Base.Tests.{Bool-cases}
use fastapi_langgraph_templa.Base.Lists.{length, any, select, contains, update_where}

abbrev pub take {ℓ} : {A : Type ℓ} → ℕ → List A → List A
take zero xs = []
take (suc n) [] = []
take (suc n) (x ∷ xs) = x ∷ take n xs

pub length-take_le {ℓ} : {A : Type ℓ} (n : ℕ) (xs : List A) → length (take n xs) ≤ n
length-take_le zero xs = omega arith
length-take_le (suc n) [] = omega arith
length-take_le (suc n) (x ∷ xs) = omega (arith, length-take_le n xs)

pub take_all {ℓ} : {A : Type ℓ} (n : ℕ) (xs : List A) → length (take n xs) < n → take n xs ≡ xs
take_all zero xs h = absurd (omega arith)
take_all (suc n) [] h = refl
take_all (suc n) (x ∷ xs) h = ap (λ ys. x ∷ ys) (take_all n xs (omega arith))

pub any-take {ℓ} :
    {A : Type ℓ} (p : A → Bool) (n : ℕ) (xs : List A) → any p (take n xs) ≡ true → any p xs ≡ true
any-take p zero xs h = absurd (cc)
any-take p (suc n) [] h = absurd (cc)
any-take p (suc n) (x ∷ xs) h = ground (arith, any-take p n xs)

pub any-select {ℓ} :
    {A : Type ℓ} (p q : A → Bool) (xs : List A) → any p (select q xs) ≡ any (λ x. q x && p x) xs
any-select p q [] = refl
any-select p q (x ∷ xs) = ground (arith, any-select p q xs)

pub contains-map-any {ℓ} :
    {A : Type ℓ} (f : A → String) (xs : List A) (s : String)
    → contains (map f xs) s ≡ any (λ x. str_eq (f x) s) xs
contains-map-any f [] s = refl
contains-map-any f (x ∷ xs) s = ground (arith, contains-map-any f xs s)

-- After an update no row passes `q`, if the updated rows do not, and the others passed nothing before.
pub any-update_off {ℓ} :
    {A : Type ℓ} (p : A → Bool) (f : A → A) (r q : A → Bool)
    → ((x : A) → p x ≡ true → q (f x) ≡ false)
    → ((x : A) → p x ≡ false → r x ≡ false → q x ≡ false)
    → (xs : List A) → any r xs ≡ false
    → any q (update_where p f xs) ≡ false
any-update_off p f r q on off [] h = refl
any-update_off p f r q on off (x ∷ xs) h = elim (Bool-cases (p x)) [
  | inl e ↦ rw e (ground (arith, on x e, any-update_off p f r q on off xs))
  | inr e ↦ rw e (ground (arith, off x e, any-update_off p f r q on off xs))
]

pub select-append {ℓ} :
    {A : Type ℓ} (p : A → Bool) (xs ys : List A) → select p (xs ++ ys) ≡ select p xs ++ select p ys
select-append p [] ys = refl
select-append p (x ∷ xs) ys = ground (arith, select-append p xs ys)

-- An update of the rows that pass `p` is one of those that pass `q` too, if no row passes `p` alone.
pub update_where-restrict {ℓ} :
    {A : Type ℓ} (p q : A → Bool) (f : A → A) (xs : List A)
    → any (λ x. p x && not (q x)) xs ≡ false
    → update_where p f xs ≡ update_where (λ x. p x && q x) f xs
update_where-restrict p q f [] h = refl
update_where-restrict p q f (x ∷ xs) h =
    let rest = update_where-restrict p q f xs (ground arith) in ground (arith, rest)
