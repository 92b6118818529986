-- ===== src/Base/Members.antt =====
-- Membership in lists: appended, selected and found.
use mathlib.Core.Path.{subst, ◌≡◌, refl, sym, ap, ◌∙◌}
use mathlib.Core.Logic.{◌⊎◌, inl, inr}
use mathlib.Core.Bool.{Bool, true, false}
use mathlib.Core.Option.{Option, none, some}
use mathlib.Core.List.{List, [], ◌∷◌, ◌++◌, Memᴰ}
use native.Mathlib.Omega.{arith}
use fastapi_langgraph_templa.Base.Tests.{if◌then◌else◌, if-cases, Bool-cases}
use fastapi_langgraph_templa.Base.Lists.{any, select, update_where, Extends, rest, row}

pub mem-left {ℓ} : {A : Type ℓ} {x : A} (xs ys : List A) → Memᴰ x xs → Memᴰ x (xs ++ ys)
mem-left [] ys m = elim m [ ]
mem-left (x ∷ xs) ys (Memᴰ.head e) = Memᴰ.head e
mem-left (x ∷ xs) ys (Memᴰ.tail m) = Memᴰ.tail (mem-left xs ys m)

pub mem-right {ℓ} : {A : Type ℓ} (xs : List A) (x : A) → Memᴰ x (xs ++ x ∷ [])
mem-right [] x = Memᴰ.head refl
mem-right (y ∷ xs) x = Memᴰ.tail (mem-right xs x)

pub any-none {ℓ} :
    {A : Type ℓ} (p : A → Bool) (xs : List A)
    → ((x : A) → Memᴰ x xs → p x ≡ false)
    → any p xs ≡ false
any-none p [] h = refl
any-none p (x ∷ xs) h = rw (h x (Memᴰ.head refl)) (any-none p xs (λ y m. h y (Memᴰ.tail m)))

pub mem-select {ℓ} :
    {A : Type ℓ} (p : A → Bool) {x : A} (xs : List A)
    → Memᴰ x xs
    → p x ≡ true
    → Memᴰ x (select p xs)
mem-select p [] m h = elim m [ ]
mem-select p (y ∷ xs) (Memᴰ.head e) h = rw (sym (ap p e) ∙ h) (Memᴰ.head e)
mem-select p {x = x} (y ∷ xs) (Memᴰ.tail m) h =
    if-cases (λ zs. Memᴰ x zs) (p y) (Memᴰ.tail (mem-select p xs m h)) (mem-select p xs m h)

mem-cons_inv {ℓ} : {A : Type ℓ} {x y : A} {ys : List A} → Memᴰ x (y ∷ ys) → (x ≡ y) ⊎ Memᴰ x ys
mem-cons_inv (Memᴰ.head e) = inl e
mem-cons_inv (Memᴰ.tail m) = inr m

pub mem-select_inv {ℓ} :
    {A : Type ℓ} (p : A → Bool) {x : A} (xs : List A)
    → Memᴰ x (select p xs)
    → Memᴰ x xs × (p x ≡ true)
mem-select_inv p [] m = elim m [ ]
mem-select_inv p (y ∷ xs) m = elim (Bool-cases (p y)) [
  | inl e ↦ elim (mem-cons_inv (rw e at m)) [
    | inl same ↦ (Memᴰ.head same, ap p same ∙ e)
    | inr n ↦ let (k, h) = mem-select_inv p xs n in (Memᴰ.tail k, h)
  ]
  | inr e ↦ let (k, h) = mem-select_inv p xs (rw e at m) in (Memᴰ.tail k, h)
]

pub any-select_off {ℓ} :
    {A : Type ℓ} (p q : A → Bool) (xs : List A) → any p xs ≡ false → any p (select q xs) ≡ false
any-select_off p q [] h = refl
any-select_off p q (x ∷ xs) h = ground (arith, any-select_off p q xs)

-- The first element that passes a test.
abbrev pub find {ℓ} : {A : Type ℓ} → (A → Bool) → List A → Option A
find p [] = none
find p (x ∷ xs) = if p x then some x else find p xs

some_injective {ℓ} : {A : Type ℓ} {x y : A} → ◌≡◌ {A = Option A} (some x) (some y) → x ≡ y
some_injective h = cc

pub find-mem {ℓ} :
    {A : Type ℓ} (p : A → Bool) (xs : List A) {x : A}
    → find p xs ≡ some x
    → Memᴰ x xs × (p x ≡ true)
find-mem p [] h = absurd (cc)
find-mem p (y ∷ xs) h = elim (Bool-cases (p y)) [
  | inl e ↦
      let same : y ≡ _ = some_injective (rw e at h) in (Memᴰ.head (sym same), ap p (sym same) ∙ e)
  | inr e ↦ let (m, k) = find-mem p xs (rw e at h) in (Memᴰ.tail m, k)
]

pub any-witness {ℓ} :
    {A : Type ℓ} (p : A → Bool) (xs : List A) → any p xs ≡ true → (x : A) × Memᴰ x xs × (p x ≡ true)
any-witness p [] h = absurd (cc)
any-witness p (y ∷ xs) h = elim (Bool-cases (p y)) [
  | inl on ↦ (y, Memᴰ.head refl, on)
  | inr off ↦ let (x, m, e) = any-witness p xs (rw off at h) in (x, Memᴰ.tail m, e)
]

pub mem-update_where_off {ℓ} :
    {A : Type ℓ} (p : A → Bool) (f : A → A) {x : A} (xs : List A)
    → Memᴰ x xs
    → p x ≡ false
    → Memᴰ x (update_where p f xs)
mem-update_where_off p f [] m h = elim m [ ]
mem-update_where_off p f (y ∷ xs) (Memᴰ.head e) h = rw (sym (ap p e) ∙ h) (Memᴰ.head e)
mem-update_where_off p f (y ∷ xs) (Memᴰ.tail m) h = Memᴰ.tail (mem-update_where_off p f xs m h)

pub mem-Extends {ℓ} :
    {A : Type ℓ} {R : A → A → Type ℓ} {xs ys : List A} {x : A}
    → Extends R xs ys
    → Memᴰ x xs
    → (y : A) × Memᴰ y ys × R x y
mem-Extends rest k = elim k [ ]
mem-Extends {R = R} (row {y = y} r p) (Memᴰ.head e) =
    (y, Memᴰ.head refl, subst (λ z. R z y) (sym e) r)
mem-Extends (row r p) (Memᴰ.tail k) = let (y, my, q) = mem-Extends p k in (y, Memᴰ.tail my, q)
