-- ===== src/Base/Lists.antt =====
-- Lists: tests over all elements, membership through `map`, and what an element-wise change keeps.
use Prim.Native.Nat.{ℕ, suc, ◌+◌}
use Prim.Native.String.{String}
use mathlib.Core.Path.{◌≡◌, refl, sym, ap, ◌∙◌}
use mathlib.Core.Logic.{◌⊎◌, inl, inr}
use mathlib.Core.Bool.{Bool, true, false, ◌&&◌, ◌||◌}
use mathlib.Core.List.{List, [], ◌∷◌, ◌++◌, map, Memᴰ}
use native.Mathlib.Omega.{arith}
use text.Mathlib.Text.{◌==◌ as str_eq}
use fastapi_langgraph_templa.Base.Tests.{if◌then◌else◌, Bool-cases}

module _ {ℓ} {A : Type ℓ} where
  abbrev pub length : List A → ℕ
  length [] = 0
  length (x ∷ xs) = suc (length xs)

  abbrev pub any : (A → Bool) → List A → Bool
  any p [] = false
  any p (x ∷ xs) = p x || any p xs

  abbrev pub all : (A → Bool) → List A → Bool
  all p [] = true
  all p (x ∷ xs) = p x && all p xs

  -- The elements that pass a test, in order.
  abbrev pub select : (A → Bool) → List A → List A
  select p [] = []
  select p (x ∷ xs) = let rest = select p xs in if p x then x ∷ rest else rest

  pub any-mem : (p : A → Bool) {x : A} (xs : List A) → any p xs ≡ false → Memᴰ x xs → p x ≡ false
  any-mem p [] h m = elim m [ ]
  any-mem p (y ∷ xs) h (Memᴰ.head e) = ground (arith, ap p e)
  any-mem p (y ∷ xs) h (Memᴰ.tail m) = any-mem p xs (ground arith) m

  pub length-append : (xs ys : List A) → length (xs ++ ys) ≡ length xs + length ys
  length-append [] ys = omega arith
  length-append (x ∷ xs) ys = omega (arith, length-append xs ys)

pub mem-append_inv {ℓ} :
    {A : Type ℓ} {x : A} (xs ys : List A) → Memᴰ x (xs ++ ys) → Memᴰ x xs ⊎ Memᴰ x ys
mem-append_inv [] ys m = inr m
mem-append_inv (x ∷ xs) ys (Memᴰ.head e) = inl (Memᴰ.head e)
mem-append_inv (x ∷ xs) ys (Memᴰ.tail m) = elim (mem-append_inv xs ys m) [
  | inl n ↦ inl (Memᴰ.tail n)
  | inr n ↦ inr n
]

pub mem-one {ℓ} : {A : Type ℓ} {x y : A} → Memᴰ x (y ∷ []) → x ≡ y
mem-one (Memᴰ.head e) = e
mem-one (Memᴰ.tail m) = elim m [ ]

pub any-append {ℓ} :
    {A : Type ℓ} (p : A → Bool) (xs ys : List A) → any p (xs ++ ys) ≡ (any p xs || any p ys)
any-append p [] ys = refl
any-append p (x ∷ xs) ys = ground (arith, any-append p xs ys)

pub mem-map_inv {ℓ κ} :
    {A : Type ℓ} {B : Type κ} (f : A → B) {y : B} (xs : List A)
    → Memᴰ y (map f xs)
    → (x : A) × Memᴰ x xs × (y ≡ f x)
mem-map_inv f [] m = elim m [ ]
mem-map_inv f (x ∷ xs) (Memᴰ.head e) = (x, Memᴰ.head refl, e)
mem-map_inv f (x ∷ xs) (Memᴰ.tail m) = let (z, n, e) = mem-map_inv f xs m in (z, Memᴰ.tail n, e)

-- `x in xs`, on texts.
abbrev pub contains : List String → String → Bool
contains [] s = false
contains (x ∷ xs) s = str_eq x s || contains xs s

-- An UPDATE over a table: `f` on the rows that pass the test, the others as they are.
module _ {ℓ} {A : Type ℓ} where
  abbrev pub update_where : (A → Bool) → (A → A) → List A → List A
  update_where p f [] = []
  update_where p f (x ∷ xs) = (if p x then f x else x) ∷ update_where p f xs

  pub mem-update_where :
      (p : A → Bool) (f : A → A) {y : A} (xs : List A)
      → Memᴰ y (update_where p f xs)
      → (x : A) × Memᴰ x xs × (y ≡ (if p x then f x else x))
  mem-update_where p f [] m = elim m [ ]
  mem-update_where p f (x ∷ xs) (Memᴰ.head e) = (x, Memᴰ.head refl, e)
  mem-update_where p f (x ∷ xs) (Memᴰ.tail m) =
      let (z, n, e) = mem-update_where p f xs m in (z, Memᴰ.tail n, e)

-- A test that `f` makes fail holds of no row after the update.
pub any-update_self {ℓ} :
    {A : Type ℓ} (p : A → Bool) (f : A → A) (xs : List A)
    → ((x : A) → p x ≡ true → p (f x) ≡ false)
    → any p (update_where p f xs) ≡ false
any-update_self p f [] off = refl
any-update_self p f (x ∷ xs) off = elim (Bool-cases (p x)) [
  | inl e ↦ rw e (rw (off x e, any-update_self p f xs off))
  | inr e ↦ rw e (rw (e, any-update_self p f xs off))
]

pub any-weaken {ℓ} :
    {A : Type ℓ} (p q : A → Bool)
    → ((x : A) → p x ≡ false → q x ≡ false)
    → (xs : List A) → any p xs ≡ false
    → any q xs ≡ false
any-weaken p q off [] h = refl
any-weaken p q off (x ∷ xs) h = ground (arith, off x, any-weaken p q off xs)

pub any-of_mem {ℓ} :
    {A : Type ℓ} (p : A → Bool) {x : A} (xs : List A) → Memᴰ x xs → p x ≡ true → any p xs ≡ true
any-of_mem p [] m h = elim m [ ]
any-of_mem p (y ∷ xs) (Memᴰ.head e) h = ground (arith, ap p e)
any-of_mem p (y ∷ xs) (Memᴰ.tail m) h = ground (arith, any-of_mem p xs m h)

-- A row that passes the test is found changed after the update.
pub mem-update_where_hit {ℓ} :
    {A : Type ℓ} (p : A → Bool) (f : A → A) {x : A} (xs : List A)
    → Memᴰ x xs
    → p x ≡ true
    → Memᴰ (f x) (update_where p f xs)
mem-update_where_hit p f [] m h = elim m [ ]
mem-update_where_hit p f (y ∷ xs) (Memᴰ.head e) h = Memᴰ.head (rw (sym (ap p e) ∙ h) (ap f e))
mem-update_where_hit p f (y ∷ xs) (Memᴰ.tail m) h = Memᴰ.tail (mem-update_where_hit p f xs m h)

-- The rows of the first table stand at the head of the second, each changed as `R` allows; what
-- follows them is new.
pub data Extends {ℓ} {A : Type ℓ} (R : A → A → Type ℓ) : List A → List A → Type ℓ where
  rest : {ys : List A} → Extends R [] ys
  row : {x y : A} {xs ys : List A} → R x y → Extends R xs ys → Extends R (x ∷ xs) (y ∷ ys)

module _ {ℓ} {A : Type ℓ} (R : A → A → Type ℓ) (R-refl : (x : A) → R x x) where
  pub Extends-append : (xs ys : List A) → Extends R xs (xs ++ ys)
  Extends-append [] ys = rest
  Extends-append (x ∷ xs) ys = row (R-refl x) (Extends-append xs ys)

  pub Extends-refl : (xs : List A) → Extends R xs xs
  Extends-refl [] = rest
  Extends-refl (x ∷ xs) = row (R-refl x) (Extends-refl xs)

  pub Extends-update :
      (p : A → Bool) (f : A → A)
      → ((x : A) → p x ≡ true → R x (f x))
      → (xs : List A) → Extends R xs (update_where p f xs)
  Extends-update p f keep [] = rest
  Extends-update p f keep (x ∷ xs) = elim (Bool-cases (p x)) [
    | inl e ↦ rw e (row (keep x e) (Extends-update p f keep xs))
    | inr e ↦ rw e (row (R-refl x) (Extends-update p f keep xs))
  ]

pub Extends-trans {ℓ} :
    {A : Type ℓ} {R : A → A → Type ℓ} (R-trans : (x y z : A) → R x y → R y z → R x z)
    {xs ys zs : List A}
    → Extends R xs ys
    → Extends R ys zs
    → Extends R xs zs
Extends-trans t rest q = rest
Extends-trans t (row r p) (row s q) = row (t _ _ _ r s) (Extends-trans t p q)

pub Extends-map {ℓ} :
    {A : Type ℓ} {R S : A → A → Type ℓ} (f : (x y : A) → R x y → S x y) {xs ys : List A}
    → Extends R xs ys
    → Extends S xs ys
Extends-map f rest = rest
Extends-map f (row r p) = row (f _ _ r) (Extends-map f p)

-- An update that the test does not see.
pub any-update_keeps {ℓ} :
    {A : Type ℓ} (p : A → Bool) (f : A → A) (xs : List A)
    → ((x : A) → p (f x) ≡ p x)
    → any p (update_where p f xs) ≡ any p xs
any-update_keeps p f [] same = refl
any-update_keeps p f (x ∷ xs) same = ground (arith, same x, any-update_keeps p f xs same, ap p)

pub mem-update_where_miss {ℓ} :
    {A : Type ℓ} (p : A → Bool) (f : A → A) {y : A} (xs : List A)
    → ((x : A) → p (f x) ≡ p x)
    → Memᴰ y (update_where p f xs)
    → p y ≡ false
    → Memᴰ y xs
mem-update_where_miss p f xs same m off =
    let (x, mx, e) = mem-update_where p f xs m in
    elim (Bool-cases (p x)) [
      | inl h ↦ let e' : _ ≡ f x = rw h at e in let on = ap p e' ∙ same x ∙ h in cc (on, off)
      | inr h ↦ let e' : _ ≡ x = rw h at e in rw e' mx
    ]
