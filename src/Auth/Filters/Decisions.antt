-- ===== src/Auth/Filters/Decisions.antt =====
-- `auth/filters.py`: how to reason about a chain of checks that all fail alike.
use fastapi_langgraph_templa.Base.{Bool, true, false, ◌&&◌, ◌≡◌, refl, Result, ok, ◌>>=◌}
use fastapi_langgraph_templa.Base.Http.{HttpException}
use fastapi_langgraph_templa.Auth.Filters.{filter_error}

-- A result that is good exactly where a test holds, and the failure of the module elsewhere.
abbrev pub Decides {ℓ} : {A : Type ℓ} → Result HttpException A → Bool → (A → Type 0) → Type ℓ
Decides {A = A} r b Good =
    (b ≡ true → (a : A) × (◌≡◌ {A = Result HttpException A} r (ok a)) × Good a)
    × (b ≡ false → ◌≡◌ {A = Result HttpException A} r filter_error)

pub Decides-ok {ℓ} :
    {A : Type ℓ} (Good : A → Type 0) (a : A) → Good a → Decides {A = A} (ok a) true Good
Decides-ok Good a g = (λ e. (a, refl, g), λ e. absurd (cc))

pub Decides-failed {ℓ} : {A : Type ℓ} (Good : A → Type 0) → Decides {A = A} filter_error false Good
Decides-failed Good = (λ e. absurd (cc), λ e. refl)

pub Decides-bind {ℓ κ} :
    {A : Type ℓ} {B : Type κ} (r : Result HttpException A) (f : A → Result HttpException B)
    (b c : Bool) (Good : A → Type 0) (Fine : B → Type 0)
    → Decides r b Good
    → ((a : A) → Good a → Decides (f a) c Fine)
    → Decides (r >>= f) (b && c) Fine
Decides-bind r f true c Good Fine p q = let (a, e, g) = p.0 refl in rw e (q a g)
Decides-bind r f false c Good Fine p q = rw (p.1 refl) (Decides-failed Fine)

pub Decides-map {ℓ κ} :
    {A : Type ℓ} {B : Type κ} (r : Result HttpException A) (f : A → B) (b : Bool)
    (Good : A → Type 0) (Fine : B → Type 0)
    → Decides r b Good
    → ((a : A) → Good a → Fine (f a))
    → Decides (r >>= λ a. ok (f a)) b Fine
Decides-map r f true Good Fine p q =
    let (a, e, g) = p.0 refl in rw e (Decides-ok Fine (f a) (q a g))
Decides-map r f false Good Fine p q = rw (p.1 refl) (Decides-failed Fine)
