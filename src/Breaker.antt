-- ===== src/Breaker.antt =====
-- `infra/circuit_breaker.py`: the circuit breaker over the process-local storage. Times are read from
-- one clock in one unit and only added and compared, so they are natural numbers; 0 is `0.0`. A call is
-- admitted at one time and ends at a later one, and others may change the storage between the two.
pub mod Trips
pub mod Interleaved
use fastapi_langgraph_templa.Base.{
  ℕ, zero, suc, ◌+◌, ◌-◌, String, Bool, true, false, ◌||◌, ◌≡◌, Option, none, some, List, [], ◌∷◌,
  leb, ltb, if◌then◌else◌, Result, ok, err,
}
use fastapi_langgraph_templa.Base.Dict.{Dict, lookup, insert, remove}

-- What is stored for a name: the failures in a row, and the time until which the breaker is open.
abbrev pub Counts : Type 0
Counts = ℕ × ℕ

-- `MemoryBreakerStorage`
abbrev pub Storage : Type 0
Storage = Dict Counts

abbrev pub or_zero : Option Counts → Counts
or_zero none = (0, 0)
or_zero (some c) = c

unfoldable pub get_state : Storage → String → Counts
get_state st name = or_zero (lookup st name)

unfoldable pub set_state : Storage → String → ℕ → ℕ → Storage
set_state st name failures open_until = insert st name (failures, open_until)

unfoldable pub clear : Storage → String → Storage
clear st name = remove st name

pub record Breaker : Type 0 where
  pub name : String
  pub fail_max : ℕ
  pub cooldown_secs : ℕ

-- `__init__`; the error is `ValueError("fail_max must be >= 1")`.
unfoldable pub new : String → ℕ → ℕ → Result (Unit {0}) Breaker
new name fail_max cooldown_secs =
    if ltb fail_max 1
    then err tt
    else ok (record { name = name; fail_max = fail_max; cooldown_secs = cooldown_secs })

-- The first half of `call`: the `open_until` that was read, or `none` for `CircuitOpenError`.
unfoldable pub admit : Breaker → ℕ → Storage → Option ℕ
admit b now st =
    let open_until = (get_state st b.name).1 in if ltb now open_until then none else some open_until

-- Whether the failure opens the breaker: `open_until` is the value read at the admission.
abbrev pub trips : Breaker → ℕ → ℕ → Bool
trips b failures open_until = leb b.fail_max failures || ltb 0 open_until

-- The `except` clause, at the time `now`; the exception is raised again.
unfoldable pub on_failure : Breaker → ℕ → ℕ → Storage → Storage
on_failure b open_until now st =
    let failures = (get_state st b.name).0 + 1 in
    set_state st b.name failures (if trips b failures open_until then now + b.cooldown_secs else 0)

unfoldable pub on_success : Breaker → Storage → Storage
on_success b st = clear st b.name

-- How the function ends: by its result, by an exception, or by `CancelledError`, which is no
-- `Exception`: no count is stored then and none is cleared.
pub data Attempt : Type 0 where
  returns raises cancels : Attempt

pub data CallResult : Type 0 where
  circuit_open raised returned cancelled : CallResult

abbrev pub finish : Breaker → Attempt → ℕ → ℕ → Storage → Storage × CallResult
finish b returns open_until then_ st = (on_success b st, returned)
finish b raises open_until then_ st = (on_failure b open_until then_ st, raised)
finish b cancels open_until then_ st = (st, cancelled)

-- A whole call with nothing in between: admitted at `now`, ended at `then_`.
unfoldable pub call : Breaker → ℕ → Attempt → ℕ → Storage → Storage × CallResult
call b now attempt then_ st = elim (admit b now st) [
  | none ↦ (st, circuit_open)
  | some open_until ↦ finish b attempt open_until then_ st
]

-- `state_snapshot`, less the rounding: the failures, whether it is open, and the time that is left.
unfoldable pub state_snapshot : Breaker → ℕ → Storage → ℕ × Bool × ℕ
state_snapshot b now st =
    let (failures, open_until) = get_state st b.name in
    (failures, ltb now open_until, open_until - now)
