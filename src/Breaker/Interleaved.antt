-- ===== src/Breaker/Interleaved.antt =====
-- Calls that overlap: each ends with the `open_until` that it read at its start, however old.
use fastapi_langgraph_templa.Base.{ℕ, ◌+◌, ◌≤◌, ◌<◌, ◌≡◌, List, [], ◌∷◌, arith}
use fastapi_langgraph_templa.Breaker.{Storage, Breaker, on_failure, on_success}
use fastapi_langgraph_templa.Breaker.Trips.{counts, after_failure, after_success}

-- The end of some call of the breaker: a failure with the value read at its start, or a success.
pub data End : Type 0 where
  failure : ℕ → ℕ → End
  success : ℕ → End

abbrev pub time_of : End → ℕ
time_of (failure u t) = t
time_of (success t) = t

unfoldable pub ends : Breaker → List End → Storage → Storage
ends b [] st = st
ends b (failure u t ∷ es) st = ends b es (on_failure b u t st)
ends b (success t ∷ es) st = ends b es (on_success b st)

-- No end comes after the time `t`.
abbrev pub AllBy : ℕ → List End → Type 0
AllBy t [] = Unit
AllBy t (e ∷ es) = (time_of e ≤ t) × AllBy t es

-- A closed breaker has counted fewer than `fail_max` failures, and an open one is open for at most the
-- cooldown after `t`.
pub record IsTight (b : Breaker) (t : ℕ) (st : Storage) : Type 0 where
  pub counted : (counts b st).1 ≡ 0 → (counts b st).0 < b.fail_max
  pub bounded : (counts b st).1 ≤ t + b.cooldown_secs

failure-IsTight :
    (b : Breaker) (t u now : ℕ) (st : Storage)
    → 0 < b.cooldown_secs
    → now ≤ t
    → IsTight b t (on_failure b u now st)
failure-IsTight b t u now st pos h = record {
  counted = rw after_failure (ground arith);
  bounded = rw after_failure (ground arith);
}

-- However calls overlap, and whatever old `open_until` they carry: with a cooldown and a `fail_max`
-- of at least 1, a closed breaker has counted fewer than `fail_max` failures, and the breaker is
-- open for at most the cooldown after a time that no end comes after, if that was so before.
pub ends-IsTight :
    (b : Breaker) (t : ℕ) (es : List End) (st : Storage)
    → 0 < b.fail_max
    → 0 < b.cooldown_secs
    → AllBy t es
    → IsTight b t st
    → IsTight b t (ends b es st)
unfolding ends
ends-IsTight b t [] st max pos by h = h
ends-IsTight b t (failure u now ∷ es) st max pos (by, bys) h =
    ends-IsTight b t es (on_failure b u now st) max pos bys (failure-IsTight b t u now st pos by)
ends-IsTight b t (success now ∷ es) st max pos (by, bys) h =
    ends-IsTight b t es (on_success b st) max pos bys
      (record { counted = rw after_success (λ z. max); bounded = rw after_success (omega arith) })
