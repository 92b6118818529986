-- ===== src/Tests/Breaker.antt =====
-- A breaker that opens after two failures, for ten units of time.
use fastapi_langgraph_templa.Base.{◌≡◌, refl, [], ◌∷◌, ◌++◌, arith, List}
use fastapi_langgraph_templa.Base.Dict.{lookup}
use fastapi_langgraph_templa.Breaker.{
  circuit_open, returned, raised, cancelled, returns, raises, cancels, call, Storage, get_state,
  Breaker,
}
use fastapi_langgraph_templa.Breaker.Trips.{run, results, counts, half_open}
use fastapi_langgraph_templa.Breaker.Interleaved.{
  End, failure, success, ends, IsTight, ends-IsTight,
}

abbrev opa : Breaker
opa = record { name = "opa"; fail_max = 2; cooldown_secs = 10 }

abbrev open_storage : Storage
open_storage = ("opa", (2, 14)) ∷ []

half_open_example :
    (results opa ((5, cancels, 6) ∷ []) open_storage ≡ circuit_open ∷ [])
    × (run opa ((5, cancels, 6) ∷ []) open_storage ≡ open_storage)
    × ((call opa 15 returns 16 (run opa ((5, cancels, 6) ∷ []) open_storage)).1 ≡ returned)
    × ((call opa 15 raises 16 (run opa ((5, cancels, 6) ∷ []) open_storage)).1 ≡ raised)
    × (call opa 15 cancels 16 (run opa ((5, cancels, 6) ∷ []) open_storage)
        ≡ (open_storage, cancelled))
    × (counts opa (run opa (((5, cancels, 6) ∷ []) ++ (15, returns, 16) ∷ []) open_storage)
        ≡ (0, 0))
    × (counts opa (run opa (((5, cancels, 6) ∷ []) ++ (15, raises, 16) ∷ []) open_storage)
        ≡ (3, 26))
unfolding get_state lookup
half_open_example =
    half_open opa 2 14 ((5, cancels, 6) ∷ []) 15 16 open_storage refl (omega arith)
      (omega arith, tt) (omega arith)

abbrev overlapping : List End
overlapping = failure 0 3 ∷ failure 0 4 ∷ failure 0 5 ∷ success 6 ∷ []

ends-IsTight_example : IsTight opa 6 (ends opa overlapping [])
unfolding get_state lookup
ends-IsTight_example =
    ends-IsTight opa 6 overlapping [] (omega arith) (omega arith)
      (omega arith, (omega arith, (omega arith, (omega arith, tt))))
      (record { counted = λ z. omega arith; bounded = omega arith })
