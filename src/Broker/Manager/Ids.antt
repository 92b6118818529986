-- ===== src/Broker/Manager/Ids.antt =====
-- The event ids of a run are all different.
use text.Mathlib.TextLemmas.{append_cancel_left}
use fastapi_langgraph_templa.Base.{
  ℕ, ◌+◌, ◌≤◌, String, ◌≡◌, ◌≢◌, ap, ◌∙◌, List, [], ◌∷◌, arith, str_eq, eq_iff, if◌then◌else◌,
  str_eq_refl,
}
use fastapi_langgraph_templa.Base.Dict.{lookup-insert}
use fastapi_langgraph_templa.Broker.Manager.{
  Manager, get_event_sequence, generate_event_id, allocate_event_id,
}

module _ (str : ℕ → String) where
  sequence-allocate :
      (run_id j : String) (m : Manager)
      → get_event_sequence j (allocate_event_id str run_id m).0
        ≡ (if str_eq run_id j then get_event_sequence run_id m + 1 else get_event_sequence j m)
  unfolding get_event_sequence allocate_event_id
  sequence-allocate run_id j m =
      rw (lookup-insert m.event_counters run_id j (get_event_sequence run_id m + 1)) (ground arith)

  sequence-allocate_self :
      (run_id : String) (m : Manager)
      → get_event_sequence run_id (allocate_event_id str run_id m).0
        ≡ get_event_sequence run_id m + 1
  sequence-allocate_self run_id m = sequence-allocate run_id run_id m ∙ rw str_eq_refl

  generate-injective :
      (run_id : String) (a b : ℕ)
      → generate_event_id str run_id a ≡ generate_event_id str run_id b
      → str a ≡ str b
  unfolding generate_event_id
  generate-injective run_id a b h =
      append_cancel_left "_event_" _ _ (append_cancel_left run_id _ _ h)

  -- Allocations for any runs, one after another.
  unfoldable pub allocate_all : List String → Manager → Manager
  allocate_all [] m = m
  allocate_all (r ∷ rs) m = allocate_all rs (allocate_event_id str r m).0

  sequence-allocate_all :
      (rs : List String) (run_id : String) (m : Manager)
      → get_event_sequence run_id m ≤ get_event_sequence run_id (allocate_all rs m)
  unfolding allocate_all
  sequence-allocate_all [] run_id m = omega arith
  sequence-allocate_all (r ∷ rs) run_id m = ground (
    arith,
    sequence-allocate_all rs run_id (allocate_event_id str r m).0,
    sequence-allocate r run_id m,
    ap (λ (s : String). get_event_sequence s m),
    eq_iff r run_id,
  )

  -- Two event ids that are allocated for one run differ, whatever ids are allocated for this and other
  -- runs in between, if `str` tells numbers apart.
  pub event_ids_differ :
      (run_id : String) (between : List String) (m : Manager)
      → ((a b : ℕ) → str a ≡ str b → a ≡ b)
      → let (m', first) = allocate_event_id str run_id m in
        (allocate_event_id str run_id (allocate_all between m')).1 ≢ first
  event_ids_differ run_id between m injective e =
      let m' = (allocate_event_id str run_id m).0 in
      let last = get_event_sequence run_id (allocate_all between m') in
      let same =
        injective (last + 1) (get_event_sequence run_id m + 1) (generate-injective _ _ _ (ids e)) in
      absurd (
        omega
          (arith, same, sequence-allocate_self run_id m, sequence-allocate_all between run_id m'))
    where
      ids :
          (allocate_event_id str run_id (allocate_all between (allocate_event_id str run_id m).0)).1
            ≡ (allocate_event_id str run_id m).1
          → generate_event_id str run_id (
              get_event_sequence run_id (allocate_all between (allocate_event_id str run_id m).0)
              + 1)
            ≡ generate_event_id str run_id (get_event_sequence run_id m + 1)
      ids h = unfold allocate_event_id in h
