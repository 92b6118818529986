-- ===== src/Auth/Coherence.antt =====
-- The two halves of a decision, `check` and `require`, fit together.
use fastapi_langgraph_templa.Base.{◌≡◌, List, [], ◌∷◌}
use fastapi_langgraph_templa.Auth.{User}
use fastapi_langgraph_templa.Auth.Policy.{
  Permission, ResourceRef, DecisionContext, PolicyEngine, raise_unless,
}

-- `require` raises 403 where `check` denies, and returns where it allows.
abbrev pub IsCoherent : PolicyEngine → Type 0
IsCoherent e =
    (u : User) (p : Permission) (r : ResourceRef) (c : DecisionContext)
    → e.require u p r c ≡ raise_unless (e.check u p r c)

abbrev pub AllCoherent : List PolicyEngine → Type 0
AllCoherent [] = Unit
AllCoherent (e ∷ es) = IsCoherent e × AllCoherent es
