-- ===== src/Auth.antt =====
-- `auth` and `domain/policy.py`: who may do what, and which handler decides.
pub mod Policy
pub mod Coherence
pub mod Narrowing
pub mod Handlers
pub mod Resolution
pub mod Filters
pub mod Registry
pub mod Enforcement
pub mod Wiring
pub mod Enforcer
pub mod Spoofing
use fastapi_langgraph_templa.Base.{String, List}

-- `User`, as far as decisions read it; `permissions or []` makes a missing list an empty one.
pub record User : Type 0 where
  pub identity : String
  pub permissions : List String
