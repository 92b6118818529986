-- ===== src/Auth/Policy.antt =====
-- `domain/policy.py` and the engines of `auth/policy.py`. An engine that asks a decision service is any
-- `PolicyEngine`: what it answers is a function of the question here.
use fastapi_langgraph_templa.Base.{
  String, Bool, true, false, ◌||◌, Option, none, some, List, [], ◌∷◌, is_text, if◌then◌else◌, all,
  select, contains, map, Result, ok, err, ◌>>=◌,
}
use fastapi_langgraph_templa.Base.Json.{Fields}
use fastapi_langgraph_templa.Base.Http.{HttpException}
use fastapi_langgraph_templa.Auth.{User}

pub record Permission : Type 0 where
  pub value : String

pub record ResourceType : Type 0 where
  pub value : String

pub record ResourceRef : Type 0 where
  pub type_of : ResourceType
  pub id : String
  pub owner_id : Option String

abbrev pub DecisionContext : Type 0
DecisionContext = Option Fields

pub record AccessFilter : Type 0 where
  pub allow_all : Bool
  pub owner_id : Option String
  pub object_ids : Option (List String)

pub record PolicyEngine : Type 0 where
  pub check : User → Permission → ResourceRef → DecisionContext → Bool
  pub require : User → Permission → ResourceRef → DecisionContext → Result HttpException (Unit {0})
  pub access_filter : User → Permission → ResourceType → DecisionContext → AccessFilter

abbrev pub forbidden : HttpException
forbidden = record { status_code = 403 }

abbrev pub raise_unless : Bool → Result HttpException (Unit {0})
raise_unless true = ok tt
raise_unless false = err forbidden

unfoldable pub is_admin : User → Bool
is_admin subject = contains subject.permissions "admin"

unfoldable pub local_check : User → ResourceRef → Bool
local_check subject resource = is_text resource.owner_id subject.identity || is_admin subject

unfoldable pub local_filter : User → AccessFilter
local_filter subject =
    if is_admin subject
    then record { allow_all = true; owner_id = none; object_ids = none }
    else record { allow_all = false; owner_id = some subject.identity; object_ids = none }

-- `LocalPolicyEngine`
unfoldable pub local_engine : PolicyEngine
local_engine = record {
  check = λ subject permission resource context. local_check subject resource;
  require = λ subject permission resource context. raise_unless (local_check subject resource);
  access_filter = λ subject permission resource_type context. local_filter subject;
}

-- `CompositePolicyEngine.require`: one engine after another, up to the first that raises.
unfoldable pub require_all :
    List PolicyEngine
    → User
    → Permission
    → ResourceRef
    → DecisionContext
    → Result HttpException (Unit {0})
require_all [] subject permission resource context = ok tt
require_all (e ∷ es) subject permission resource context = do
  passed ← e.require subject permission resource context
  require_all es subject permission resource context

-- `[f.object_ids for f in filters if f.object_ids is not None]`
abbrev pub add_set : Option (List String) → List (List String) → List (List String)
add_set none sets = sets
add_set (some s) sets = s ∷ sets

abbrev pub id_sets : List AccessFilter → List (List String)
id_sets [] = []
id_sets (f ∷ fs) = add_set f.object_ids (id_sets fs)

-- `frozenset.intersection(*id_sets)`
abbrev pub intersection : List String → List (List String) → List String
intersection s ss = select (λ i. all (λ t. contains t i) ss) s

-- The set of the owners that the filters name.
abbrev pub add_owner : Option String → List String → List String
add_owner none owners = owners
add_owner (some o) owners = if contains owners o then owners else o ∷ owners

abbrev pub owners_of : List AccessFilter → List String
owners_of [] = []
owners_of (f ∷ fs) = add_owner f.owner_id (owners_of fs)

abbrev pub only_ids : List String → AccessFilter
only_ids ids = record { allow_all = false; owner_id = none; object_ids = some ids }

abbrev pub one_owner : List String → AccessFilter
one_owner (o ∷ []) = record { allow_all = false; owner_id = some o; object_ids = none }
one_owner _ = only_ids []

abbrev pub narrow : List (List String) → List String → AccessFilter
narrow (s ∷ ss) owners = only_ids (intersection s ss)
narrow [] owners = one_owner owners

unfoldable pub compose_filters : List AccessFilter → AccessFilter
compose_filters filters =
    if all (λ f. f.allow_all) filters
    then record { allow_all = true; owner_id = none; object_ids = none }
    else narrow (id_sets filters) (owners_of filters)

-- `CompositePolicyEngine`; no engines is the `ValueError` of its constructor.
unfoldable pub composite_of : List PolicyEngine → PolicyEngine
composite_of es = record {
  check = λ subject permission resource context.
      all (λ (x : PolicyEngine). x.check subject permission resource context) es;
  require = require_all es;
  access_filter = λ subject permission resource_type context.
      compose_filters
        (map (λ (x : PolicyEngine). x.access_filter subject permission resource_type context) es);
}

unfoldable pub composite_engine : List PolicyEngine → Option PolicyEngine
composite_engine [] = none
composite_engine (e ∷ es) = some (composite_of (e ∷ es))
