-- ===== src/Assistants.antt =====
-- `usecase/assistant_service.py` over the tables `assistant` and `assistant_versions` of `repo/orm.py`.
-- The handler's decision, the graphs that can be loaded, the fresh UUID and the clock are arguments,
-- and so are the database's `@>` and the equality of two configurations.
pub mod Requests
pub mod Service
pub mod Consistent
pub mod Operations
pub mod Heads
pub mod Outcomes
pub mod Owners
use fastapi_langgraph_templa.Base.{
  ℕ, String, Bool, false, ◌&&◌, ◌||◌, Option, none, some, List, [], ◌∷◌, str_eq, if◌then◌else◌,
}
use fastapi_langgraph_templa.Base.Json.{Json, Fields}
use fastapi_langgraph_templa.Base.Http.{HttpException}
use fastapi_langgraph_templa.Auth.Filters.{Clause, passes_filter}

-- A context may be any JSON value, since it can come from `config["configurable"]`.
pub record Assistant : Type 0 where
  pub assistant_id : String
  pub name : String
  pub description : Option String
  pub graph_id : String
  pub config : Fields
  pub context : Json
  pub user_id : String
  pub version : ℕ
  pub metadata : Fields
  pub created_at : ℕ
  pub updated_at : ℕ

-- A row of `assistant_versions`; the service never stores one without a name.
pub record AssistantVersion : Type 0 where
  pub assistant_id : String
  pub version : ℕ
  pub graph_id : String
  pub config : Fields
  pub context : Json
  pub created_at : ℕ
  pub metadata : Fields
  pub name : String
  pub description : Option String

pub record Db : Type 0 where
  pub assistants : List Assistant
  pub versions : List AssistantVersion

-- What an operation raises: an HTTP error, the failure of an `assert`, or the error of a unique index.
pub data Raised : Type 0 where
  http : HttpException → Raised
  assertion_error integrity_error : Raised

-- The queries for one assistant: the user's own, and those that the user may read.
module _ (contained : Json → Json → Bool) where
  abbrev pub is_own : String → String → Option Clause → Assistant → Bool
  is_own assistant_id user_id auth_filter a =
      str_eq a.assistant_id assistant_id
      && (str_eq a.user_id user_id && passes_filter contained a.metadata auth_filter)

  abbrev pub is_visible : String → Option Clause → Assistant → Bool
  is_visible user_id auth_filter a =
      (str_eq a.user_id user_id || str_eq a.user_id "system")
      && passes_filter contained a.metadata auth_filter

  abbrev pub is_readable : String → String → Option Clause → Assistant → Bool
  is_readable assistant_id user_id auth_filter a =
      str_eq a.assistant_id assistant_id && is_visible user_id auth_filter a
