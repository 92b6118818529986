-- ===== src/Cron/Requests.antt =====
-- What the API sends to `CronService`, and the payload that is stored of it.
use fastapi_langgraph_templa.Base.{ℕ, String, Bool, Option, List, [], ◌∷◌}
use fastapi_langgraph_templa.Base.Json.{Json, Fields, end, add_given}

-- The settings that the service reads.
pub record CronSettings : Type 0 where
  pub allow_seconds_schedule : Bool
  pub max_per_user : ℕ

-- A row of `assistant`, as far as the service reads it.
pub record Assistant : Type 0 where
  pub assistant_id : String
  pub user_id : String
  pub graph_id : String

-- `CronCreate`; `get_field` is `getattr` on the fields that go into the payload, by their names.
pub record CronCreate : Type 0 where
  pub assistant_id : String
  pub schedule : String
  pub get_field : String → Option Json
  pub metadata : Option Fields
  pub on_run_completed : Option String
  pub end_time : Option ℕ
  pub enabled : Option Bool

pub record CronUpdate : Type 0 where
  pub schedule : Option String
  pub get_field : String → Option Json
  pub metadata : Option Fields
  pub on_run_completed : Option String
  pub end_time : Option ℕ
  pub enabled : Option Bool

abbrev pub payload_fields : List String
payload_fields =
    "input" ∷ "config" ∷ "context" ∷ "interrupt_before" ∷ "interrupt_after" ∷ "webhook"
    ∷ "multitask_strategy" ∷ "stream_mode" ∷ "stream_subgraphs" ∷ "timezone" ∷ "durability"
    ∷ "checkpoint_during" ∷ []

abbrev pub payload_of : (String → Option Json) → List String → Fields
payload_of get_field [] = end
payload_of get_field (name ∷ names) = add_given name (get_field name) (payload_of get_field names)

unfoldable pub build_payload : (String → Option Json) → Fields
build_payload get_field = payload_of get_field payload_fields
