-- ===== src/Assistants/Requests.antt =====
-- `domain/assistants.py` and `usecase/assistant_service.py`: the requests, and the rows they ask for.
use fastapi_langgraph_templa.Base.{
  ℕ, zero, suc, String, Bool, true, false, ◌&&◌, Option, none, some, List, [], ◌∷◌, str_eq, ◌<>◌,
  ltb, if◌then◌else◌, or_value,
}
use fastapi_langgraph_templa.Base.Json.{
  Json, null, obj, Fields, end, field, get_or_null, truthy, set_item, update_items,
}
use fastapi_langgraph_templa.Assistants.{Assistant, AssistantVersion}

pub record AssistantCreate : Type 0 where
  pub assistant_id : Option String
  pub name : Option String
  pub description : Option String
  pub config : Option Fields
  pub context : Option Fields
  pub graph_id : String
  pub metadata : Option Fields
  pub if_exists : Option String

-- `AssistantUpdate` with `exclude_unset`: the outer option tells whether a field was supplied, the
-- inner one a null.
pub record AssistantUpdate : Type 0 where
  pub name : Option (Option String)
  pub description : Option (Option String)
  pub config : Option (Option Fields)
  pub graph_id : Option (Option String)
  pub context : Option (Option Fields)
  pub metadata : Option Fields

abbrev pub context_json : Option Fields → Json
context_json none = null
context_json (some context) = obj context

-- `_injected_metadata`, on the metadata of the request and what stands in `value` after the handler.
unfoldable pub injected_metadata : Option Fields → Json → Option Fields
injected_metadata base (obj (field k v d)) = some (update_items (or_value base end) (field k v d))
injected_metadata base value_meta = base

abbrev pub configurable : Fields → Json
configurable config = get_or_null config "configurable"

-- Config and context of a new assistant, each kept up to date with the other.
abbrev pub mirrored : Fields → Json → Fields × Json
mirrored config context =
    if truthy (configurable config)
    then (config, configurable config)
    else if truthy context
    then (set_item config "configurable" context, context)
    else (config, context)

abbrev non_empty : Option String → Option String
non_empty none = none
non_empty (some s) = if str_eq s "" then none else some s

unfoldable pub new_assistant : AssistantCreate → Option Fields → String → String → ℕ → Assistant
new_assistant request metadata user_id uuid now =
    let (config, context) = mirrored (or_value request.config end) (context_json request.context) in
    record {
      assistant_id = or_value (non_empty request.assistant_id) uuid;
      name = or_value (non_empty request.name) ("Assistant for " <> request.graph_id);
      description = request.description;
      graph_id = request.graph_id;
      config = config;
      context = context;
      user_id = user_id;
      version = 1;
      metadata = or_value metadata end;
      created_at = now;
      updated_at = now;
    }

-- The version record of an assistant as it stands.
abbrev pub version_of : Assistant → ℕ → AssistantVersion
version_of a now = record {
  assistant_id = a.assistant_id;
  version = a.version;
  graph_id = a.graph_id;
  config = a.config;
  context = a.context;
  created_at = now;
  metadata = a.metadata;
  name = a.name;
  description = a.description;
}

-- `field in supplied and not supplied[field]`
abbrev pub is_empty_field : Option (Option String) → Bool
is_empty_field none = false
is_empty_field (some none) = true
is_empty_field (some (some s)) = str_eq s ""

abbrev pub supplied_or : Option (Option String) → String → String
supplied_or (some (some s)) old = s
supplied_or _ old = old

-- `(supplied["config"] or {}) if "config" in supplied else (assistant.config or {})`
abbrev pub config_of : Option (Option Fields) → Fields → Fields
config_of none old = old
config_of (some config) old = or_value config end

abbrev or_empty : Json → Json
or_empty v = if truthy v then v else obj end

abbrev pub context_of : Option (Option Fields) → Json → Json
context_of none old = or_empty old
context_of (some context) old = obj (or_value context end)

abbrev is_supplied : Option (Option Fields) → Bool
is_supplied none = false
is_supplied (some v) = true

-- Both were supplied, and neither is empty.
unfoldable pub is_ambiguous : AssistantUpdate → Bool
is_ambiguous request =
    let config = config_of request.config end in
    let context = context_of request.context null in
    is_supplied request.config
    && (is_supplied request.context && (truthy (configurable config) && truthy context))

-- The one of config and context that was supplied wins, and the other is derived from it.
unfoldable pub merged_config : AssistantUpdate → Assistant → Fields × Json
merged_config request a =
    let config = config_of request.config a.config in
    let context = context_of request.context a.context in
    if is_supplied request.context
    then (set_item config "configurable" context, context)
    else if is_supplied request.config
    then (config, or_empty (configurable config))
    else if truthy (configurable config)
    then (config, configurable config)
    else if truthy context
    then (set_item config "configurable" context, context)
    else (config, context)

-- `max(version)` over the versions of an assistant, and the number after it.
abbrev pub larger : ℕ → Option ℕ → ℕ
larger n none = n
larger n (some m) = if ltb n m then m else n

unfoldable pub max_version : String → List AssistantVersion → Option ℕ
max_version assistant_id [] = none
max_version assistant_id (v ∷ vs) =
    let rest = max_version assistant_id vs in
    if str_eq v.assistant_id assistant_id then some (larger v.version rest) else rest

unfoldable pub new_version : Option ℕ → ℕ
new_version none = 1
new_version (some zero) = 2
new_version (some (suc m)) = suc (suc m)

unfoldable pub updated_version :
    AssistantUpdate → Option Fields → Assistant → ℕ → ℕ → AssistantVersion
updated_version request metadata a version now =
    let (config, context) = merged_config request a in
    record {
      assistant_id = a.assistant_id;
      version = version;
      graph_id = supplied_or request.graph_id a.graph_id;
      config = config;
      context = context;
      created_at = now;
      metadata = update_items a.metadata (or_value metadata end);
      name = supplied_or request.name a.name;
      description = or_value request.description a.description;
    }
