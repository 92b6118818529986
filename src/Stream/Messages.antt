-- ===== src/Stream/Messages.antt =====
-- `usecase/streaming/v2/normalizers.py`: the messages of a state, and a state with the messages in it.
use fastapi_langgraph_templa.Base.{
  String, Bool, false, ◌||◌, Option, none, some, List, [], ◌∷◌, str_eq, contains, if◌then◌else◌,
  or_value,
}
use fastapi_langgraph_templa.Base.Json.{
  Json, bool, text, arr, obj, Items, nil, cons, Fields, end, field, get, text_field, dict_of,
  list_of, add_text, add_given, items_of,
}
use fastapi_langgraph_templa.Stream.Blocks.{normalize_content}
use fastapi_langgraph_templa.Stream.ToolCalls.{
  SplitCalls, split_tool_calls, normalize_invalid_tool_calls,
}

abbrev pub state_message_types : List String
state_message_types =
    "human" ∷ "user" ∷ "ai" ∷ "assistant" ∷ "system" ∷ "tool" ∷ "function" ∷ "remove" ∷ []

abbrev pub message_type : Option Json → Option String
message_type (some (text s)) =
    some (if str_eq s "assistant" then "ai" else if str_eq s "user" then "human" else s)
message_type _ = none

abbrev pub is_message_type : Option String → Bool
is_message_type none = false
is_message_type (some kind) = contains state_message_types kind

unfoldable pub is_state_message : Json → Bool
is_state_message (obj value) = is_message_type (message_type (get value "type"))
is_state_message _ = false

-- The fields that only some types of message have.
abbrev bool_of : Option Json → Option Json
bool_of (some (bool b)) = some (bool b)
bool_of _ = none

abbrev pub tool_status : Option String → Option String
tool_status none = none
tool_status (some s) = if str_eq s "success" || str_eq s "error" then some s else none

abbrev pub tool_fields : Fields → Fields
tool_fields value = add_text "tool_call_id" (text_field value "tool_call_id") (
    add_text "status" (tool_status (text_field value "status"))
      (add_given "artifact" (get value "artifact") end))

-- `raw_tool_calls`: the message's own list, or that of the extra arguments when it is missing or empty.
abbrev pub kwargs_calls : Option Items → Option Fields → Option Items
kwargs_calls own none = own
kwargs_calls own (some additional_kwargs) = elim (list_of (get additional_kwargs "tool_calls")) [
  | none ↦ own
  | some calls ↦ some calls
]

abbrev pub raw_tool_calls : Option Items → Option Fields → Option Items
raw_tool_calls (some (cons call calls)) additional_kwargs = some (cons call calls)
raw_tool_calls own additional_kwargs = kwargs_calls own additional_kwargs

abbrev pub split_raw : (String → Option Json) → Option Items → SplitCalls
split_raw loads none = record { calls = []; invalid = [] }
split_raw loads (some raw) = split_tool_calls loads raw

-- An own list of invalid calls wins, if it is not empty.
abbrev pub invalid_calls : Option Items → List Fields → List Fields
invalid_calls (some (cons call calls)) split = normalize_invalid_tool_calls (cons call calls)
invalid_calls _ split = split

abbrev pub add_list : String → List Fields → Fields → Fields
add_list name [] rest = rest
add_list name (d ∷ ds) rest = field name (arr (items_of (d ∷ ds))) rest

abbrev pub ai_fields : (String → Option Json) → Fields → Option Fields → Fields
ai_fields loads value additional_kwargs =
    let split =
      split_raw loads (raw_tool_calls (list_of (get value "tool_calls")) additional_kwargs) in
    add_list "tool_calls" split.calls (
      add_list "invalid_tool_calls"
        (invalid_calls (list_of (get value "invalid_tool_calls")) split.invalid) end)

abbrev pub typed_message : (String → Option Json) → String → Fields → Option Fields → Fields
typed_message loads kind value additional_kwargs =
    let is_ai = str_eq kind "ai" in
    field "type" (text kind) (
      field "content"
        (normalize_content (or_value (get value "content") (text ""))
          (if is_ai then additional_kwargs else none))
        (add_text "id" (text_field value "id") (
          add_text "name" (text_field value "name") (
            add_given "example"
              (if is_ai || str_eq kind "human" then bool_of (get value "example") else none)
              (if str_eq kind "tool"
                then tool_fields value
                else if is_ai
                then ai_fields loads value additional_kwargs
                else end)))))

unfoldable pub normalize_message : (String → Option Json) → Fields → Fields
normalize_message loads value = elim (message_type (get value "type")) [
  | none ↦ value
  | some kind ↦ typed_message loads kind value (dict_of (get value "additional_kwargs"))
]

-- `_normalize_message(item) if _is_state_message(item) else other`
unfoldable pub message_or : (String → Option Json) → Json → Json → Json
message_or loads (obj d) other =
    if is_state_message (obj d) then obj (normalize_message loads d) else other
message_or loads item other = other

abbrev pub normalize_messages : (String → Option Json) → Items → Items
normalize_messages loads nil = nil
normalize_messages loads (cons item items) =
    cons (message_or loads item item) (normalize_messages loads items)

-- The entry of a dict: the list under `messages` holds messages, all else is a state.
abbrev pub entry_or : (String → Option Json) → String → Json → Json → Json
entry_or loads key (arr items) other =
    if str_eq key "messages" then arr (normalize_messages loads items) else other
entry_or loads key entry other = other

module _ (loads : String → Option Json) where
  unfoldable mutual
    pub normalize_state_payload : Json → Json
    normalize_state_payload (arr items) = arr (normalize_items items)
    normalize_state_payload (obj d) = obj (normalize_fields d)
    normalize_state_payload value = value

    pub normalize_items : Items → Items
    normalize_items nil = nil
    normalize_items (cons item items) =
        cons (message_or loads item (normalize_state_payload item)) (normalize_items items)

    pub normalize_fields : Fields → Fields
    normalize_fields end = end
    normalize_fields (field key entry d) =
        let rest = normalize_fields d in
        let state = normalize_state_payload entry in
        if str_eq key "__interrupt__" then rest else field key (entry_or loads key entry state) rest
