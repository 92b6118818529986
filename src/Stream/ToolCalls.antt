-- ===== src/Stream/ToolCalls.antt =====
-- `usecase/streaming/v2/normalizers.py`: the tool calls of a message, sorted into valid and invalid
-- ones. `json.loads` is an argument: none where it raises.
use fastapi_langgraph_templa.Base.{
  String, Option, none, some, List, [], ◌∷◌, str_eq, if◌then◌else◌, or_value,
}
use fastapi_langgraph_templa.Base.Json.{
  Json, null, text, obj, Items, nil, cons, Fields, end, field, get, get_or_null, text_field,
  text_of, dict_of, add_text,
}

-- `(id, name)`; the name may stand in a nested `function` record.
abbrev pub nested_name : Option Fields → Option String
nested_name none = none
nested_name (some function) = text_field function "name"

unfoldable pub tool_call_identity : Fields → Option String × Option String
tool_call_identity value = (
  text_field value "id",
  elim (text_field value "name") [
    | some name ↦ some name
    | none ↦ nested_name (dict_of (get value "function"))
  ],
)

abbrev pub nested_arguments : Option Fields → Json
nested_arguments none = null
nested_arguments (some function) = get_or_null function "arguments"

unfoldable pub tool_call_args : Fields → Json
tool_call_args value = elim (get value "args") [
  | some args ↦ args
  | none ↦ nested_arguments (dict_of (get value "function"))
]

-- The answer of `_coerce_args`: the flag `valid` with the arguments.
pub data Args : Type 0 where
  valid : Json → Args
  malformed : String → Args

abbrev pub loaded : String → Option Json → Args
loaded raw none = malformed raw
loaded raw (some args) = valid args

unfoldable pub coerce_args : (String → Option Json) → Json → Args
coerce_args loads null = valid (obj end)
coerce_args loads (text s) = if str_eq s "" then valid (obj end) else loaded s (loads s)
coerce_args loads value = valid value

pub record SplitCalls : Type 0 where
  pub calls : List Fields
  pub invalid : List Fields

abbrev add_call : Fields → SplitCalls → SplitCalls
add_call call rest = record rest { calls = call ∷ rest.calls }

abbrev add_invalid : Fields → SplitCalls → SplitCalls
add_invalid item rest = record rest { invalid = item ∷ rest.invalid }

abbrev pub incomplete_call : Option String → Json → Fields
incomplete_call call_id raw_args = field "type" (text "invalid_tool_call") (
    field "error" (text "Incomplete tool call.")
      (add_text "id" call_id (add_text "args" (text_of (some raw_args)) end)))

abbrev pub malformed_call : Option String → String → String → Fields
malformed_call call_id name raw_args = field "type" (text "invalid_tool_call") (
    field "name" (text name) (
      field "error" (text "Malformed args.")
        (add_text "id" call_id (field "args" (text raw_args) end))))

abbrev pub valid_call : Option String → String → Json → Fields
valid_call call_id name args =
    field "type" (text "tool_call")
      (field "name" (text name) (field "args" args (add_text "id" call_id end)))

-- One entry: without a name, with arguments that are no JSON, or complete.
abbrev pub sort_call : Option String → Option String → Json → Args → SplitCalls → SplitCalls
sort_call call_id none raw_args args rest = add_invalid (incomplete_call call_id raw_args) rest
sort_call call_id (some name) raw_args (malformed s) rest =
    add_invalid (malformed_call call_id name s) rest
sort_call call_id (some name) raw_args (valid args) rest =
    add_call (valid_call call_id name args) rest

unfoldable pub split_call : (String → Option Json) → Fields → SplitCalls → SplitCalls
split_call loads entry rest =
    let (call_id, name) = tool_call_identity entry in
    let raw_args = tool_call_args entry in
    sort_call call_id name raw_args (coerce_args loads raw_args) rest

unfoldable pub split_tool_calls : (String → Option Json) → Items → SplitCalls
split_tool_calls loads nil = record { calls = []; invalid = [] }
split_tool_calls loads (cons (obj entry) raw) = split_call loads entry (split_tool_calls loads raw)
split_tool_calls loads (cons _ raw) = split_tool_calls loads raw

abbrev pub invalid_call : Fields → Fields
invalid_call entry =
    let (call_id, name) = tool_call_identity entry in
    field "type" (text "invalid_tool_call") (
      add_text "id" call_id (
        add_text "name" name (
          add_text "args" (text_field entry "args")
            (field "error" (text (or_value (text_field entry "error") "Malformed args.")) end))))

unfoldable pub normalize_invalid_tool_calls : Items → List Fields
normalize_invalid_tool_calls nil = []
normalize_invalid_tool_calls (cons (obj entry) raw) =
    invalid_call entry ∷ normalize_invalid_tool_calls raw
normalize_invalid_tool_calls (cons _ raw) = normalize_invalid_tool_calls raw
