-- ===== src/Stream/Interrupts.antt =====
-- `usecase/streaming/v2/normalizers.py`: lifecycle statuses, updates, and the interrupts in a payload.
use fastapi_langgraph_templa.Base.{
  String, ◌||◌, Option, none, some, List, [], ◌∷◌, str_eq, if◌then◌else◌,
}
use fastapi_langgraph_templa.Base.Json.{
  Json, text, arr, obj, Items, nil, cons, Fields, end, field, get, text_field, without, list_of,
}

unfoldable pub lifecycle_status : String → String
lifecycle_status run_status =
    if str_eq run_status "success"
    then "completed"
    else if str_eq run_status "error" || str_eq run_status "timeout"
    then "failed"
    else if str_eq run_status "interrupted"
    then "interrupted"
    else "running"

abbrev pub as_values : Json → Fields
as_values (obj d) = d
as_values value = field "value" value end

-- `{node: values}` is told from any other payload; the second answer is what goes under `values`.
unfoldable pub normalize_updates : Json → Option String × Fields
normalize_updates (obj (field node values end)) = (some node, as_values values)
normalize_updates payload = (none, as_values payload)

-- `{"interrupt_id": id}` with the value under `value` and `payload`, if the entry has one.
abbrev pub request_of : String → Option Json → Fields
request_of id none = field "interrupt_id" (text id) end
request_of id (some v) = field "interrupt_id" (text id) (field "value" v (field "payload" v end))

abbrev pub add_request : Option String → Fields → List Fields → List Fields
add_request none entry rest = rest
add_request (some id) entry rest = request_of id (get entry "value") ∷ rest

abbrev pub requests_of : Items → List Fields
requests_of nil = []
requests_of (cons (obj entry) items) = add_request (text_field entry "id") entry (requests_of items)
requests_of (cons item items) = requests_of items

abbrev items_or_none : Option Items → Items
items_or_none none = nil
items_or_none (some items) = items

abbrev pub interrupt_array : Json → Items
interrupt_array (arr items) = items
interrupt_array (obj d) = items_or_none (list_of (get d "__interrupt__"))
interrupt_array _ = nil

unfoldable pub normalize_input_requested : Json → List Fields
normalize_input_requested payload = requests_of (interrupt_array payload)

-- The payload without the key; another payload is passed on.
abbrev pub cleaned : Json → Json
cleaned (obj d) = obj (without "__interrupt__" d)
cleaned payload = payload

unfoldable pub strip_interrupts : Json → List Fields × Json
strip_interrupts payload = (normalize_input_requested payload, cleaned payload)
