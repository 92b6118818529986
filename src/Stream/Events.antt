-- ===== src/Stream/Events.antt =====
-- `usecase/streaming/v2/session.py`: the channel events that one broker event stands for.
use fastapi_langgraph_templa.Base.{
  String, Bool, true, false, not, ◌&&◌, ◌||◌, Option, none, some, List, [], ◌∷◌, ◌++◌, length, map,
  str_eq, contains, leb, ltb, ◌<>◌, if◌then◌else◌, or_value,
}
use fastapi_langgraph_templa.Base.Dict.{Dict, insert, remove}
use fastapi_langgraph_templa.Base.Json.{
  Json, null, text, arr, obj, Items, nil, cons, Fields, end, field, get, get_or_null, has_key,
  text_field, dict_of, list_of, add_given, add_text, without, truthy,
}
use fastapi_langgraph_templa.Stream.Messages.{normalize_state_payload}
use fastapi_langgraph_templa.Stream.Interrupts.{
  lifecycle_status, normalize_updates, normalize_input_requested, strip_interrupts, as_values,
}
use fastapi_langgraph_templa.Stream.Channels.{strip_prefix}
use fastapi_langgraph_templa.Stream.Session.{State, ChannelEvent}

abbrev pub event : String → Json → List String → ChannelEvent
event method d namespace = record { method = method; data_ = d; namespace = namespace }

abbrev is_sent : List String → Option String → Bool
is_sent sent none = false
is_sent sent (some id) = contains sent id

abbrev add_sent : Option String → List String → List String
add_sent none sent = sent
add_sent (some id) sent = id ∷ sent

-- The loop over the requests, on the set of the ids that were sent.
unfoldable pub input_request_events :
    List Fields → List String → List String → List String × List ChannelEvent
input_request_events [] namespace sent = (sent, [])
input_request_events (request ∷ requests) namespace sent =
    let id = text_field request "interrupt_id" in
    let skipped = input_request_events requests namespace sent in
    let (later, events) = input_request_events requests namespace (add_sent id sent) in
    if is_sent sent id
    then skipped
    else (later, event "input.requested" (obj request) namespace ∷ events)

abbrev pub with_requests : List Fields → List String → State → State × List ChannelEvent
with_requests requests namespace st =
    let (sent, events) = input_request_events requests namespace st.sent_interrupts in
    (record st { sent_interrupts = sent }, events)

unfoldable pub dedupe_requests : List String → List Fields → List Fields
dedupe_requests seen [] = []
dedupe_requests seen (request ∷ requests) =
    let id = text_field request "interrupt_id" in
    let skipped = dedupe_requests seen requests in
    let rest = dedupe_requests (add_sent id seen) requests in
    if is_sent seen id then skipped else request ∷ rest

-- Of JSON values, `_coerce_interrupts` keeps the dicts.
unfoldable pub coerce_interrupts : Items → Items
coerce_interrupts nil = nil
coerce_interrupts (cons (obj d) items) = cons (obj d) (coerce_interrupts items)
coerce_interrupts (cons item items) = coerce_interrupts items

abbrev pub all_requests : List Fields → Option Items → List Fields
all_requests requests (some (cons item items)) =
    dedupe_requests []
      (requests ++ normalize_input_requested (arr (coerce_interrupts (cons item items))))
all_requests requests _ = requests

unfoldable pub has_state : Json → Bool
has_state null = false
has_state (obj end) = false
has_state value = true

module _ (loads : String → Option Json) where
  unfoldable pub values_events :
      Json → Option Json → List String → State → State × List ChannelEvent
  values_events d interrupts namespace st =
      let (requests, cleaned) = strip_interrupts d in
      let (next, events) =
        with_requests (all_requests requests (list_of interrupts)) namespace st in
      (
        next,
        if has_state cleaned
            then events ++ event "values" (normalize_state_payload loads cleaned) namespace ∷ []
            else events,
      )

  -- The requests in an update: those of the `__interrupt__` node, then those nested in the values of
  -- the other nodes. All go through the same loop in this order.
  abbrev pub nested_requests : Fields → List Fields
  nested_requests end = []
  nested_requests (field node (obj node_values) d) = elim (get node_values "__interrupt__") [
    | none ↦ nested_requests d
    | some interrupts ↦ normalize_input_requested interrupts ++ nested_requests d
  ]
  nested_requests (field node node_values d) = nested_requests d

  abbrev pub top_requests : Fields → List Fields
  top_requests d = elim (get d "__interrupt__") [
    | none ↦ []
    | some interrupts ↦ normalize_input_requested interrupts
  ]

  -- `updates` with the state in it normalized.
  abbrev pub update_event : Json → List String → ChannelEvent
  update_event d namespace =
      let (node, values) = normalize_updates d in
      event "updates"
        (obj
          (add_text "node" node (field "values" (normalize_state_payload loads (obj values)) end)))
        namespace

  -- With an `__interrupt__` node and nothing else, only the requests are forwarded.
  abbrev pub is_only_interrupt : Fields → Bool
  is_only_interrupt d = has_key d "__interrupt__" && not (truthy (obj (without "__interrupt__" d)))

  abbrev pub dict_updates : Fields → List String → State → State × List ChannelEvent
  dict_updates d namespace st =
      let rest = without "__interrupt__" d in
      let (next, events) = with_requests (top_requests d ++ nested_requests rest) namespace st in
      (
        next,
        if is_only_interrupt d then events else events ++ update_event (obj rest) namespace ∷ [],
      )

  unfoldable pub updates_events : Json → List String → State → State × List ChannelEvent
  updates_events (obj d) namespace st = dict_updates d namespace st
  updates_events d namespace st = (st, update_event d namespace ∷ [])

-- A list of texts, if all of a JSON list are.
abbrev pub texts_of : Items → Option (List String)
texts_of nil = some []
texts_of (cons (text s) items) = elim (texts_of items) [ none ↦ none | some ss ↦ some (s ∷ ss) ]
texts_of _ = none

-- The namespace that the data announces, if it is deeper than the event's.
abbrev pub deeper : List String → Option (List String) → List String
deeper namespace none = namespace
deeper namespace (some data_ns) =
    if ltb (length namespace) (length data_ns) then data_ns else namespace

abbrev texts_in : Option Items → Option (List String)
texts_in none = none
texts_in (some items) = texts_of items

-- `"\0".join(namespace)`
abbrev pub join_key : List String → String
join_key [] = ""
join_key (segment ∷ []) = segment
join_key (segment ∷ (next ∷ rest)) = segment <> ("\0" <> join_key (next ∷ rest))

abbrev pub track : String → List String → Dict (List String) → Dict (List String)
track name namespace open_ =
    if str_eq name "started"
    then insert open_ (join_key namespace) namespace
    else if str_eq name "completed" || str_eq name "failed"
    then remove open_ (join_key namespace)
    else open_

abbrev pub forwarded : String → Fields → Fields
forwarded name d = field "event" (text name) (
    add_given "graph_name" (get d "graph_name") (
      add_given "trigger_call_id" (get d "trigger_call_id")
        (add_given "error" (get d "error") (add_given "cause" (get d "cause") end))))

abbrev pub subgraph_event : String → Fields → List String → State → State × List ChannelEvent
subgraph_event name d [] st = (st, [])
subgraph_event name d (segment ∷ rest) st = (
  record st { open_namespaces = track name (segment ∷ rest) st.open_namespaces },
  event "lifecycle" (obj (forwarded name d)) (segment ∷ rest) ∷ [],
)

unfoldable pub native_lifecycle_events : Json → List String → State → State × List ChannelEvent
native_lifecycle_events (obj d) namespace st = elim (text_field d "event") [
  | none ↦ (st, event "lifecycle" (obj d) namespace ∷ [])
  | some name ↦ subgraph_event name d (deeper namespace (texts_in (list_of (get d "namespace")))) st
]
native_lifecycle_events d namespace st =
    (st, event "lifecycle" (obj (field "value" d end)) namespace ∷ [])

-- `sorted(..., key=len, reverse=True)`, which is stable.
abbrev pub insert_deep : List String → List (List String) → List (List String)
insert_deep namespace [] = namespace ∷ []
insert_deep namespace (other ∷ rest) =
    let later = insert_deep namespace rest in
    if leb (length other) (length namespace) then namespace ∷ other ∷ rest else other ∷ later

abbrev pub deepest_first : Dict (List String) → List (List String)
deepest_first [] = []
deepest_first ((key, namespace) ∷ open_) = insert_deep namespace (deepest_first open_)

abbrev pub closing_event : List String → ChannelEvent
closing_event namespace = event "lifecycle" (obj (field "event" (text "completed") end)) namespace

abbrev named_graph : Option String → Option String
named_graph none = none
named_graph (some name) = if str_eq name "" then none else some name

-- `error` goes to the end of the record that `_root_lifecycle` builds.
abbrev pub root_fields : String → Option String → Option Json → Json
root_fields status graph error = obj (
    field "event" (text status)
      (add_text "graph_name" (named_graph graph) (add_given "error" error end)))

abbrev pub root_lifecycle : String → State → Json
root_lifecycle status st = root_fields status st.current_graph none

abbrev when_truthy : Json → Option Json
when_truthy v = if truthy v then some v else none

abbrev pub status_of : Json → Option String
status_of (obj payload) = text_field payload "status"
status_of payload = none

abbrev pub message_of : Json → Option Json
message_of (obj payload) = when_truthy (get_or_null payload "message")
message_of payload = none

unfoldable pub lifecycle : String → Json → State → State × List ChannelEvent
lifecycle method payload st =
    let status = if str_eq method "error" then some "error" else status_of payload in
    (
      record st { open_namespaces = [] },
      map closing_event (deepest_first st.open_namespaces)
          ++ event "lifecycle"
              (root_fields (lifecycle_status (or_value status "")) st.current_graph
                (message_of payload))
              []
            ∷ [],
    )

abbrev custom_data : Option String → Json → Fields
custom_data none d = field "payload" d end
custom_data (some name) d = field "name" (text name) (field "payload" d end)

unfoldable pub custom_events : String → Json → List String → List ChannelEvent
custom_events method d namespace =
    event "custom" (obj (custom_data (strip_prefix "custom:" method) d)) namespace ∷ []

abbrev pub is_custom : String → Bool
is_custom method = elim (strip_prefix "custom:" method) [
  | some name ↦ true
  | none ↦ str_eq method "custom"
]

-- `payload.get("params", {})`; a producer's `params` is a record, and its `namespace` a list of texts.
abbrev params_of : Json → Fields
params_of (obj payload) = or_value (dict_of (get payload "params")) end
params_of payload = end

abbrev namespace_of : Fields → List String
namespace_of params = or_value (texts_in (list_of (get params "namespace"))) []

module _ (loads : String → Option Json) where
  abbrev pub native_events :
      String → Json → Option Json → List String → State → State × List ChannelEvent
  native_events method d interrupts namespace st =
      if str_eq method "values"
      then values_events loads d interrupts namespace st
      else if str_eq method "updates"
      then updates_events loads d namespace st
      else if str_eq method "lifecycle"
      then native_lifecycle_events d namespace st
      else if is_custom method
      then (st, custom_events method d namespace)
      else (st, event method (obj (as_values d)) namespace ∷ [])

  unfoldable pub channel_events : String → Json → State → State × List ChannelEvent
  channel_events method payload st =
      let params = params_of payload in
      if str_eq method "end" || str_eq method "error"
      then lifecycle method payload st
      else native_events method (get_or_null params "data") (get params "interrupts")
          (namespace_of params) st
