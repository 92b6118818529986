-- ===== src/Tests/Stream.antt =====
-- A run that opens a subgraph, is interrupted twice with the same id, and is cut off.
use fastapi_langgraph_templa.Base.{
  ℕ, String, true, false, ◌≡◌, refl, Option, none, some, List, [], ◌∷◌, arith, map, ◌≤◌, select,
  contains, ltb, str_eq, if◌then◌else◌,
}
use fastapi_langgraph_templa.Base.Dict.{insert, remove}
use fastapi_langgraph_templa.Base.Json.{Json, num, text, arr, obj, Items, nil, cons, end, field}
use fastapi_langgraph_templa.Broker.{Event, tuple, raw}
use fastapi_langgraph_templa.Stream.Messages.{normalize_state_payload, is_state_message, message_or}
use fastapi_langgraph_templa.Stream.Session.{
  Session, Envelope, emit, build_event, admits, wants, wants_namespace, is_seen, prefix_matches,
}
use fastapi_langgraph_templa.Stream.Events.{
  channel_events, native_lifecycle_events, updates_events, input_request_events, values_events,
  dedupe_requests, coerce_interrupts, has_state, lifecycle, custom_events,
}
use fastapi_langgraph_templa.Stream.Interrupts.{
  strip_interrupts, normalize_input_requested, lifecycle_status, normalize_updates,
}
use fastapi_langgraph_templa.Stream.Drain.{
  RunEvents, Poll, drain_run, drain_all, stream, project, project_known, forward, initial, start,
}
use fastapi_langgraph_templa.Stream.Reconnect.{
  seen_by, drain_all-seen_by, admits_more, drain_all-resume, resume, fresh,
}
use fastapi_langgraph_templa.Stream.Sequence.{Ascends, stream-Ascends}
use fastapi_langgraph_templa.Stream.Requests.{drain_run_asks_once, times}
use fastapi_langgraph_templa.Stream.Subgraphs.{drain_run_closes, view, HearsLifecycle}
use fastapi_langgraph_templa.Stream.Payloads.{has_interrupt, has_interrupt-normalize_state_payload}

-- The arguments `{}` are JSON, others are not.
abbrev loads : String → Option Json
loads s = if str_eq s "{}" then some (obj end) else none

abbrev path : List String → Items
path [] = nil
path (s ∷ ss) = cons (text s) (path ss)

abbrev session : Session
session = record {
  channels = "lifecycle" ∷ "updates" ∷ "values" ∷ "input" ∷ [];
  since = none;
  namespaces = none;
  depth = none;
  idle_grace = 30;
}

abbrev interrupt : Json
interrupt = obj (field "id" (text "i1") (field "value" (num 7) end))

abbrev native : Json → List String → Json
native d namespace =
    obj (field "params" (obj (field "data" d (field "namespace" (arr (path namespace)) end))) end)

abbrev started : Event
started = ("e1", tuple "lifecycle" (native (obj (field "event" (text "started") end)) ("a:1" ∷ [])))

abbrev update : Event
update =
    ("e2", tuple "updates" (native (obj (field "__interrupt__" (arr (cons interrupt nil)) end)) []))

abbrev snapshot : Event
snapshot = (
  "e3",
  raw (
      arr (
        cons (text "values") (
          cons
            (native (obj (field "__interrupt__" (arr (cons interrupt nil)) (field "n" (num 1) end)))
              [])
            nil))),
)

abbrev run : RunEvents
run = record {
  run_id = "r";
  run_status = some "interrupted";
  graph_name = some "g";
  replayed = started ∷ update ∷ snapshot ∷ [];
  tail = [];
}

abbrev poll : Poll
poll = record { runs = run ∷ []; now = 4 }

-- Root, subgraph, request, values, the end of the subgraph and that of the run.
methods :
    map (λ e. e.method) (drain_run loads session run initial).1
    ≡ "lifecycle" ∷ "lifecycle" ∷ "input.requested" ∷ "values" ∷ "lifecycle" ∷ "lifecycle" ∷ []
unfolding drain_run emit admits wants build_event wants_namespace is_seen forward project
    project_known channel_events native_lifecycle_events updates_events input_request_events
    normalize_input_requested values_events strip_interrupts dedupe_requests coerce_interrupts
    has_state normalize_state_payload is_state_message message_or lifecycle lifecycle_status insert
    remove normalize_updates custom_events
methods = refl

prefixes :
    (prefix_matches ("node:12" ∷ "b" ∷ []) ("node" ∷ []) ≡ true)
    × (prefix_matches ("node:12" ∷ []) ("node:13" ∷ []) ≡ false)
prefixes = (refl, refl)

-- A client that comes back with the number 3, and one that wants the values only.
abbrev values_only : Session
values_only = record session { channels = "values" ∷ [] }

drain_all-resume_example : drain_all loads (resume session 3) (run ∷ []) initial ≡ (
  (drain_all loads (fresh session) (run ∷ []) initial).0,
  select (λ e. ltb 3 e.seq) (drain_all loads (fresh session) (run ∷ []) initial).1,
)
drain_all-resume_example = drain_all-resume loads session 3 (run ∷ []) initial

channels_covered :
    (c : String)
    → contains ("values" ∷ []) c ≡ true
    → contains ("lifecycle" ∷ "updates" ∷ "values" ∷ "input" ∷ []) c ≡ true
channels_covered c h = ground arith

values_covered : (e : Envelope) → admits values_only e ≡ true → admits session e ≡ true
values_covered = admits_more values_only session.channels channels_covered

drain_all-seen_by_example :
    drain_all loads values_only (run ∷ []) initial
    ≡ seen_by values_only (drain_all loads session (run ∷ []) initial)
drain_all-seen_by_example =
    drain_all-seen_by loads values_only session values_covered (run ∷ []) initial

stream-Ascends_example :
    Ascends 0
      (stream loads session (poll ∷ []) start initial).1.1
      (stream loads session (poll ∷ []) start initial).1.0.seq
stream-Ascends_example = stream-Ascends loads session (poll ∷ []) start initial

drain_run_asks_once_example : times "i1" (drain_run loads session run initial).1 ≤ 1
drain_run_asks_once_example = drain_run_asks_once loads session run initial "i1" refl refl

session-HearsLifecycle : HearsLifecycle session
session-HearsLifecycle = record {
  subscribed = refl;
  from_start = refl;
  any_namespace = refl;
  any_depth = refl;
}

drain_run_closes_example : view (drain_run loads session run initial).1 [] ≡ []
drain_run_closes_example = drain_run_closes loads session run initial session-HearsLifecycle refl

abbrev calls : Items
calls =
    cons (obj (field "name" (text "f") (field "args" (text "{}") end)))
      (cons (num 3) (cons (obj (field "name" (text "g") (field "args" (text "{") end))) nil))

abbrev state : Json
state = obj (
    field "messages" (arr (cons (obj (field "type" (text "user") end)) nil))
      (field "inner" (obj (field "__interrupt__" (num 1) end)) end))

has_interrupt-normalize_state_payload_example :
    has_interrupt (normalize_state_payload loads state) ≡ false
has_interrupt-normalize_state_payload_example = has_interrupt-normalize_state_payload loads state

abbrev quiet_poll : ℕ → Poll
quiet_poll now = record { runs = run ∷ []; now = now }
