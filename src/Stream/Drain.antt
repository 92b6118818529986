-- ===== src/Stream/Drain.antt =====
-- `usecase/streaming/v2/session.py`: one run's events, and the loop over the runs of the thread. What
-- a broker replays and what its subscription brings then are lists; an exhausted list is the end of
-- what has come so far.
use fastapi_langgraph_templa.Base.{
  ℕ, ◌+◌, String, Bool, true, false, not, ◌&&◌, ◌||◌, Option, none, some, List, [], ◌∷◌, ◌++◌, map,
  any, select, contains, str_eq, leb, ◌<>◌, if◌then◌else◌,
}
use fastapi_langgraph_templa.Base.Json.{Json, null, text, arr, obj, nil, cons, end, field}
use fastapi_langgraph_templa.Broker.{Event, Payload, tuple, raw}
use fastapi_langgraph_templa.Stream.Session.{Session, State, Envelope, emit}
use fastapi_langgraph_templa.Stream.Events.{event, channel_events, root_lifecycle}

-- A name of the event that is no text, which no producer writes, counts as unknown.
abbrev pub unwrap : Payload → Option (String × Json)
unwrap (tuple method payload) = some (method, payload)
unwrap (raw (arr (cons (text method) (cons payload nil)))) = some (method, payload)
unwrap _ = none

abbrev is_final : Option (String × Json) → Bool
is_final none = false
is_final (some (method, payload)) = str_eq method "end" || str_eq method "error"

abbrev pub is_terminal : Event → Bool
is_terminal (id, payload) = is_final (unwrap payload)

-- A part of the stream: from a state to the next one, with the envelopes it yields.
abbrev pub Part : Type 0
Part = State → State × List Envelope

abbrev pub nothing : Part
nothing st = (st, [])

infixr 5 ◌then◌
abbrev pub ◌then◌ : Part → Part → Part
(first then second) st =
    let (next, envelopes) = first st in let (last, more) = second next in (last, envelopes ++ more)

-- A run as the lister tells it, with what its broker holds when the session comes to it.
pub record RunEvents : Type 0 where
  pub run_id : String
  pub run_status : Option String
  pub graph_name : Option String
  pub replayed : List Event
  pub tail : List Event

abbrev pub is_terminal_status : Option String → Bool
is_terminal_status none = false
is_terminal_status (some status) =
    contains ("success" ∷ "error" ∷ "timeout" ∷ "interrupted" ∷ []) status

abbrev pub nothing_replayed : List Event → Bool
nothing_replayed [] = true
nothing_replayed (e ∷ es) = false

-- The bookkeeping of a run, cleared at its start.
abbrev pub reset : Option String → State → State
reset graph_name st = record st {
  sent_interrupts = [];
  current_graph = graph_name;
  open_namespaces = [];
}

abbrev pub unseen : List Event → List Event → List Event
unseen replayed tail = select (λ e. not (contains (map (λ r. r.0) replayed) e.0)) tail

-- `{"status": run_status}`
abbrev pub status_end : Option String → Payload
status_end none = tuple "end" (obj (field "status" null end))
status_end (some status) = tuple "end" (obj (field "status" (text status) end))

module _ (loads : String → Option Json) (s : Session) where
  unfoldable pub project_known : String → Option (String × Json) → Part
  project_known id none st = (st, [])
  project_known id (some (method, payload)) st =
      let (next, events) = channel_events loads method payload st in emit s events id next

  unfoldable pub project : Event → Part
  project (id, payload) st = project_known id (unwrap payload) st

  -- The events up to the first terminal one.
  unfoldable pub forward : List Event → Part
  forward [] = nothing
  forward (e ∷ es) =
      let rest = forward es in project e then (if is_terminal e then nothing else rest)

  abbrev pub root_running : String → Part
  root_running run_id st =
      emit s (event "lifecycle" (root_lifecycle "running" st) [] ∷ []) (run_id <> ":running") st

  -- What follows the replay: nothing after a terminal event, a made-up end for a run that is over,
  -- and else the events of the subscription.
  abbrev pub after_replay : RunEvents → Part
  after_replay run =
      if any is_terminal run.replayed
      then nothing
      else if is_terminal_status run.run_status
      then project (run.run_id <> ":status-end", status_end run.run_status)
      else forward (unseen run.replayed run.tail)

  abbrev pub drain_events : RunEvents → Part
  drain_events run = root_running run.run_id then forward run.replayed then after_replay run

  unfoldable pub drain_run : RunEvents → Part
  drain_run run st =
      (if is_terminal_status run.run_status && nothing_replayed run.replayed
          then nothing
          else drain_events run)
        (reset run.graph_name st)

  abbrev pub drain_all : List RunEvents → Part
  drain_all [] = nothing
  drain_all (run ∷ runs) = drain_run run then drain_all runs

-- A poll: the runs that the lister answers, and the time on the clock after they are drained.
pub record Poll : Type 0 where
  pub runs : List RunEvents
  pub now : ℕ

abbrev pub fresh_runs : List String → List RunEvents → List RunEvents
fresh_runs drained runs = select (λ run. not (contains drained run.run_id)) runs

abbrev pub progressed : List Envelope → Bool
progressed [] = false
progressed (e ∷ es) = true

-- What the loop keeps beside the session's state.
pub record Loop : Type 0 where
  pub drained : List String
  pub idle_deadline : Option ℕ
  pub finished : Bool

-- The end of a round without progress: the deadline is set, or reached, or waited for.
abbrev pub idle : ℕ → ℕ → Loop → Loop
idle grace now loop = elim loop.idle_deadline [
  | none ↦ record loop { idle_deadline = some (now + grace) }
  | some deadline ↦ if leb deadline now then record loop { finished = true } else loop
]

module _ (loads : String → Option Json) (s : Session) where
  abbrev pub round_of : List RunEvents → ℕ → Loop → State → Loop × (State × List Envelope)
  round_of runs now loop st =
      let (next, envelopes) = drain_all loads s runs st in
      let marked = record loop { drained = map (λ run. run.run_id) runs ++ loop.drained } in
      (
        if progressed envelopes
            then record marked { idle_deadline = none }
            else idle s.idle_grace now marked,
        (next, envelopes),
      )

  -- A round of the loop: the runs that are fresh at its start are drained in order.
  unfoldable pub round : Poll → Loop → State → Loop × (State × List Envelope)
  round poll loop st = round_of (fresh_runs loop.drained poll.runs) poll.now loop st

  -- `stream` over the polls, up to the round in which it returns.
  unfoldable pub stream : List Poll → Loop → State → Loop × (State × List Envelope)
  stream [] loop st = (loop, (st, []))
  stream (poll ∷ polls) loop st =
      let (loop', (st', envelopes)) = round poll loop st in
      let (last, (st'', more)) = stream polls loop' st' in
      if loop'.finished then (loop', (st', envelopes)) else (last, (st'', envelopes ++ more))

-- `__init__`
abbrev pub initial : State
initial = record { seq = 0; sent_interrupts = []; current_graph = none; open_namespaces = [] }

abbrev pub start : Loop
start = record { drained = []; idle_deadline = none; finished = false }
