-- ===== src/Broker.antt =====
-- `usecase/streaming/broker.py`: the in-memory broker of one run. Every subscriber has a queue of its
-- own, and events are kept for replay. An `asyncio.Queue` object is told by a number.
pub mod Log
pub mod Delivery
pub mod Drain
pub mod Replay
pub mod Manager
use fastapi_langgraph_templa.Base.{
  ℕ, zero, suc, ◌+◌, ◌-◌, String, Bool, true, false, ◌&&◌, Option, none, some, List, [], ◌∷◌, ◌++◌,
  str_eq, ◌==◌, if◌then◌else◌, all, is_none,
}
use fastapi_langgraph_templa.Base.Json.{Json}

-- What is put: mostly a tuple of an event's name and its body.
pub data Payload : Type 0 where
  tuple : String → Json → Payload
  raw : Json → Payload

-- `isinstance(payload, tuple) and len(payload) >= 1 and payload[0] == "end"`
abbrev pub is_end_payload : Payload → Bool
is_end_payload (tuple name body) = str_eq name "end"
is_end_payload (raw body) = false

abbrev pub Event : Type 0
Event = String × Payload

abbrev pub is_end : Event → Bool
is_end (event_id, payload) = is_end_payload payload

abbrev pub Queues : Type 0
Queues = List (ℕ × List Event)

pub record RunBroker : Type 0 where
  pub finished : Bool
  pub replay_buffer : List Event
  pub subscribers : Queues
  pub created_at : ℕ
  pub finished_at : Option ℕ

unfoldable pub new : ℕ → RunBroker
new now = record {
  finished = false;
  replay_buffer = [];
  subscribers = [];
  created_at = now;
  finished_at = none;
}

unfoldable pub mark_finished : ℕ → RunBroker → RunBroker
mark_finished now b = if b.finished then b else record b { finished_at = some now; finished = true }

-- `queue.put_nowait` on every queue.
abbrev pub put_all : Event → Queues → Queues
put_all e [] = []
put_all e ((i, q) ∷ qs) = (i, q ++ e ∷ []) ∷ put_all e qs

unfoldable pub put : ℕ → Event → Bool → RunBroker → RunBroker
unfolding mark_finished
put now e resumable b =
    if b.finished
    then b
    else let stored = record b {
      replay_buffer = (if resumable then b.replay_buffer ++ e ∷ [] else b.replay_buffer);
      subscribers = put_all e b.subscribers;
    } in
      if is_end e then mark_finished now stored else stored

-- The queue of a subscriber, a change of it, and `_subscribers.discard`.
abbrev pub queue_of : ℕ → Queues → Option (List Event)
queue_of i [] = none
queue_of i ((j, q) ∷ qs) = if j == i then some q else queue_of i qs

abbrev pub set_queue : ℕ → List Event → Queues → Queues
set_queue i q [] = []
set_queue i q ((j, p) ∷ qs) = (if j == i then (j, q) else (j, p)) ∷ set_queue i q qs

abbrev pub discard : ℕ → Queues → Queues
discard i [] = []
discard i ((j, q) ∷ qs) = let rest = discard i qs in if j == i then rest else (j, q) ∷ rest

-- A call of `aiter`: its queue, what is left of the backlog, what it has yielded, and whether it is
-- over.
pub record Reader : Type 0 where
  pub queue : ℕ
  pub backlog : List Event
  pub got : List Event
  pub done : Bool

-- The head of `aiter`: the queue is registered and the buffer copied with no wait in between.
unfoldable pub subscribe : ℕ → RunBroker → RunBroker × Reader
subscribe i b = (
  record b { subscribers = (i, []) ∷ b.subscribers },
  record { queue = i; backlog = b.replay_buffer; got = []; done = false },
)

-- After a yield the reader goes on, or ends at an end event and gives up its queue.
abbrev pub after_yield : Event → Reader → RunBroker → RunBroker × Reader
after_yield e r b =
    if is_end e
    then (record b { subscribers = discard r.queue b.subscribers }, record r { done = true })
    else (b, r)

-- One round of the `while` loop on the queue; an empty queue is the timeout.
abbrev pub take : Option (List Event) → Reader → RunBroker → RunBroker × Reader
take (some (e ∷ q)) r b =
    after_yield e (record r { got = r.got ++ e ∷ [] })
      (record b { subscribers = set_queue r.queue q b.subscribers })
take _ r b =
    if b.finished
    then (record b { subscribers = discard r.queue b.subscribers }, record r { done = true })
    else (b, r)

abbrev pub read_from : List Event → Reader → RunBroker → RunBroker × Reader
read_from (e ∷ es) r b = after_yield e (record r { backlog = es; got = r.got ++ e ∷ [] }) b
read_from [] r b = take (queue_of r.queue b.subscribers) r b

-- One round of `aiter`, in the backlog first.
unfoldable pub read : Reader → RunBroker → RunBroker × Reader
read r b = if r.done then (b, r) else read_from r.backlog r b

-- The events after the first one with the given id.
abbrev pub after : String → List Event → Option (List Event)
after id [] = none
after id ((i, p) ∷ es) = if str_eq i id then some es else after id es

abbrev pub or_all : List Event → Option (List Event) → List Event
or_all all_events none = all_events
or_all all_events (some es) = es

unfoldable pub replay : Option String → RunBroker → List Event
replay none b = b.replay_buffer
replay (some id) b = or_all b.replay_buffer (after id b.replay_buffer)

abbrev pub is_empty_queue : List Event → Bool
is_empty_queue [] = true
is_empty_queue (e ∷ es) = false

-- `is_empty`: no subscriber has anything waiting.
unfoldable pub is_empty : RunBroker → Bool
is_empty b = all (λ s. is_empty_queue s.1) b.subscribers

unfoldable pub get_finished_age : ℕ → RunBroker → Option ℕ
get_finished_age now b = elim b.finished_at [ none ↦ none | some t ↦ some (now - t) ]
