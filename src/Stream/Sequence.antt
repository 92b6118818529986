-- ===== src/Stream/Sequence.antt =====
-- `usecase/streaming/v2/session.py`: the numbers of the envelopes of a stream.
use fastapi_langgraph_templa.Base.{
  ℕ, suc, ◌<◌, ◌≤◌, String, true, ◌≡◌, refl, Option, List, [], ◌∷◌, ◌++◌, ◌<>◌, Option-cases, inl,
  inr, if-cases, if◌then◌else◌, ◌||◌, all, arith, str_eq,
}
use fastapi_langgraph_templa.Base.Json.{Json, Fields, obj, text_field}
use fastapi_langgraph_templa.Broker.{Event}
use fastapi_langgraph_templa.Stream.Session.{
  Session, State, ChannelEvent, Envelope, emit, emit_from, build_event, admits,
}
use fastapi_langgraph_templa.Stream.Events.{
  channel_events, values_events, updates_events, native_lifecycle_events, is_custom, subgraph_event,
  lifecycle, event, root_lifecycle,
}
use fastapi_langgraph_templa.Stream.Induction.{drain_events-by}
use fastapi_langgraph_templa.Stream.Drain.{
  Part, nothing, ◌then◌, RunEvents, unwrap, project, project_known, drain_run, drain_all,
  root_running, reset, Poll, Loop, round, stream, fresh_runs,
}

-- The numbers of the envelopes go up strictly from one bound to another.
abbrev pub Ascends : ℕ → List Envelope → ℕ → Type 0
Ascends n [] m = n ≤ m
Ascends n (e ∷ es) m = (n < e.seq) × Ascends e.seq es m

Ascends-weaken : (n k : ℕ) (es : List Envelope) (m : ℕ) → n ≤ k → Ascends k es m → Ascends n es m
Ascends-weaken n k [] m h a = omega (arith, h, a)
Ascends-weaken n k (e ∷ es) m h (less, a) = (omega (arith, h, less), a)

Ascends-append :
    (n k m : ℕ) (es fs : List Envelope) → Ascends n es k → Ascends k fs m → Ascends n (es ++ fs) m
Ascends-append n k m [] fs a b = Ascends-weaken n k fs m a b
Ascends-append n k m (e ∷ es) fs (less, a) b = (less, Ascends-append e.seq k m es fs a b)

-- A part of the stream that numbers upwards from the state's number to the next state's.
abbrev Counts : Part → Type 0
Counts p = (st : State) → Ascends st.seq (p st).1 (p st).0.seq

then-Counts : (p q : Part) → Counts p → Counts q → Counts (p then q)
then-Counts p q hp hq st = Ascends-append _ _ _ _ _ (hp st) (hq (p st).0)

nothing-Counts : Counts nothing
nothing-Counts st = omega arith

module _ (loads : String → Option Json) where
  -- No event of a broker changes the number.
  KeepsSeq : State → State × List ChannelEvent → Type 0
  KeepsSeq st r = r.0.seq ≡ st.seq

  subgraph_event-seq :
      (name : String) (d : Fields) (namespace : List String) (st : State)
      → KeepsSeq st (subgraph_event name d namespace st)
  unfolding KeepsSeq
  subgraph_event-seq name d [] st = refl
  subgraph_event-seq name d (segment ∷ rest) st = refl

  native_lifecycle_events-seq :
      (d : Json) (namespace : List String) (st : State)
      → KeepsSeq st (native_lifecycle_events d namespace st)
  unfolding native_lifecycle_events KeepsSeq
  native_lifecycle_events-seq (obj d) namespace st = elim (Option-cases (text_field d "event")) [
    | inl e ↦ rw (e, native_lifecycle_events) refl
    | inr (name, e) ↦ rw (e, native_lifecycle_events) (subgraph_event-seq name d _ st)
  ]
  native_lifecycle_events-seq d namespace st = refl

  updates_events-seq :
      (d : Json) (namespace : List String) (st : State)
      → KeepsSeq st (updates_events loads d namespace st)
  unfolding updates_events KeepsSeq
  updates_events-seq (obj d) namespace st = refl
  updates_events-seq d namespace st = refl

  pub channel_events-seq :
      (method : String) (payload : Json) (st : State)
      → (channel_events loads method payload st).0.seq ≡ st.seq
  unfolding channel_events values_events lifecycle KeepsSeq
  channel_events-seq method payload st =
      if-cases (KeepsSeq st) (str_eq method "end" || str_eq method "error") refl (
        if-cases (KeepsSeq st) (str_eq method "values") refl (
          if-cases (KeepsSeq st) (str_eq method "updates") (updates_events-seq _ _ st) (
            if-cases (KeepsSeq st) (str_eq method "lifecycle") (native_lifecycle_events-seq _ _ st)
              (if-cases (KeepsSeq st) (is_custom method) refl refl))))

all-true : (es : List Event) → all (λ e. true) es ≡ true
all-true [] = refl
all-true (e ∷ es) = all-true es

module _ (loads : String → Option Json) (s : Session) where
  emit_from-Counts :
      (id : String) (index : ℕ) (es : List ChannelEvent) → Counts (emit_from s id index es)
  unfolding build_event
  emit_from-Counts id index [] st = omega arith
  emit_from-Counts id index (e ∷ es) st =
      let ih = emit_from-Counts id (suc index) es (record st { seq = suc st.seq }) in
      if-cases (λ out. Ascends st.seq out (emit_from s id index (e ∷ es) st).0.seq)
        (admits s (build_event e (suc st.seq) (id, index))) (omega arith, ih)
        (Ascends-weaken _ _ _ _ (omega arith) ih)

  project-Counts : (e : Event) → Counts (project loads s e)
  unfolding project project_known emit
  project-Counts (id, payload) st = elim (Option-cases (unwrap payload)) [
    | inl none_ ↦ rw none_ (nothing-Counts st)
    | inr ((method, d), some_) ↦
        let (next, events) = channel_events loads method d st in
        rw some_ (
          Ascends-weaken _ _ _ _ (omega (arith, channel_events-seq loads method d st))
            (emit_from-Counts id 0 events next))
  ]

  root_running-Counts : (id : String) → Counts (root_running loads s id)
  unfolding emit
  root_running-Counts id st =
      emit_from-Counts (id <> ":running") 0
        (event "lifecycle" (root_lifecycle "running" st) [] ∷ []) st

  drain_run-Counts : (run : RunEvents) → Counts (drain_run loads s run)
  unfolding drain_run
  drain_run-Counts run st =
      drain_events-by loads s Counts (λ e. true) nothing-Counts then-Counts root_running-Counts
        (λ e h. project-Counts e) run (all-true run.replayed) (all-true run.tail) refl
        (reset run.graph_name st)

  drain_all-Counts : (runs : List RunEvents) → Counts (drain_all loads s runs)
  drain_all-Counts [] = nothing-Counts
  drain_all-Counts (run ∷ runs) =
      then-Counts (drain_run loads s run) (drain_all loads s runs) (drain_run-Counts run)
        (drain_all-Counts runs)

  -- Over any polls, the envelopes of a session have strictly increasing numbers, all greater than the
  -- one that the session started with and none greater than the one it ends with
  -- (`applied_through_seq`).
  pub stream-Ascends :
      (polls : List Poll) (loop : Loop) (st : State)
      → Ascends st.seq (stream loads s polls loop st).1.1 (stream loads s polls loop st).1.0.seq
  unfolding stream round
  stream-Ascends [] loop st = omega arith
  stream-Ascends (poll ∷ polls) loop st =
      let (loop', (st', envelopes)) = round loads s poll loop st in
      let first = drain_all-Counts (fresh_runs loop.drained poll.runs) st in
      if-cases (λ (r : Loop × (State × List Envelope)). Ascends st.seq r.1.1 r.1.0.seq)
        loop'.finished first (Ascends-append _ _ _ _ _ first (stream-Ascends polls loop' st'))
