-- ===== src/Stream/Requests.antt =====
-- `usecase/streaming/v2/session.py`: how often the stream of one run asks the client for an input.
use fastapi_langgraph_templa.Base.{
  ℕ, suc, ◌+◌, ◌≤◌, String, Bool, true, false, not, ◌≡◌, refl, Option, none, some, List, [], ◌∷◌,
  ◌++◌, ◌<>◌, Option-cases, inl, inr, if-cases, if◌then◌else◌, ◌&&◌, ◌||◌, all, arith, str_eq, map,
  is_text, length, select, contains, length-append, select-append, eq_iff,
}
use fastapi_langgraph_templa.Base.Json.{Json, Fields, obj, text_field, list_of, without}
use fastapi_langgraph_templa.Broker.{Event}
use fastapi_langgraph_templa.Stream.Session.{
  Session, State, ChannelEvent, Envelope, emit, emit_from, build_event,
}
use fastapi_langgraph_templa.Stream.Events.{
  channel_events, values_events, updates_events, native_lifecycle_events, is_custom, subgraph_event,
  lifecycle, event, root_lifecycle, input_request_events, with_requests, closing_event,
  custom_events, has_state, all_requests, top_requests, nested_requests, is_only_interrupt,
  deepest_first,
}
use fastapi_langgraph_templa.Stream.Interrupts.{strip_interrupts}
use fastapi_langgraph_templa.Stream.Induction.{drain_events-by}
use fastapi_langgraph_templa.Stream.Drain.{
  Part, nothing, ◌then◌, RunEvents, unwrap, project, project_known, drain_run, root_running, reset,
  status_end,
}

abbrev id_of : Json → Option String
id_of (obj d) = text_field d "interrupt_id"
id_of d = none

-- A request for the input that an interrupt with the given id waits for.
abbrev asks : String → String → Json → Bool
asks id method d = str_eq method "input.requested" && is_text (id_of d) id

abbrev pub asks_for : String → Envelope → Bool
asks_for id e = asks id e.method e.data_

abbrev asking : String → ChannelEvent → Bool
asking id e = asks id e.method e.data_

abbrev pub times : String → List Envelope → ℕ
times id envelopes = length (select (asks_for id) envelopes)

-- An event whose own name is that of the requests, which only this session gives.
abbrev is_request : Option (String × Json) → Bool
is_request none = false
is_request (some (method, payload)) = str_eq method "input.requested"

abbrev pub is_plain : Event → Bool
is_plain (id, payload) = not (is_request (unwrap payload))

one_if : Bool → ℕ
one_if b = if b then 1 else 0

module _ (id : String) where
  asked : List ChannelEvent → ℕ
  asked es = length (select (asking id) es)

  sent_once : List String → ℕ
  sent_once sent = one_if (contains sent id)

  input_request_events-asked :
      (requests : List Fields) (namespace : List String) (sent : List String)
      → sent_once sent + asked (input_request_events requests namespace sent).1
        ≤ sent_once (input_request_events requests namespace sent).0
  unfolding input_request_events asked sent_once one_if
  input_request_events-asked [] namespace sent = ground arith
  input_request_events-asked (request ∷ requests) namespace sent =
      elim (Option-cases (text_field request "interrupt_id")) [
        | inl e ↦ rw e (ground (arith, input_request_events-asked requests namespace sent))
        | inr (i, e) ↦ rw e (
            ground (
              arith,
              eq_iff i id,
              input_request_events-asked requests namespace sent,
              input_request_events-asked requests namespace (i ∷ sent),
            ))
      ]

  asked-append : (es fs : List ChannelEvent) → asked (es ++ fs) ≡ asked es + asked fs
  unfolding asked
  asked-append es fs = rw (select-append (asking id) es fs) (length-append _ _)

  asked-closing : (ns : List (List String)) → asked (map closing_event ns) ≡ 0
  unfolding asked
  asked-closing [] = refl
  asked-closing (n ∷ ns) = asked-closing ns

  -- What a step adds to the ids that were sent covers what it asks for.
  Fits : State → State × List ChannelEvent → Type 0
  Fits st r = sent_once st.sent_interrupts + asked r.1 ≤ sent_once r.0.sent_interrupts

  Fits-same :
      (st st' : State) (es : List ChannelEvent)
      → st'.sent_interrupts ≡ st.sent_interrupts
      → asked es ≡ 0
      → Fits st (st', es)
  unfolding Fits
  Fits-same st st' es h k = rw (h, k) (omega arith)

  Fits-then_plain :
      (st st' : State) (es fs : List ChannelEvent)
      → Fits st (st', es)
      → asked fs ≡ 0
      → Fits st (st', es ++ fs)
  unfolding Fits
  Fits-then_plain st st' es fs h k = rw (asked-append es fs) (omega (arith, h, k))

  with_requests-Fits :
      (requests : List Fields) (namespace : List String) (st : State)
      → Fits st (with_requests requests namespace st)
  unfolding Fits
  with_requests-Fits requests namespace st =
      input_request_events-asked requests namespace st.sent_interrupts

  subgraph_event-Fits :
      (name : String) (d : Fields) (namespace : List String) (st : State)
      → Fits st (subgraph_event name d namespace st)
  unfolding asked
  subgraph_event-Fits name d [] st = Fits-same st st [] refl refl
  subgraph_event-Fits name d (segment ∷ rest) st = Fits-same st _ _ refl refl

  native_lifecycle_events-Fits :
      (d : Json) (namespace : List String) (st : State)
      → Fits st (native_lifecycle_events d namespace st)
  unfolding native_lifecycle_events asked
  native_lifecycle_events-Fits (obj d) namespace st = elim (Option-cases (text_field d "event")) [
    | inl e ↦ rw (e, native_lifecycle_events) (Fits-same st st _ refl refl)
    | inr (name, e) ↦ rw (e, native_lifecycle_events) (subgraph_event-Fits name d _ st)
  ]
  native_lifecycle_events-Fits d namespace st = Fits-same st st _ refl refl

module _ (loads : String → Option Json) (id : String) where
  values_events-Fits :
      (d : Json) (interrupts : Option Json) (namespace : List String) (st : State)
      → Fits id st (values_events loads d interrupts namespace st)
  unfolding values_events asked
  values_events-Fits d interrupts namespace st =
      let requests = all_requests (strip_interrupts d).0 (list_of interrupts) in
      let sent = with_requests-Fits id requests namespace st in
      let (next, events) = with_requests requests namespace st in
      if-cases (λ es. Fits id st (next, es)) (has_state (strip_interrupts d).1)
        (Fits-then_plain id st next events _ sent refl) sent

  updates_events-Fits :
      (d : Json) (namespace : List String) (st : State)
      → Fits id st (updates_events loads d namespace st)
  unfolding updates_events asked
  updates_events-Fits (obj d) namespace st =
      let requests = top_requests loads d ++ nested_requests loads (without "__interrupt__" d) in
      let sent = with_requests-Fits id requests namespace st in
      let (next, events) = with_requests requests namespace st in
      if-cases (λ es. Fits id st (next, es)) (is_only_interrupt loads d) sent
        (Fits-then_plain id st next events _ sent refl)
  updates_events-Fits d namespace st = Fits-same id st st _ refl refl

  channel_events-Fits :
      (method : String) (payload : Json) (st : State)
      → str_eq method "input.requested" ≡ false
      → Fits id st (channel_events loads method payload st)
  unfolding channel_events lifecycle custom_events asked
  channel_events-Fits method payload st h =
      if-cases (Fits id st) (str_eq method "end" || str_eq method "error")
        (let closings = map closing_event (deepest_first st.open_namespaces) in
          Fits-then_plain id st (record st { open_namespaces = [] }) closings _
            (Fits-same id st _ closings refl (asked-closing id (deepest_first st.open_namespaces)))
            refl)
        (if-cases (Fits id st) (str_eq method "values") (values_events-Fits _ _ _ st) (
          if-cases (Fits id st) (str_eq method "updates") (updates_events-Fits _ _ st) (
            if-cases (Fits id st) (str_eq method "lifecycle")
              (native_lifecycle_events-Fits id _ _ st)
              (if-cases (Fits id st) (is_custom method) (Fits-same id st st _ refl refl)
                (Fits-same id st st _ refl (rw h refl))))))

module _ (loads : String → Option Json) (s : Session) (id : String) where
  -- A part of the stream asks only for ids that it adds to those that were sent.
  AsksOnce : Part → Type 0
  AsksOnce p =
      (st : State)
      → sent_once id st.sent_interrupts + times id (p st).1 ≤ sent_once id (p st).0.sent_interrupts

  nothing-AsksOnce : AsksOnce nothing
  unfolding AsksOnce
  nothing-AsksOnce st = omega arith

  then-AsksOnce : (p q : Part) → AsksOnce p → AsksOnce q → AsksOnce (p then q)
  unfolding AsksOnce
  then-AsksOnce p q hp hq st =
      let (next, first) = p st in
      let (last, second) = q next in
      rw (select-append (asks_for id) first second) (
        rw (length-append (select (asks_for id) first) (select (asks_for id) second))
          (omega (arith, hp st, hq next)))

  emit_from-times :
      (event_id : String) (index : ℕ) (es : List ChannelEvent) (st : State)
      → times id (emit_from s event_id index es st).1 ≤ asked id es
  unfolding asked build_event
  emit_from-times event_id index [] st = omega arith
  emit_from-times event_id index (e ∷ es) st =
      ground (arith, emit_from-times event_id (suc index) es (record st { seq = suc st.seq }))

  emit_from-sent :
      (event_id : String) (index : ℕ) (es : List ChannelEvent) (st : State)
      → (emit_from s event_id index es st).0.sent_interrupts ≡ st.sent_interrupts
  emit_from-sent event_id index [] st = refl
  emit_from-sent event_id index (e ∷ es) st = emit_from-sent event_id (suc index) es _

  emit-AsksOnce :
      (event_id : String) (es : List ChannelEvent) (st next : State)
      → Fits id st (next, es)
      → sent_once id st.sent_interrupts + times id (emit s es event_id next).1
        ≤ sent_once id (emit s es event_id next).0.sent_interrupts
  unfolding emit Fits
  emit-AsksOnce event_id es st next h =
      rw (emit_from-sent event_id 0 es next) (omega (arith, h, emit_from-times event_id 0 es next))

  project-AsksOnce : (e : Event) → is_plain e ≡ true → AsksOnce (project loads s e)
  unfolding project project_known AsksOnce
  project-AsksOnce (event_id, payload) plain st = elim (Option-cases (unwrap payload)) [
    | inl e ↦ rw e (nothing-AsksOnce st)
    | inr ((method, d), e) ↦
        let (next, events) = channel_events loads method d st in
        let plain' : str_eq method "input.requested" ≡ false =
          (let p : not (is_request (some (method, d))) ≡ true = rw e at plain in ground arith) in
        rw e
          (emit-AsksOnce event_id events st next (channel_events-Fits loads id method d st plain'))
  ]

  root_running-AsksOnce : (run_id : String) → AsksOnce (root_running loads s run_id)
  unfolding AsksOnce asked
  root_running-AsksOnce run_id st =
      emit-AsksOnce (run_id <> ":running") (event "lifecycle" (root_lifecycle "running" st) [] ∷ [])
        st st (Fits-same id st st _ refl refl)

status_end-plain :
    (run_id : String) (status : Option String) → is_plain (run_id, status_end status) ≡ true
status_end-plain run_id none = refl
status_end-plain run_id (some status) = refl

-- In the stream of one run each interrupt is asked for at most once, whatever the client filters and
-- however often the interrupt surfaces in updates and values, as long as no event that the run's
-- broker replays or brings is itself named `input.requested`.
pub drain_run_asks_once :
    (loads : String → Option Json) (s : Session) (run : RunEvents) (st : State) (id : String)
    → all is_plain run.replayed ≡ true
    → all is_plain run.tail ≡ true
    → times id (drain_run loads s run st).1 ≤ 1
unfolding drain_run AsksOnce sent_once one_if
drain_run_asks_once loads s run st id h k =
    let once =
      drain_events-by loads s (AsksOnce loads s id) is_plain (nothing-AsksOnce loads s id)
        (then-AsksOnce loads s id) (root_running-AsksOnce loads s id) (project-AsksOnce loads s id)
        run h k (status_end-plain run.run_id run.run_status) (reset run.graph_name st) in
    ground (arith, once)
