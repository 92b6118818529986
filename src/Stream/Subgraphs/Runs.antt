-- ===== src/Stream/Subgraphs/Runs.antt =====
-- `usecase/streaming/v2/session.py`: a client that hears all lifecycle events of a run.
use fastapi_langgraph_templa.Base.{
  ℕ, suc, String, Bool, true, false, ◌≡◌, refl, ◌∙◌, Option, none, some, List, [], ◌∷◌, ◌++◌, ◌<>◌,
  Bool-cases, Option-cases, inl, inr, if◌then◌else◌, ◌&&◌, ◌||◌, any, all, arith, str_eq, contains,
  eq_iff,
}
use fastapi_langgraph_templa.Base.Dict.{Dict}
use fastapi_langgraph_templa.Base.Json.{Json}
use fastapi_langgraph_templa.Broker.{Event}
use fastapi_langgraph_templa.Stream.Session.{
  Session, State, ChannelEvent, Envelope, emit, emit_from, build_event, admits, wants,
  wants_namespace, is_seen,
}
use fastapi_langgraph_templa.Stream.Events.{channel_events, lifecycle, event, root_lifecycle}
use fastapi_langgraph_templa.Stream.Drain.{
  Part, nothing, ◌then◌, RunEvents, is_terminal, nothing_replayed, is_terminal_status, unwrap,
  project, project_known, forward, drain_run, root_running, reset, status_end, unseen, after_replay,
  drain_events,
}
use fastapi_langgraph_templa.Stream.Induction.{drain_events-by}
use fastapi_langgraph_templa.Stream.Subgraphs.Closing.{watch, view_events, AreKeyed}
use fastapi_langgraph_templa.Stream.Subgraphs.Steps.{Follows, Follows-same, channel_events-Follows}

-- The view of a client that gets the envelopes, from a view that it had.
abbrev pub view : List Envelope → Dict (List String) → Dict (List String)
view [] open_ = open_
view (e ∷ es) open_ = view es (watch e.method e.data_ e.namespace open_)

view-append :
    (es fs : List Envelope) (open_ : Dict (List String))
    → view (es ++ fs) open_ ≡ view fs (view es open_)
view-append [] fs open_ = refl
view-append (e ∷ es) fs open_ = view-append es fs _

-- The run has ended, as far as the session can tell.
abbrev pub is_over : RunEvents → Bool
is_over run =
    is_terminal_status run.run_status
    || (any is_terminal run.replayed || any is_terminal (unseen run.replayed run.tail))

status_end-terminal :
    (id : String) (status : Option String) → is_terminal (id, status_end status) ≡ true
status_end-terminal id none = refl
status_end-terminal id (some status) = refl

module _ (loads : String → Option Json) (s : Session)
    (hears : (e : Envelope) → str_eq e.method "lifecycle" ≡ true → admits s e ≡ true) where
  emit_from-open :
      (id : String) (index : ℕ) (es : List ChannelEvent) (st : State)
      → (emit_from s id index es st).0.open_namespaces ≡ st.open_namespaces
  emit_from-open id index [] st = refl
  emit_from-open id index (e ∷ es) st = emit_from-open id (suc index) es _

  view-emit_from :
      (id : String) (index : ℕ) (es : List ChannelEvent) (st : State) (open_ : Dict (List String))
      → view (emit_from s id index es st).1 open_ ≡ view_events es open_
  unfolding build_event
  view-emit_from id index [] st open_ = refl
  view-emit_from id index (e ∷ es) st open_ =
      let envelope = build_event e (suc st.seq) (id, index) in
      let rest = view-emit_from id (suc index) es (record st { seq = suc st.seq }) in
      elim (Bool-cases (admits s envelope)) [
        | inl h ↦ rw h (rest _)
        | inr h ↦ rw h (elim (Bool-cases (str_eq e.method "lifecycle")) [
          | inl l ↦ let yes_ = hears envelope l in absurd (cc (h, yes_))
          | inr l ↦ rw l (rest open_)
        ])
      ]

  ViewHolds : Part → Type 0
  ViewHolds p =
      (st : State)
      → AreKeyed st.open_namespaces
      → AreKeyed (p st).0.open_namespaces
        × (view (p st).1 st.open_namespaces ≡ (p st).0.open_namespaces)

  nothing-ViewHolds : ViewHolds nothing
  unfolding ViewHolds
  nothing-ViewHolds st k = (k, refl)

  then-ViewHolds : (p q : Part) → ViewHolds p → ViewHolds q → ViewHolds (p then q)
  unfolding ViewHolds
  then-ViewHolds p q hp hq st k =
      let (next, first) = p st in
      let (k', e) = hp st k in
      let (k'', e') = hq next k' in (k'', view-append first (q next).1 st.open_namespaces ∙ rw e e')

  emit-ViewHolds :
      (id : String) (es : List ChannelEvent) (st next : State)
      → Follows st (next, es)
      → AreKeyed st.open_namespaces
      → AreKeyed (emit s es id next).0.open_namespaces
        × (view (emit s es id next).1 st.open_namespaces ≡ (emit s es id next).0.open_namespaces)
  unfolding emit Follows
  emit-ViewHolds id es st next h k =
      let (k', e) = h k in
      rw (emit_from-open id 0 es next) (k', view-emit_from id 0 es next st.open_namespaces ∙ e)

  project-ViewHolds : (e : Event) → ViewHolds (project loads s e)
  unfolding project project_known ViewHolds
  project-ViewHolds (id, payload) st k = elim (Option-cases (unwrap payload)) [
    | inl e ↦ rw e (k, refl)
    | inr ((method, d), e) ↦
        let (next, events) = channel_events loads method d st in
        rw e (emit-ViewHolds id events st next (channel_events-Follows loads method d st) k)
  ]

  root_running-ViewHolds : (run_id : String) → ViewHolds (root_running loads s run_id)
  unfolding ViewHolds
  root_running-ViewHolds run_id st =
      emit-ViewHolds (run_id <> ":running")
        (event "lifecycle" (root_lifecycle "running" st) [] ∷ []) st st
        (Follows-same st st _ refl refl)

  all-true : (es : List Event) → all (λ e. true) es ≡ true
  all-true [] = refl
  all-true (e ∷ es) = all-true es

  body : RunEvents → Part
  body run =
      if is_terminal_status run.run_status && nothing_replayed run.replayed
      then nothing
      else drain_events loads s run

  body-ViewHolds : (run : RunEvents) → ViewHolds (body run)
  unfolding body
  body-ViewHolds run =
      drain_events-by loads s ViewHolds (λ e. true) nothing-ViewHolds then-ViewHolds
        root_running-ViewHolds (λ e h. project-ViewHolds e) run (all-true run.replayed)
        (all-true run.tail) refl

  -- A client that hears of every lifecycle event and starts a run with no subgraph open holds the same
  -- subgraphs open as the session does.
  pub view-drain_run :
      (run : RunEvents) (st : State)
      → view (drain_run loads s run st).1 [] ≡ (drain_run loads s run st).0.open_namespaces
  unfolding drain_run ViewHolds body
  view-drain_run run st = (body-ViewHolds run (reset run.graph_name st) refl).1

  -- A terminal event leaves no subgraph open in the session.
  project-closes :
      (e : Event) (st : State)
      → is_terminal e ≡ true
      → (project loads s e st).0.open_namespaces ≡ []
  unfolding project project_known emit channel_events lifecycle
  project-closes (id, payload) st h = elim (Option-cases (unwrap payload)) [
    | inl e ↦ let h' = rw e at h in absurd (cc (h'))
    | inr ((method, d), e) ↦
        let h' : (str_eq method "end" || str_eq method "error") ≡ true = rw e at h in
        let (next, events) = channel_events loads method d st in
        rw e (emit_from-open id 0 events next ∙ rw h' refl)
  ]

  forward-closes :
      (es : List Event) (st : State)
      → any is_terminal es ≡ true
      → (forward loads s es st).0.open_namespaces ≡ []
  unfolding forward
  forward-closes [] st h = absurd (cc)
  forward-closes (e ∷ es) st h = elim (Bool-cases (is_terminal e)) [
    | inl t ↦ rw t (project-closes e st t)
    | inr t ↦ rw t (forward-closes es (project loads s e st).0 (ground arith))
  ]

  after_replay-closes :
      (run : RunEvents) (st : State)
      → any is_terminal run.replayed ≡ false
      → is_over run ≡ true
      → (after_replay loads s run st).0.open_namespaces ≡ []
  after_replay-closes run st r h = rw r (elim (Bool-cases (is_terminal_status run.run_status)) [
    | inl t ↦ rw t (
        project-closes (run.run_id <> ":status-end", status_end run.run_status) st
          (status_end-terminal run.run_id run.run_status))
    | inr t ↦ rw t (forward-closes (unseen run.replayed run.tail) st (ground arith))
  ])

  body-closes :
      (run : RunEvents) (st : State)
      → st.open_namespaces ≡ []
      → is_over run ≡ true
      → (body run st).0.open_namespaces ≡ []
  unfolding body
  body-closes run st o h =
      elim (Bool-cases (is_terminal_status run.run_status && nothing_replayed run.replayed)) [
        | inl e ↦ rw e o
        | inr e ↦ rw e (
            let st' = (root_running loads s run.run_id st).0 in
            elim (Bool-cases (any is_terminal run.replayed)) [
              | inl r ↦ rw r (forward-closes run.replayed st' r)
              | inr r ↦ after_replay-closes run (forward loads s run.replayed st').0 r h
            ])
      ]

  pub view-drain_run_ended :
      (run : RunEvents) (st : State)
      → is_over run ≡ true
      → view (drain_run loads s run st).1 [] ≡ []
  unfolding drain_run body
  view-drain_run_ended run st h =
      view-drain_run run st ∙ body-closes run (reset run.graph_name st) refl h

-- A session that subscribes to the lifecycle channel, without filters on the namespace and from the
-- start.
pub record HearsLifecycle (s : Session) : Type 0 where
  pub subscribed : contains s.channels "lifecycle" ≡ true
  pub from_start : s.since ≡ none
  pub any_namespace : s.namespaces ≡ none
  pub any_depth : s.depth ≡ none

wants_any :
    (s : Session) (namespace : List String) → HearsLifecycle s → wants_namespace s namespace ≡ true
unfolding wants_namespace
wants_any s [] h = refl
wants_any s (segment ∷ namespace) h = rw (h.any_depth, h.any_namespace) refl

hears_all :
    (s : Session)
    → HearsLifecycle s
    → (e : Envelope) → str_eq e.method "lifecycle" ≡ true
    → admits s e ≡ true
unfolding admits wants is_seen
hears_all s h e l =
    rw ((eq_iff e.method "lifecycle").0 l, h.subscribed, wants_any s e.namespace h, h.from_start)
      refl

-- Take a client that subscribes to the lifecycle channel without further filters, starts with no
-- subgraph open, and opens and closes subgraphs, told apart by their joined namespaces, by the
-- envelopes that it gets and nothing else. When a run is over, be it by a terminal event, in the replay or after it, or by its
-- stored status, then the client has been told of the end of every subgraph that it was told of, also of
-- those that the producer left open.
pub drain_run_closes :
    (loads : String → Option Json) (s : Session) (run : RunEvents) (st : State)
    → HearsLifecycle s
    → is_over run ≡ true
    → view (drain_run loads s run st).1 [] ≡ []
drain_run_closes loads s run st h over = view-drain_run_ended loads s (hears_all s h) run st over
