-- ===== src/Stream/Reconnect.antt =====
-- `usecase/streaming/v2/session.py`: what a second session sees of the runs that a first one saw.
use fastapi_langgraph_templa.Base.{
  ℕ, suc, String, Bool, true, false, ◌≡◌, refl, sym, ap, ◌∙◌, Option, none, some, List, [], ◌∷◌,
  ◌<>◌, select, select-append, Bool-cases, inl, inr, Option-cases, contains, if◌then◌else◌, ltb,
  ◌&&◌, arith,
}
use fastapi_langgraph_templa.Base.Json.{Json}
use fastapi_langgraph_templa.Broker.{Event}
use fastapi_langgraph_templa.Stream.Session.{
  Session, State, ChannelEvent, Envelope, emit, emit_from, build_event, admits, wants,
  wants_namespace, is_seen, name_of,
}
use fastapi_langgraph_templa.Stream.Events.{channel_events, event, root_lifecycle}
use fastapi_langgraph_templa.Stream.Drain.{
  Part, nothing, ◌then◌, RunEvents, is_terminal, nothing_replayed, is_terminal_status, unwrap,
  project, project_known, forward, drain_run, drain_all, drain_events, after_replay, root_running,
  reset,
}

-- A part of the stream with the envelopes that a session admits.
abbrev pub seen_by : Session → State × List Envelope → State × List Envelope
seen_by s (st, envelopes) = (st, select (admits s) envelopes)

module _ (loads : String → Option Json) (s t : Session)
    (covers : (e : Envelope) → admits s e ≡ true → admits t e ≡ true) where
  select_step :
      (e : Envelope) (es : List Envelope)
      → (if admits s e then e ∷ select (admits s) es else select (admits s) es)
        ≡ select (admits s) (if admits t e then e ∷ es else es)
  select_step e es = elim (Bool-cases (admits s e)) [
    | inl h ↦ rw (h, covers e h) (rw h refl)
    | inr h ↦ elim (Bool-cases (admits t e)) [
      | inl k ↦ rw (h, k) (rw h refl)
      | inr k ↦ rw (h, k) refl
    ]
  ]

  emit_from-seen_by :
      (id : String) (index : ℕ) (es : List ChannelEvent) (st : State)
      → emit_from s id index es st ≡ seen_by s (emit_from t id index es st)
  emit_from-seen_by id index [] st = refl
  emit_from-seen_by id index (e ∷ es) st =
      rw (emit_from-seen_by id (suc index) es (record st { seq = suc st.seq })) (
        ap (λ out. ((emit_from t id (suc index) es (record st { seq = suc st.seq })).0, out))
          (select_step (build_event e (suc st.seq) (id, index)) _))

  then-seen_by :
      (p p' q q' : Part)
      → ((st : State) → p st ≡ seen_by s (p' st))
      → ((st : State) → q st ≡ seen_by s (q' st))
      → (st : State) → (p then q) st ≡ seen_by s ((p' then q') st)
  then-seen_by p p' q q' hp hq st = rw (hp st) (
      rw (hq (p' st).0) (
        ap (λ out. ((q' (p' st).0).0, out))
          (sym (select-append (admits s) (p' st).1 (q' (p' st).0).1))))

  project_known-seen_by :
      (id : String) (m : Option (String × Json)) (st : State)
      → project_known loads s id m st ≡ seen_by s (project_known loads t id m st)
  unfolding project_known emit
  project_known-seen_by id none st = refl
  project_known-seen_by id (some (method, payload)) st =
      let (next, events) = channel_events loads method payload st in
      emit_from-seen_by id 0 events next

  project-seen_by :
      (e : Event) (st : State) → project loads s e st ≡ seen_by s (project loads t e st)
  unfolding project
  project-seen_by (id, payload) st = project_known-seen_by id (unwrap payload) st

  unless-seen_by :
      (b : Bool) (p q : Part)
      → ((st : State) → p st ≡ seen_by s (q st))
      → (st : State) → (if b then nothing else p) st ≡ seen_by s ((if b then nothing else q) st)
  unless-seen_by true p q h st = refl
  unless-seen_by false p q h st = h st

  choose-seen_by :
      (b : Bool) (p p' q q' : Part)
      → ((st : State) → p st ≡ seen_by s (q st))
      → ((st : State) → p' st ≡ seen_by s (q' st))
      → (st : State) → (if b then p else p') st ≡ seen_by s ((if b then q else q') st)
  choose-seen_by true p p' q q' h h' st = h st
  choose-seen_by false p p' q q' h h' st = h' st

  forward-seen_by :
      (es : List Event) (st : State) → forward loads s es st ≡ seen_by s (forward loads t es st)
  unfolding forward
  forward-seen_by [] st = refl
  forward-seen_by (e ∷ es) st =
      then-seen_by (project loads s e) (project loads t e) _ _ (project-seen_by e)
        (unless-seen_by (is_terminal e) _ _ (forward-seen_by es)) st

  after_replay-seen_by :
      (run : RunEvents) (st : State)
      → after_replay loads s run st ≡ seen_by s (after_replay loads t run st)
  after_replay-seen_by run st =
      unless-seen_by _ _ _
        (choose-seen_by (is_terminal_status run.run_status) _ _ _ _ (project-seen_by _)
          (forward-seen_by _))
        st

  root_running-seen_by :
      (id : String) (st : State)
      → root_running loads s id st ≡ seen_by s (root_running loads t id st)
  unfolding emit
  root_running-seen_by id st =
      emit_from-seen_by (id <> ":running") 0
        (event "lifecycle" (root_lifecycle "running" st) [] ∷ []) st

  drain_run-seen_by :
      (run : RunEvents) (st : State)
      → drain_run loads s run st ≡ seen_by s (drain_run loads t run st)
  unfolding drain_run
  drain_run-seen_by run st =
      unless-seen_by (is_terminal_status run.run_status && nothing_replayed run.replayed)
        (drain_events loads s run) (drain_events loads t run)
        (then-seen_by (root_running loads s run.run_id) (root_running loads t run.run_id) _ _
          (root_running-seen_by run.run_id)
          (then-seen_by _ _ _ _ (forward-seen_by run.replayed) (after_replay-seen_by run)))
        (reset run.graph_name st)

  -- Let every event that a session `s` admits be admitted by a session `t` too. Over the same runs,
  -- `s` then ends in the same state as `t`, its number included, and yields exactly those envelopes
  -- of `t`, in order and with their numbers, that it admits.
  pub drain_all-seen_by :
      (runs : List RunEvents) (st : State)
      → drain_all loads s runs st ≡ seen_by s (drain_all loads t runs st)
  drain_all-seen_by [] st = refl
  drain_all-seen_by (run ∷ runs) st =
      then-seen_by (drain_run loads s run) (drain_run loads t run) _ _ (drain_run-seen_by run)
        (drain_all-seen_by runs) st

-- A session that comes back with the number `n` of the last event it saw.
abbrev pub resume : Session → ℕ → Session
resume s n = record s { since = some n }

abbrev pub fresh : Session → Session
fresh s = record s { since = none }

module _ (s : Session) (n : ℕ) where
  wants_namespace-resume :
      (namespace : List String)
      → wants_namespace (resume s n) namespace ≡ wants_namespace (fresh s) namespace
  unfolding wants_namespace
  wants_namespace-resume [] = refl
  wants_namespace-resume (segment ∷ namespace) = refl

  admits-resume : (e : Envelope) → admits (resume s n) e ≡ (admits (fresh s) e && ltb n e.seq)
  unfolding admits is_seen wants
  admits-resume e = rw (wants_namespace-resume e.namespace) (ground arith)

  select-resume :
      (es : List Envelope)
      → select (admits (resume s n)) es ≡ select (λ e. ltb n e.seq) (select (admits (fresh s)) es)
  select-resume [] = refl
  select-resume (e ∷ es) = ground (arith, admits-resume e, select-resume es)

-- A session that resumes after the number `n` ends in the state of one that sees the runs from their
-- start, and yields the envelopes of that one whose number is greater than `n`: none is lost, none
-- comes twice, and each keeps its number.
pub drain_all-resume :
    (loads : String → Option Json) (s : Session) (n : ℕ) (runs : List RunEvents) (st : State)
    → drain_all loads (resume s n) runs st ≡ (
      (drain_all loads (fresh s) runs st).0,
      select (λ e. ltb n e.seq) (drain_all loads (fresh s) runs st).1,
    )
drain_all-resume loads s n runs st =
    let whole = drain_all loads (fresh s) runs st in
    let own : whole.1 ≡ select (admits (fresh s)) whole.1 =
      ap (λ r. r.1) (drain_all-seen_by loads (fresh s) (fresh s) (λ e h. h) runs st) in
    drain_all-seen_by loads (resume s n) (fresh s) (λ e h. ground (arith, admits-resume s n e)) runs
      st
    ∙ ap (λ es. (whole.0, es))
        (select-resume s n whole.1 ∙ ap (select (λ e. ltb n e.seq)) (sym own))

same_namespace :
    (s : Session) (channels namespace : List String)
    → wants_namespace (record s { channels = channels }) namespace ≡ wants_namespace s namespace
unfolding wants_namespace
same_namespace s channels [] = refl
same_namespace s channels (segment ∷ namespace) = refl

-- A session that subscribes to more channels admits what one with fewer admits.
module _ (s : Session) (channels : List String)
    (more : (c : String) → contains s.channels c ≡ true → contains channels c ≡ true) where
  wants_more :
      (channel : String) (d : Json)
      → wants s channel d ≡ true
      → wants (record s { channels = channels }) channel d ≡ true
  unfolding wants
  wants_more channel d h = elim (Option-cases (name_of d)) [
    | inl e ↦
        rw e (let h' = rw e at h in ground (arith, h', more "input", more "custom", more channel))
    | inr (name, e) ↦ rw e (
        let h' = rw e at h in
        ground (arith, h', more "input", more "custom", more channel, more ("custom:" <> name)))
  ]

  pub admits_more :
      (e : Envelope) → admits s e ≡ true → admits (record s { channels = channels }) e ≡ true
  unfolding admits
  admits_more e h =
      ground (arith, wants_more e.method e.data_, same_namespace s channels e.namespace)
