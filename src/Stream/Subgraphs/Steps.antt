-- ===== src/Stream/Subgraphs/Steps.antt =====
-- `usecase/streaming/v2/session.py`: one event of a broker, and the view of a client.
use fastapi_langgraph_templa.Base.{
  String, false, ◌≡◌, refl, sym, ◌∙◌, Option, List, [], ◌∷◌, ◌++◌, Bool-cases, Option-cases, inl,
  inr, if-cases, ◌||◌, arith, str_eq, map,
}
use fastapi_langgraph_templa.Base.Dict.{Dict}
use fastapi_langgraph_templa.Base.Json.{Json, Fields, obj, text_field, list_of, without}
use fastapi_langgraph_templa.Stream.Session.{State, ChannelEvent}
use fastapi_langgraph_templa.Stream.Interrupts.{strip_interrupts}
use fastapi_langgraph_templa.Stream.Events.{
  channel_events, values_events, updates_events, native_lifecycle_events, is_custom, subgraph_event,
  lifecycle, event, input_request_events, with_requests, closing_event, custom_events, has_state,
  all_requests, top_requests, nested_requests, is_only_interrupt, deepest_first,
}
use fastapi_langgraph_templa.Stream.Subgraphs.Closing.{
  watch, view_events, view_events-append, AreKeyed, track-AreKeyed, view-deepest_first,
}

-- A step of the session on which the client's view stays with the session's.
unfoldable pub Follows : State → State × List ChannelEvent → Type 0
Follows st r =
    AreKeyed st.open_namespaces
    → AreKeyed r.0.open_namespaces × (view_events r.1 st.open_namespaces ≡ r.0.open_namespaces)

pub Follows-same :
    (st st' : State) (es : List ChannelEvent)
    → st'.open_namespaces ≡ st.open_namespaces
    → view_events es st.open_namespaces ≡ st.open_namespaces
    → Follows st (st', es)
unfolding Follows
Follows-same st st' es h v k = (rw h k, v ∙ sym h)

view-requests :
    (requests : List Fields) (namespace : List String) (sent : List String)
    (open_ : Dict (List String))
    → view_events (input_request_events requests namespace sent).1 open_ ≡ open_
unfolding input_request_events
view-requests [] namespace sent open_ = refl
view-requests (request ∷ requests) namespace sent open_ =
    elim (Option-cases (text_field request "interrupt_id")) [
      | inl e ↦ rw e (view-requests requests namespace sent open_)
      | inr (id, e) ↦ rw e (
          ground (
            arith,
            view-requests requests namespace sent open_,
            view-requests requests namespace (id ∷ sent) open_,
          ))
    ]

subgraph_event-Follows :
    (name : String) (d : Fields) (namespace : List String) (st : State)
    → Follows st (subgraph_event name d namespace st)
unfolding Follows
subgraph_event-Follows name d [] st k = (k, refl)
subgraph_event-Follows name d (segment ∷ rest) st k =
    (track-AreKeyed name segment rest st.open_namespaces k, refl)

native_lifecycle_events-Follows :
    (d : Json) (namespace : List String) (st : State)
    → Follows st (native_lifecycle_events d namespace st)
unfolding native_lifecycle_events
native_lifecycle_events-Follows (obj d) namespace st = elim (Option-cases (text_field d "event")) [
  | inl e ↦ rw (e, native_lifecycle_events) (Follows-same st st _ refl (rw e refl))
  | inr (name, e) ↦ rw (e, native_lifecycle_events) (subgraph_event-Follows name d _ st)
]
native_lifecycle_events-Follows d namespace st = Follows-same st st _ refl refl

lifecycle-Follows :
    (method : String) (payload : Json) (st : State) → Follows st (lifecycle method payload st)
unfolding Follows lifecycle
lifecycle-Follows method payload st k = (
  refl,
  view_events-append (map closing_event (deepest_first st.open_namespaces)) _ st.open_namespaces
      ∙ view-deepest_first st.open_namespaces k,
)

module _ (loads : String → Option Json) where
  requests_then :
      (requests : List Fields) (namespace : List String) (st : State) (last : ChannelEvent)
      → ((open_ : Dict (List String)) → watch last.method last.data_ last.namespace open_ ≡ open_)
      → Follows st (
        (with_requests requests namespace st).0,
        (with_requests requests namespace st).1 ++ last ∷ [],
      )
  requests_then requests namespace st last h = Follows-same st _ _ refl (
      view_events-append (with_requests requests namespace st).1 (last ∷ []) st.open_namespaces
      ∙ h _
      ∙ view-requests requests namespace st.sent_interrupts st.open_namespaces)

  requests-Follows :
      (requests : List Fields) (namespace : List String) (st : State)
      → Follows st (with_requests requests namespace st)
  requests-Follows requests namespace st =
      Follows-same st _ _ refl
        (view-requests requests namespace st.sent_interrupts st.open_namespaces)

  values_events-Follows :
      (d : Json) (interrupts : Option Json) (namespace : List String) (st : State)
      → Follows st (values_events loads d interrupts namespace st)
  unfolding values_events
  values_events-Follows d interrupts namespace st =
      let requests = all_requests (strip_interrupts d).0 (list_of interrupts) in
      if-cases (λ es. Follows st ((with_requests requests namespace st).0, es))
        (has_state (strip_interrupts d).1) (requests_then requests namespace st _ (λ o. refl))
        (requests-Follows requests namespace st)

  updates_events-Follows :
      (d : Json) (namespace : List String) (st : State)
      → Follows st (updates_events loads d namespace st)
  unfolding updates_events
  updates_events-Follows (obj d) namespace st =
      let requests = top_requests loads d ++ nested_requests loads (without "__interrupt__" d) in
      if-cases (λ es. Follows st ((with_requests requests namespace st).0, es))
        (is_only_interrupt loads d) (requests-Follows requests namespace st)
        (requests_then requests namespace st _ (λ o. refl))
  updates_events-Follows d namespace st = Follows-same st st _ refl refl

  other_event-Follows :
      (method : String) (d : Json) (namespace : List String) (st : State)
      → str_eq method "lifecycle" ≡ false
      → Follows st (st, event method d namespace ∷ [])
  other_event-Follows method d namespace st h = Follows-same st st _ refl (rw h refl)

  pub channel_events-Follows :
      (method : String) (payload : Json) (st : State)
      → Follows st (channel_events loads method payload st)
  unfolding channel_events custom_events
  channel_events-Follows method payload st =
      if-cases (Follows st) (str_eq method "end" || str_eq method "error")
        (lifecycle-Follows method payload st)
        (if-cases (Follows st) (str_eq method "values") (values_events-Follows _ _ _ st) (
          if-cases (Follows st) (str_eq method "updates") (updates_events-Follows _ _ st)
            (elim (Bool-cases (str_eq method "lifecycle")) [
              | inl e ↦ rw e (native_lifecycle_events-Follows _ _ st)
              | inr e ↦ rw e (
                  if-cases (Follows st) (is_custom method) (Follows-same st st _ refl refl)
                    (other_event-Follows method _ _ st e))
            ])))
