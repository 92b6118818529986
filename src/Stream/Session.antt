-- ===== src/Stream/Session.antt =====
-- `usecase/streaming/v2/session.py`: what a session is given, what it keeps, and how it numbers and
-- filters events. `build_event` (`usecase/streaming/v2/protocol.py`) is modelled less the time of the
-- clock; the texts of an event's id and its index are a pair here.
use Prim.Native.Char.{code}
use fastapi_langgraph_templa.Base.{
  ℕ, suc, String, Bool, true, false, not, ◌&&◌, ◌||◌, Option, none, some, List, [], ◌∷◌, length,
  any, str_eq, contains, leb, ltb, ◌==◌, ◌<>◌, if◌then◌else◌,
}
use fastapi_langgraph_templa.Base.Dict.{Dict}
use fastapi_langgraph_templa.Base.Json.{Json, obj, text_field}

pub record Session : Type 0 where
  pub channels : List String
  pub since : Option ℕ
  pub namespaces : Option (List (List String))
  pub depth : Option ℕ
  pub idle_grace : ℕ

-- `namespaces if namespaces else None`
abbrev given : Option (List (List String)) → Option (List (List String))
given (some []) = none
given namespaces = namespaces

unfoldable pub new_session :
    List String → Option ℕ → Option (List (List String)) → Option ℕ → ℕ → Session
new_session channels since namespaces depth idle_grace = record {
  channels = channels;
  since = since;
  namespaces = given namespaces;
  depth = depth;
  idle_grace = idle_grace;
}

pub record State : Type 0 where
  pub seq : ℕ
  pub sent_interrupts : List String
  pub current_graph : Option String
  pub open_namespaces : Dict (List String)

-- `_ChannelEvent`
pub record ChannelEvent : Type 0 where
  pub method : String
  pub data_ : Json
  pub namespace : List String

pub record Envelope : Type 0 where
  pub method : String
  pub data_ : Json
  pub namespace : List String
  pub seq : ℕ
  pub event_id : String × ℕ

unfoldable pub build_event : ChannelEvent → ℕ → String × ℕ → Envelope
build_event e n id = record {
  method = e.method;
  data_ = e.data_;
  namespace = e.namespace;
  seq = n;
  event_id = id;
}

abbrev wants_custom : List String → Option String → Bool
wants_custom channels none = false
wants_custom channels (some name) = contains channels ("custom:" <> name)

abbrev pub name_of : Json → Option String
name_of (obj d) = text_field d "name"
name_of d = none

unfoldable pub wants : Session → String → Json → Bool
wants s channel d =
    if str_eq channel "input.requested"
    then contains s.channels "input"
    else if str_eq channel "custom"
    then contains s.channels "custom" || wants_custom s.channels (name_of d)
    else contains s.channels channel

-- `segment.split(":", 1)[0]`, and `":" in segment`.
abbrev pub before_colon : String → String
before_colon String.[] = ""
before_colon (String.◌∷◌ c s) =
    let rest = before_colon s in if code c == 58 then "" else String.◌∷◌ c rest

abbrev pub has_colon : String → Bool
has_colon String.[] = false
has_colon (String.◌∷◌ c s) = code c == 58 || has_colon s

abbrev pub segment_matches : String → String → Bool
segment_matches candidate segment =
    if str_eq candidate segment
    then true
    else if has_colon segment
    then false
    else str_eq (before_colon candidate) segment

-- The prefix comes second; one that is longer than the namespace does not match.
abbrev pub prefix_matches : List String → List String → Bool
prefix_matches namespace [] = true
prefix_matches [] (segment ∷ prefix) = false
prefix_matches (candidate ∷ namespace) (segment ∷ prefix) =
    segment_matches candidate segment && prefix_matches namespace prefix

abbrev is_too_deep : Option ℕ → ℕ → Bool
is_too_deep none n = false
is_too_deep (some depth) n = ltb depth n

abbrev is_included : Option (List (List String)) → List String → Bool
is_included none namespace = true
is_included (some prefixes) namespace = any (prefix_matches namespace) prefixes

unfoldable pub wants_namespace : Session → List String → Bool
wants_namespace s [] = true
wants_namespace s (segment ∷ namespace) =
    if is_too_deep s.depth (length (segment ∷ namespace))
    then false
    else is_included s.namespaces (segment ∷ namespace)

-- `self._since is not None and self._seq <= self._since`
unfoldable pub is_seen : Option ℕ → ℕ → Bool
is_seen none seq = false
is_seen (some since) seq = leb seq since

-- The guards of `_emit`, in its order.
unfoldable pub admits : Session → Envelope → Bool
admits s e =
    if not (wants s e.method e.data_)
    then false
    else if not (wants_namespace s e.namespace)
    then false
    else not (is_seen s.since e.seq)

-- The loop of `_emit` from an index on; the number goes up before the filters.
abbrev pub emit_from : Session → String → ℕ → List ChannelEvent → State → State × List Envelope
emit_from s id index [] st = (st, [])
emit_from s id index (e ∷ es) st =
    let (last, envelopes) = emit_from s id (suc index) es (record st { seq = suc st.seq }) in
    let envelope = build_event e (suc st.seq) (id, index) in
    (last, if admits s envelope then envelope ∷ envelopes else envelopes)

unfoldable pub emit : Session → List ChannelEvent → String → State → State × List Envelope
emit s es id st = emit_from s id 0 es st
