-- ===== src/Broker/Replay.antt =====
-- A client that reconnects with the id of the last event that it has.
use fastapi_langgraph_templa.Base.{
  String, Bool, false, ◌≡◌, refl, none, some, List, [], ◌∷◌, ◌++◌, any, arith, str_eq, str_eq_refl,
}
use mathlib.Core.List.{append_assoc}
use fastapi_langgraph_templa.Broker.{Event, Payload, RunBroker, after, replay}

abbrev pub has_id : String → Event → Bool
has_id id (i, p) = str_eq i id

after-append :
    (id : String) (before : List Event) (p : Payload) (rest : List Event)
    → any (has_id id) before ≡ false
    → after id (before ++ (id, p) ∷ rest) ≡ some rest
after-append id [] p rest h = rw str_eq_refl
after-append id ((i, q) ∷ before) p rest h = ground (arith, after-append id before p rest)

after_missing : (id : String) (es : List Event) → any (has_id id) es ≡ false → after id es ≡ none
after_missing id [] h = refl
after_missing id ((i, q) ∷ es) h = ground (arith, after_missing id es)

-- When the client has the buffer up to the first event with its last id, the replay after that id is
-- the rest of the buffer: together they make up the whole.
pub replay_resumes :
    (b : RunBroker) (id : String) (p : Payload) (before rest : List Event)
    → any (has_id id) before ≡ false
    → b.replay_buffer ≡ before ++ (id, p) ∷ rest
    → (before ++ (id, p) ∷ []) ++ replay (some id) b ≡ b.replay_buffer
unfolding replay
replay_resumes b id p before rest h e =
    rw (e, after-append id before p rest h) (append_assoc before ((id, p) ∷ []) rest)

-- By an id that the buffer does not hold, the replay is the whole buffer, as it is by none.
pub replay_unknown :
    (b : RunBroker) (id : String)
    → any (has_id id) b.replay_buffer ≡ false
    → replay (some id) b ≡ replay none b
unfolding replay
replay_unknown b id h = rw (after_missing id b.replay_buffer h) refl
