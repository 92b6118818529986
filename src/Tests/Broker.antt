-- ===== src/Tests/Broker.antt =====
-- A broker with three events, its subscribers, and the manager's sweep.
use Prim.Native.String.{◌++◌ as append}
use package.text.Mathlib.TextLemmas.{append_cancel_left, append-eq-nil_iff}
use fastapi_langgraph_templa.Base.{
  zero, suc, sym, ap, eq_iff, ℕ, String, true, false, ◌≡◌, ◌≢◌, refl, [], ◌∷◌, ◌++◌, arith, List,
  none, some,
}
use fastapi_langgraph_templa.Base.Json.{text}
use fastapi_langgraph_templa.Base.Dict.{lookup}
use fastapi_langgraph_templa.Base.Dict.Keys.{IsUnique}
use fastapi_langgraph_templa.Broker.{
  Event, tuple, raw, RunBroker, put, mark_finished, queue_of, Reader, subscribe, read, replay,
}
use fastapi_langgraph_templa.Broker.Log.{IsLog}
use fastapi_langgraph_templa.Broker.Delivery.{
  Life, born, then_, puts, reads, subscriber_gets_log, subscriber_misses_nothing,
}
use fastapi_langgraph_templa.Broker.Drain.{rounds, late_subscriber_drains}
use fastapi_langgraph_templa.Broker.Replay.{replay_resumes}
use fastapi_langgraph_templa.Broker.Manager.{Manager}

abbrev first : Event
first = ("e1", raw (text "a"))

abbrev last : Event
last = ("e2", tuple "end" (text "b"))

abbrev opened : RunBroker
opened = record {
  finished = false;
  replay_buffer = first ∷ [];
  subscribers = [];
  created_at = 1;
  finished_at = none;
}

abbrev opened-IsLog : IsLog opened
opened-IsLog = record { ends = (λ e. refl, tt); open_ = λ h. refl }

abbrev ended : RunBroker
ended = record opened { finished = true; replay_buffer = first ∷ last ∷ []; finished_at = some 5 }

ended-IsLog : IsLog ended
ended-IsLog = record { ends = (λ e. absurd (cc), (λ e. refl, tt)); open_ = λ h. absurd (cc) }

-- The reader after the backlog, after an end that was put, and after its own end.
abbrev after_put : RunBroker
after_put = put 5 last true (subscribe 7 opened).0

abbrev one_read : Reader
one_read = (read (subscribe 7 opened).1 after_put).1

abbrev all_read : Reader
all_read = (read one_read (read (subscribe 7 opened).1 after_put).0).1

abbrev half_life :
    Life (subscribe 7 opened).0 (subscribe 7 opened).1 after_put (subscribe 7 opened).1
half_life = then_ born (puts 5 last refl refl)

abbrev full_life :
    Life
      (subscribe 7 opened).0
      (subscribe 7 opened).1
      (read one_read (read (subscribe 7 opened).1 after_put).0).0
      all_read
full_life = then_ (then_ half_life (reads refl refl)) (reads refl refl)

subscriber_gets_log_example : all_read.got ≡ first ∷ last ∷ []
unfolding put mark_finished subscribe read
subscriber_gets_log_example = subscriber_gets_log 7 opened _ all_read opened-IsLog full_life refl

subscriber_misses_nothing_example :
    (q : List Event) × (queue_of 7 after_put.subscribers ≡ some q)
    × ([] ++ ((first ∷ []) ++ q) ≡ after_put.replay_buffer)
unfolding subscribe
subscriber_misses_nothing_example =
    subscriber_misses_nothing 7 opened after_put (subscribe 7 opened).1 opened-IsLog half_life refl

late_subscriber_drains_example :
    let (b', r) = subscribe 7 ended in
    let r' = (rounds 3 r b').1 in (r'.done ≡ true) × (r'.got ≡ first ∷ last ∷ [])
late_subscriber_drains_example = late_subscriber_drains 7 ended ended-IsLog refl

replay_resumes_example : ([] ++ first ∷ []) ++ replay (some "e1") ended ≡ first ∷ last ∷ []
replay_resumes_example = replay_resumes ended "e1" (raw (text "a")) [] (last ∷ []) refl refl

abbrev two_brokers : Manager
two_brokers = record {
  brokers = ("r1", ended) ∷ ("r2", opened) ∷ [];
  event_counters = ("r1", 2) ∷ ("r2", 1) ∷ [];
}

two_brokers-IsUnique : IsUnique two_brokers.brokers
unfolding lookup
two_brokers-IsUnique = (refl, (refl, tt))

-- A numbering that tells numbers apart.
abbrev bars : ℕ → String
bars zero = ""
bars (suc n) = append "|" (bars n)

bars-suc_nonempty : (n : ℕ) → bars (suc n) ≢ ""
bars-suc_nonempty n e =
    let bar : "|" ≡ "" = (append-eq-nil_iff.0 e).0 in absurd (ground (arith, eq_iff "|" "", bar))

bars-injective : (a b : ℕ) → bars a ≡ bars b → a ≡ b
bars-injective zero zero e = refl
bars-injective zero (suc b) e = absurd (bars-suc_nonempty b (sym e))
bars-injective (suc a) zero e = absurd (bars-suc_nonempty a e)
bars-injective (suc a) (suc b) e = ap suc (bars-injective a b (append_cancel_left "|" _ _ e))
