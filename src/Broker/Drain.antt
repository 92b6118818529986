-- ===== src/Broker/Drain.antt =====
-- A subscriber of a finished run comes to its end.
use fastapi_langgraph_templa.Base.{
  ℕ, zero, suc, ◌+◌, ◌≤◌, ◌<◌, true, false, ◌≡◌, refl, ap, ◌∙◌, ◌⊎◌, inl, inr, Option, none, some,
  List, [], ◌∷◌, ◌++◌, Bool-cases, arith, length, length-append,
}
use fastapi_langgraph_templa.Broker.Log.{IsLog, IsServed}
use fastapi_langgraph_templa.Broker.Delivery.{read-IsServed, subscribe-IsServed}
use fastapi_langgraph_templa.Broker.{
  Event, RunBroker, queue_of, Reader, subscribe, take, read_from, read,
}

-- Rounds of one reader with nothing in between.
unfoldable pub rounds : ℕ → Reader → RunBroker → RunBroker × Reader
rounds zero r b = (b, r)
rounds (suc n) r b = let (b', r') = read r b in rounds n r' b'

-- A round on a finished broker ends the reader or hands it one more event.
record Advances (b : RunBroker) (r : Reader) (b' : RunBroker) (r' : Reader) : Type 0 where
  fin : b'.finished ≡ b.finished
  log : b'.replay_buffer ≡ b.replay_buffer
  step : (r'.done ≡ true) ⊎ (length r'.got ≡ length r.got + 1)

take-Advances :
    (o : Option (List Event)) (b : RunBroker) (r : Reader)
    → b.finished ≡ true
    → Advances b r (take o r b).0 (take o r b).1
take-Advances none b r h = ground arith
take-Advances (some []) b r h = ground arith
take-Advances (some (e ∷ q)) b r h = ground (arith, length-append r.got (e ∷ []))

read-Advances :
    (es : List Event) (b : RunBroker) (r : Reader)
    → b.finished ≡ true
    → Advances b r (read_from es r b).0 (read_from es r b).1
read-Advances [] b r h = take-Advances (queue_of r.queue b.subscribers) b r h
read-Advances (e ∷ es) b r h = ground (arith, length-append r.got (e ∷ []))

got-le : (b : RunBroker) (r : Reader) → IsServed b r → length r.got ≤ length b.replay_buffer
got-le b r s = elim (Bool-cases r.done) [
  | inl over ↦ omega (arith, ap (length {A = Event}) (s.complete over).1)
  | inr going ↦
      let (q, found, all_of) = s.waiting going in
      omega (arith, ap (length {A = Event}) all_of, length-append r.got (r.backlog ++ q))
]

read_over : (b : RunBroker) (r : Reader) → r.done ≡ true → read r b ≡ (b, r)
unfolding read
read_over b r h = simp h

read_going : (b : RunBroker) (r : Reader) → r.done ≡ false → read r b ≡ read_from r.backlog r b
unfolding read
read_going b r h = simp h

rounds-suc :
    (n : ℕ) (b : RunBroker) (r : Reader) → rounds (suc n) r b ≡ rounds n (read r b).1 (read r b).0
unfolding rounds
rounds-suc n b r = refl

rounds_zero : (b : RunBroker) (r : Reader) → rounds 0 r b ≡ (b, r)
unfolding rounds
rounds_zero b r = refl

rounds_over : (n : ℕ) (b : RunBroker) (r : Reader) → r.done ≡ true → rounds n r b ≡ (b, r)
rounds_over zero b r h = rounds_zero b r
rounds_over (suc n) b r h = rw (rounds-suc, read_over b r h) (rounds_over n b r h)

-- With one round more than the events that are left, a reader of a finished broker comes to its end.
drains :
    (n : ℕ) (b : RunBroker) (r : Reader)
    → IsServed b r
    → b.finished ≡ true
    → length b.replay_buffer < length r.got + n
    → ((rounds n r b).1.done ≡ true)
      × IsServed (rounds n r b).0 (rounds n r b).1
      × ((rounds n r b).0.replay_buffer ≡ b.replay_buffer)
drains zero b r s fin h = absurd (omega (arith, got-le b r s))
drains (suc n) b r s fin h = elim (Bool-cases r.done) [
  | inl over ↦ rw (rounds-suc, read_over b r over, rounds_over n b r over) (over, s, refl)
  | inr going ↦
      let s' = rw (read_going b r going) at (read-IsServed b r s) in
      let a = read-Advances r.backlog b r fin in
      let b' : RunBroker = (read_from r.backlog r b).0 in
      let r' : Reader = (read_from r.backlog r b).1 in
      rw (rounds-suc, read_going b r going)
        (elim a.step [
          | inl over ↦ rw (rounds_over n b' r' over) (over, s', a.log)
          | inr more ↦
              let (d, t, same) =
                drains n b' r' s' (a.fin ∙ fin) (omega (arith, ap (length {A = Event}) a.log)) in
              (d, t, same ∙ a.log)
        ])
]

-- A subscriber that comes when the run is finished, however late, comes to its end within one round
-- more than the log has events, and has then yielded the whole log in order. The log is taken to
-- have an end event only as its last.
pub late_subscriber_drains :
    (i : ℕ) (b : RunBroker)
    → IsLog b
    → b.finished ≡ true
    → let (b', r) = subscribe i b in
      let r' = (rounds (length b.replay_buffer + 1) r b').1 in
      (r'.done ≡ true) × (r'.got ≡ b.replay_buffer)
unfolding subscribe
late_subscriber_drains i b l fin =
    let s = subscribe-IsServed i b l in
    let (over, t, same) = drains (length b.replay_buffer + 1) _ _ s fin (omega arith) in
    (over, (t.complete over).1 ∙ same)
