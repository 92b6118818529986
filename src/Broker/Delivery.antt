-- ===== src/Broker/Delivery.antt =====
-- What a subscriber receives, whatever else happens to the broker while it reads.
use fastapi_langgraph_templa.Base.{
  ℕ, Bool, true, false, ◌≡◌, ◌≢◌, refl, sym, ap, ◌∙◌, inl, inr, some, List, [], ◌∷◌, ◌++◌, any,
  Bool-cases, arith, if◌then◌else◌,
}
use mathlib.Core.List.{append_assoc, append-nil}
use fastapi_langgraph_templa.Broker.Log.{
  EndsLast-after, IsLog, IsServed, queue_of-set_queue, queue_of-set_queue_ne, queue_of-discard_ne,
  put-IsServed, finish-IsServed, others-IsServed,
}
use fastapi_langgraph_templa.Broker.{
  Event, is_end, RunBroker, mark_finished, put, queue_of, set_queue, discard, Reader, subscribe,
  after_yield, take, read_from, read,
}

any-middle :
    (xs : List Event) (e : Event) (ys : List Event)
    → is_end e ≡ true
    → any is_end (xs ++ e ∷ ys) ≡ true
any-middle [] e ys h = ground arith
any-middle (x ∷ xs) e ys h = ground (arith, any-middle xs e ys h)

-- The reader has just yielded `e`, the event after those before it.
yield-IsServed :
    (e : Event) (q before : List Event) (b : RunBroker) (r : Reader)
    → IsLog b
    → queue_of r.queue b.subscribers ≡ some q
    → before ++ e ∷ (r.backlog ++ q) ≡ b.replay_buffer
    → r.got ≡ before ++ e ∷ []
    → r.done ≡ false
    → IsServed (after_yield e r b).0 (after_yield e r b).1
yield-IsServed e q before b r l found at got going = elim (Bool-cases (is_end e)) [
  | inl h ↦
      let last = EndsLast-after before e (r.backlog ++ q) (rw (← at) at l.ends) h in
      let fin : b.finished ≡ true = elim (Bool-cases b.finished) [
        | inl f ↦ f
        | inr f ↦
            let no = l.open_ f in
            let some_end = ap (any is_end) (sym at) ∙ any-middle before e (r.backlog ++ q) h in
            absurd (cc (no, some_end))
      ] in
      rw h (record {
        log = record { ends = l.ends; open_ = l.open_ };
        waiting = λ k. absurd (cc);
        complete = λ k. (fin, got ∙ ap (λ (x : List Event). before ++ e ∷ x) (sym last) ∙ at);
      })
  | inr h ↦ rw h (record {
    log = l;
    waiting = λ k. (
      q,
      found,
      ap (λ (x : List Event). x ++ (r.backlog ++ q)) got
          ∙ append_assoc before (e ∷ []) (r.backlog ++ q)
          ∙ at,
    );
    complete = λ k. absurd (cc (k, going));
  })
]

over-IsServed :
    (b : RunBroker) (r : Reader)
    → IsServed b r
    → r.done ≡ false
    → b.finished ≡ true
    → r.backlog ≡ []
    → queue_of r.queue b.subscribers ≡ some []
    → IsServed (record b { subscribers = discard r.queue b.subscribers }) (record r { done = true })
over-IsServed b r s going fin empty found = record {
  log = record { ends = s.log.ends; open_ = s.log.open_ };
  waiting = λ k. absurd (cc);
  complete = λ k.
      let (q, f, all_of) = s.waiting going in
      let none_left : q ≡ [] = cc (found, f) in
      (
        fin,
        sym (append-nil r.got)
            ∙ ap (λ (x : List Event). r.got ++ x) (cc (empty, none_left))
            ∙ all_of,
      );
}

if-IsServed :
    (t : Bool) (x y : RunBroker × Reader)
    → (t ≡ true → IsServed x.0 x.1)
    → (t ≡ false → IsServed y.0 y.1)
    → IsServed (if t then x else y).0 (if t then x else y).1
if-IsServed true x y h k = h refl
if-IsServed false x y h k = k refl

take-IsServed :
    (b : RunBroker) (r : Reader) (q : List Event)
    → IsServed b r
    → r.done ≡ false
    → r.backlog ≡ []
    → queue_of r.queue b.subscribers ≡ some q
    → r.got ++ (r.backlog ++ q) ≡ b.replay_buffer
    → IsServed (take (some q) r b).0 (take (some q) r b).1
take-IsServed b r [] s going empty found all_of =
    if-IsServed b.finished _ _ (λ f. over-IsServed b r s going f empty found) (λ f. s)
take-IsServed b r (e ∷ q) s going empty found all_of =
    yield-IsServed e q r.got (record b { subscribers = set_queue r.queue q b.subscribers })
      (record r { got = r.got ++ e ∷ [] }) (record { ends = s.log.ends; open_ = s.log.open_ })
      (queue_of-set_queue r.queue q (e ∷ q) b.subscribers found)
      (ap (λ (x : List Event). r.got ++ e ∷ (x ++ q)) empty
        ∙ ap (λ (x : List Event). r.got ++ (x ++ e ∷ q)) (sym empty)
        ∙ all_of)
      refl going

read_from-IsServed :
    (b : RunBroker) (r : Reader) (es : List Event)
    → IsServed b r
    → r.done ≡ false
    → r.backlog ≡ es
    → IsServed (read_from es r b).0 (read_from es r b).1
read_from-IsServed b r [] s going empty =
    let (q, found, all_of) = s.waiting going in
    rw found (take-IsServed b r q s going empty found all_of)
read_from-IsServed b r (e ∷ es) s going back =
    let (q, found, all_of) = s.waiting going in
    yield-IsServed e q r.got b (record r { backlog = es; got = r.got ++ e ∷ [] }) s.log found
      (ap (λ (x : List Event). r.got ++ (x ++ q)) (sym back) ∙ all_of) refl going

pub read-IsServed : (b : RunBroker) (r : Reader) → IsServed b r → IsServed (read r b).0 (read r b).1
unfolding read
read-IsServed b r s = elim (Bool-cases r.done) [
  | inl h ↦ simp h s
  | inr h ↦ simp h (read_from-IsServed b r r.backlog s h refl)
]

-- What happens to a broker and one of its readers: an event is put, the broker is marked finished, the
-- reader goes one round, or another subscriber comes, reads or leaves.
pub data Happens (b : RunBroker) (r : Reader) (b' : RunBroker) (r' : Reader) : Type 0 where
  puts : (now : ℕ) (e : Event) → b' ≡ put now e true b → r' ≡ r → Happens b r b' r'
  finishes : (now : ℕ) → b' ≡ mark_finished now b → r' ≡ r → Happens b r b' r'
  reads : b' ≡ (read r b).0 → r' ≡ (read r b).1 → Happens b r b' r'
  comes : (i : ℕ) → i ≢ r.queue → b' ≡ (subscribe i b).0 → r' ≡ r → Happens b r b' r'
  other_takes :
      (i : ℕ) (q : List Event)
      → i ≢ r.queue
      → b' ≡ record b { subscribers = set_queue i q b.subscribers }
      → r' ≡ r
      → Happens b r b' r'
  leaves :
      (i : ℕ)
      → i ≢ r.queue
      → b' ≡ record b { subscribers = discard i b.subscribers }
      → r' ≡ r
      → Happens b r b' r'

pub data Life (b : RunBroker) (r : Reader) : RunBroker → Reader → Type 0 where
  born : Life b r b r
  then_ :
      {b' b'' : RunBroker} {r' r'' : Reader}
      → Life b r b' r'
      → Happens b' r' b'' r''
      → Life b r b'' r''

pub subscribe-IsServed :
    (i : ℕ) (b : RunBroker) → IsLog b → IsServed (subscribe i b).0 (subscribe i b).1
unfolding subscribe
subscribe-IsServed i b l = record {
  log = record { ends = l.ends; open_ = l.open_ };
  waiting = λ going. ([], ground arith, append-nil b.replay_buffer);
  complete = λ over. absurd (cc);
}

Happens-IsServed :
    {b b' : RunBroker} {r r' : Reader} → Happens b r b' r' → IsServed b r → IsServed b' r'
Happens-IsServed {b} {r = r} (puts now e p q) s = rw (p, q) (put-IsServed now e b r s)
Happens-IsServed {b} {r = r} (finishes now p q) s = rw (p, q) (finish-IsServed now b r s)
Happens-IsServed {b} {r = r} (reads p q) s = rw (p, q) (read-IsServed b r s)
Happens-IsServed {b} {r = r} (comes i ne p q) s =
    rw (p, q) (unfold subscribe in others-IsServed ((i, []) ∷ b.subscribers) b r (ground arith) s)
Happens-IsServed {b} {r = r} (other_takes i l ne p q) s =
    rw (p, q) (others-IsServed _ b r (queue_of-set_queue_ne r.queue i l b.subscribers ne) s)
Happens-IsServed {b} {r = r} (leaves i ne p q) s =
    rw (p, q) (others-IsServed _ b r (queue_of-discard_ne r.queue i b.subscribers ne) s)

Life-IsServed :
    {b : RunBroker} {r : Reader} {b' : RunBroker} {r' : Reader}
    → IsServed b r
    → Life b r b' r'
    → IsServed b' r'
Life-IsServed s born = s
Life-IsServed s (then_ l h) = Happens-IsServed h (Life-IsServed s l)

-- A subscriber that comes to a broker at any time, before or after its end, and reads among puts of
-- resumable events, finishes and other subscribers in any order: when its reading is over, it has
-- yielded the whole log of the broker, each event once and in order. The log at its coming is taken
-- to have an end event only as its last and only once the broker is finished.
pub subscriber_gets_log :
    (i : ℕ) (b b' : RunBroker) (r' : Reader)
    → IsLog b
    → Life (subscribe i b).0 (subscribe i b).1 b' r'
    → r'.done ≡ true
    → r'.got ≡ b'.replay_buffer
subscriber_gets_log i b b' r' l life over =
    ((Life-IsServed (subscribe-IsServed i b l) life).complete over).1

-- While the reading of such a subscriber is not over, its queue is registered, and what it has
-- yielded, its backlog and its queue make up the whole log of the broker, in order.
pub subscriber_misses_nothing :
    (i : ℕ) (b b' : RunBroker) (r' : Reader)
    → IsLog b
    → Life (subscribe i b).0 (subscribe i b).1 b' r'
    → r'.done ≡ false
    → (q : List Event) × (queue_of r'.queue b'.subscribers ≡ some q)
      × (r'.got ++ (r'.backlog ++ q) ≡ b'.replay_buffer)
subscriber_misses_nothing i b b' r' l life = (Life-IsServed (subscribe-IsServed i b l) life).waiting
