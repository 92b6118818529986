-- ===== src/Broker/Log.antt =====
-- The log of a broker and what a reader has of it, under the operations of others.
use fastapi_langgraph_templa.Base.{
  ℕ, Bool, true, false, ◌≡◌, ◌≢◌, refl, sym, ap, ◌∙◌, inl, inr, some, List, [], ◌∷◌, ◌++◌, any,
  Bool-cases, arith,
}
use mathlib.Core.List.{append_assoc}
use fastapi_langgraph_templa.Broker.{
  Event, is_end, Queues, RunBroker, mark_finished, put_all, put, queue_of, set_queue, discard,
  Reader,
}

-- An end event is the last of the log.
abbrev pub EndsLast : List Event → Type 0
EndsLast [] = Unit
EndsLast (e ∷ es) = (is_end e ≡ true → es ≡ []) × EndsLast es

EndsLast-append : (es : List Event) (e : Event) → any is_end es ≡ false → EndsLast (es ++ e ∷ [])
EndsLast-append [] e h = ((λ t. refl), tt)
EndsLast-append (x ∷ es) e h = ((λ t. absurd (ground arith)), EndsLast-append es e (ground arith))

pub EndsLast-after :
    (xs : List Event) (e : Event) (ys : List Event)
    → EndsLast (xs ++ e ∷ ys)
    → is_end e ≡ true
    → ys ≡ []
EndsLast-after [] e ys (h, hs) t = h t
EndsLast-after (x ∷ xs) e ys (h, hs) t = EndsLast-after xs e ys hs t

-- The log of the broker: an end is its last event, and an open broker has none.
pub record IsLog (b : RunBroker) : Type 0 where
  pub ends : EndsLast b.replay_buffer
  pub open_ : b.finished ≡ false → any is_end b.replay_buffer ≡ false

-- What the reader has, and what waits for it, is the whole log; at its end it has it all.
pub record IsServed (b : RunBroker) (r : Reader) : Type 0 where
  pub log : IsLog b
  pub waiting :
      r.done ≡ false
      → (q : List Event) × (queue_of r.queue b.subscribers ≡ some q)
        × (r.got ++ (r.backlog ++ q) ≡ b.replay_buffer)
  pub complete : r.done ≡ true → (b.finished ≡ true) × (r.got ≡ b.replay_buffer)

pub queue_of-put_all :
    (i : ℕ) (e : Event) (qs : Queues) (q : List Event)
    → queue_of i qs ≡ some q
    → queue_of i (put_all e qs) ≡ some (q ++ e ∷ [])
queue_of-put_all i e [] q h = cc
queue_of-put_all i e ((j, p) ∷ qs) q h = ground (arith, queue_of-put_all i e qs q)

pub queue_of-set_queue :
    (i : ℕ) (p q : List Event) (qs : Queues)
    → queue_of i qs ≡ some q
    → queue_of i (set_queue i p qs) ≡ some p
queue_of-set_queue i p q [] h = cc
queue_of-set_queue i p q ((j, o) ∷ qs) h = ground (arith, queue_of-set_queue i p q qs)

pub queue_of-set_queue_ne :
    (i j : ℕ) (p : List Event) (qs : Queues) → j ≢ i → queue_of i (set_queue j p qs) ≡ queue_of i qs
queue_of-set_queue_ne i j p [] ne = refl
queue_of-set_queue_ne i j p ((k, o) ∷ qs) ne = ground (arith, queue_of-set_queue_ne i j p qs ne)

pub queue_of-discard_ne :
    (i j : ℕ) (qs : Queues) → j ≢ i → queue_of i (discard j qs) ≡ queue_of i qs
queue_of-discard_ne i j [] ne = refl
queue_of-discard_ne i j ((k, o) ∷ qs) ne = ground (arith, queue_of-discard_ne i j qs ne)

any-snoc :
    (es : List Event) (e : Event)
    → any is_end es ≡ false
    → is_end e ≡ false
    → any is_end (es ++ e ∷ []) ≡ false
any-snoc [] e h k = ground arith
any-snoc (x ∷ es) e h k = ground (arith, any-snoc es e)

module _ (now : ℕ) (e : Event) (b : RunBroker) (is_open : b.finished ≡ false) where
  buffer-put : (put now e true b).replay_buffer ≡ b.replay_buffer ++ e ∷ []
  unfolding put
  buffer-put = ground arith

  subscribers-put : (put now e true b).subscribers ≡ put_all e b.subscribers
  unfolding put
  subscribers-put = ground arith

  finished-put : (put now e true b).finished ≡ is_end e
  unfolding put
  finished-put = ground arith

pub put_closed :
    (now : ℕ) (e : Event) (resumable : Bool) (b : RunBroker)
    → b.finished ≡ true
    → put now e resumable b ≡ b
unfolding put
put_closed now e resumable b h = rw h

put-IsLog : (now : ℕ) (e : Event) (b : RunBroker) → IsLog b → IsLog (put now e true b)
put-IsLog now e b l = elim (Bool-cases b.finished) [
  | inl h ↦ rw (put_closed now e true b h) l
  | inr h ↦ record {
    ends = rw (buffer-put now e b h) (EndsLast-append b.replay_buffer e (l.open_ h));
    open_ =
        rw (buffer-put now e b h, finished-put now e b h) (any-snoc b.replay_buffer e (l.open_ h));
  }
]

pub put-IsServed :
    (now : ℕ) (e : Event) (b : RunBroker) (r : Reader)
    → IsServed b r
    → IsServed (put now e true b) r
put-IsServed now e b r s = elim (Bool-cases b.finished) [
  | inl h ↦ rw (put_closed now e true b h) s
  | inr h ↦ record {
    log = put-IsLog now e b s.log;
    waiting = λ going.
        let (q, found, all_of) = s.waiting going in
        (
          q ++ e ∷ [],
          rw (subscribers-put now e b h) (queue_of-put_all r.queue e b.subscribers q found),
          rw (buffer-put now e b h) (
              ap (λ (x : List Event). r.got ++ x) (sym (append_assoc r.backlog q (e ∷ [])))
              ∙ sym (append_assoc r.got (r.backlog ++ q) (e ∷ []))
              ∙ ap (λ (x : List Event). x ++ e ∷ []) all_of),
        );
    complete = λ over. let c = (s.complete over).0 in cc (c, h);
  }
]

mark_closed : (now : ℕ) (b : RunBroker) → b.finished ≡ true → mark_finished now b ≡ b
unfolding mark_finished
mark_closed now b h = rw h

mark_open :
    (now : ℕ) (b : RunBroker)
    → b.finished ≡ false
    → mark_finished now b ≡ record b { finished_at = some now; finished = true }
unfolding mark_finished
mark_open now b h = rw h

pub finish-IsServed :
    (now : ℕ) (b : RunBroker) (r : Reader) → IsServed b r → IsServed (mark_finished now b) r
finish-IsServed now b r s = elim (Bool-cases b.finished) [
  | inl h ↦ rw (mark_closed now b h) s
  | inr h ↦ rw (mark_open now b h) (record {
    log = record { ends = s.log.ends; open_ = λ k. absurd (cc) };
    waiting = s.waiting;
    complete = λ over. let c = (s.complete over).0 in absurd (cc (c, h));
  })
]

-- The queues of others come and go, and do not touch this one.
pub others-IsServed :
    (qs : Queues) (b : RunBroker) (r : Reader)
    → queue_of r.queue qs ≡ queue_of r.queue b.subscribers
    → IsServed b r
    → IsServed (record b { subscribers = qs }) r
others-IsServed qs b r same s = record {
  log = record { ends = s.log.ends; open_ = s.log.open_ };
  waiting = λ going. let (q, found, all_of) = s.waiting going in (q, same ∙ found, all_of);
  complete = s.complete;
}
