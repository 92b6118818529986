-- ===== src/Cron/Ticks.antt =====
-- A whole tick of the scheduler: the claim and the round of fires.
use fastapi_langgraph_templa.Base.{
  ℕ, ◌<◌, String, Bool, true, false, ◌&&◌, ◌≡◌, refl, ap, ◌∙◌, Option, List, [], ◌∷◌, map, arith,
  any, select, contains, str_eq, eq_iff, Bool-cases, inl, inr, Memᴰ, any-select, any-weaken, ◌+◌,
}
use fastapi_langgraph_templa.Cron.{
  Cron, Calendar, is_due, set_claimed_until, due_ids, get_due_crons,
}
use fastapi_langgraph_templa.Cron.Scheduler.{Preparation, created, has_id, tick}
use fastapi_langgraph_templa.Cron.Claims.{is_open, contains-due_ids}
use fastapi_langgraph_templa.Cron.Fires.{fired_once}

any-map_claim :
    (id : String) (until now : ℕ) (cs : List Cron)
    → any (has_id id) (map (set_claimed_until until now) cs) ≡ any (has_id id) cs
any-map_claim id until now [] = refl
any-map_claim id until now (c ∷ cs) = ground (arith, any-map_claim id until now cs)

module _ (now claim_seconds batch : ℕ) (locked : Cron → Bool) (crons : List Cron) where
  is_chosen : Cron → Bool
  is_chosen c = contains (due_ids now batch locked crons) c.cron_id

  chosen :
      (id : String) (c : Cron)
      → contains (due_ids now batch locked crons) id ≡ true
      → (is_chosen c && has_id id c) ≡ false
      → (is_open now locked c && str_eq c.cron_id id) ≡ false
  unfolding is_chosen
  chosen id c mine off = elim (Bool-cases (str_eq c.cron_id id)) [
    | inl e ↦
        let same = ap (contains (due_ids now batch locked crons)) ((eq_iff c.cron_id id).0 e) in
        ground (arith, same, mine, e, off)
    | inr e ↦ ground (arith, e)
  ]

  claimed_is_fired :
      (id : String)
      → contains (due_ids now batch locked crons) id ≡ true
      → any (has_id id) (get_due_crons now claim_seconds batch locked crons).1 ≡ true
  unfolding get_due_crons is_chosen
  claimed_is_fired id mine =
      any-map_claim id (now + claim_seconds) now (select is_chosen crons)
      ∙ any-select (has_id id) is_chosen crons
      ∙ elim (Bool-cases (any (λ c. is_chosen c && has_id id c) crons)) [
        | inl e ↦ e
        | inr e ↦
            let none_ =
              any-weaken (λ c. is_chosen c && has_id id c)
                (λ c. is_open now locked c && str_eq c.cron_id id) (λ c. chosen id c mine) crons
                e in
            let some_ = contains-due_ids now batch locked crons id mine in
            absurd (cc (none_, some_))
      ]

-- After a tick, a cron that it claimed and whose run was made is not due at the time of the fires,
-- whatever became of the other crons of the tick. The calendar's next occurrence after a time is taken
-- to be later than that time.
pub ticked_once :
    {Zone : Type 0} (cal : Calendar Zone) (now then_ claim_seconds batch : ℕ) (locked : Cron → Bool)
    (result : String → Preparation) (crons : List Cron) (x : Cron)
    → ((s : String) (b : Bool) (z : Option Zone) (t : ℕ) → t < cal.get_next s b z t)
    → Memᴰ x (tick cal now then_ claim_seconds batch locked result crons)
    → contains (due_ids now batch locked crons) x.cron_id ≡ true
    → result x.cron_id ≡ created
    → is_due then_ x ≡ false
unfolding tick
ticked_once cal now then_ claim_seconds batch locked result crons x later m mine made =
    fired_once cal then_ result later (get_due_crons now claim_seconds batch locked crons).1
      (get_due_crons now claim_seconds batch locked crons).0 x m
      (claimed_is_fired now claim_seconds batch locked crons x.cron_id mine) made
