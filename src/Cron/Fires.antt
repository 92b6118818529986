-- ===== src/Cron/Fires.antt =====
-- What a tick leaves of the crons that it has claimed.
use fastapi_langgraph_templa.Base.{
  ℕ, ◌<◌, String, Bool, true, false, ◌&&◌, ◌||◌, ◌≡◌, refl, ap, ◌∙◌, Option, List, [], ◌∷◌, arith,
  any, contains, update_where, eq_iff, Bool-cases, inl, inr, Memᴰ, any-update_off,
  mem-update_where_hit, any-mem, any-weaken,
}
use fastapi_langgraph_templa.Cron.{Cron, Calendar, is_due, reached, compute_next_run, timezone_of}
use fastapi_langgraph_templa.Cron.Scheduler.{
  Preparation, created, failed, broken, has_id, has_ended, set_disabled, set_released,
  validate_cron_user, advance_next_run, fire_cron, fire_all,
}

abbrev pub is_created : Preparation → Bool
is_created created = true
is_created _ = false

module _ {Zone : Type 0} (cal : Calendar Zone) (now : ℕ) (result : String → Preparation) where
  -- One of the given crons, whose run was made, and which is due at `t` all the same.
  abbrev pub is_left : List String → Cron → Bool
  is_left ids x = contains ids x.cron_id && (is_created (result x.cron_id) && is_due now x)

  left_other :
      (id : String) (ids : List String) (x : Cron)
      → has_id id x ≡ false
      → is_left ids x ≡ false
      → is_left (id ∷ ids) x ≡ false
  left_other id ids x h k = ground (arith, eq_iff id x.cron_id, eq_iff x.cron_id id)

  settle_id :
      (id : String) (ids : List String) (f : Cron → Cron) (crons : List Cron)
      → ((x : Cron) → has_id id x ≡ true → is_left (id ∷ ids) (f x) ≡ false)
      → any (is_left ids) crons ≡ false
      → any (is_left (id ∷ ids)) (update_where (has_id id) f crons) ≡ false
  settle_id id ids f crons on h =
      any-update_off (has_id id) f (is_left ids) (is_left (id ∷ ids)) on (left_other id ids) crons h

  -- Where the run was not made, a row of the id is not asked for.
  unmade :
      (id : String) (ids : List String) (x : Cron)
      → is_created (result id) ≡ false
      → has_id id x ≡ true
      → is_left (id ∷ ids) x ≡ false
  unmade id ids x off h =
      let same = ap (λ i. is_created (result i)) ((eq_iff x.cron_id id).0 h) ∙ off in
      rw same (ground arith)

  unmade_any :
      (id : String) (ids : List String) (crons : List Cron)
      → is_created (result id) ≡ false
      → any (is_left ids) crons ≡ false
      → any (is_left (id ∷ ids)) crons ≡ false
  unmade_any id ids crons off h =
      any-weaken (is_left ids) (is_left (id ∷ ids))
        (λ x k. elim (Bool-cases (has_id id x)) [
          | inl e ↦ unmade id ids x off e
          | inr e ↦ left_other id ids x e k
        ])
        crons h

  module _
      (later : (s : String) (b : Bool) (z : Option Zone) (t : ℕ) → t < cal.get_next s b z t) where
    next_later :
        (schedule : String) (timezone : Option String)
        → now < compute_next_run cal schedule now timezone
    unfolding compute_next_run
    next_later schedule timezone = later _ _ _ now

    advance-settles :
        (c : Cron) (ids : List String) (crons : List Cron)
        → any (is_left ids) crons ≡ false
        → any (is_left (c.cron_id ∷ ids)) (advance_next_run cal now c crons) ≡ false
    unfolding advance_next_run
    advance-settles c ids crons h = elim (Bool-cases (has_ended c.end_time now)) [
      | inl e ↦ rw e (settle_id c.cron_id ids (set_disabled now) crons (λ x k. ground arith) h)
      | inr e ↦ rw e (
          settle_id c.cron_id ids _ crons
            (λ x k. ground (arith, next_later c.schedule (timezone_of c.payload))) h)
    ]

    fire-settles :
        (c : Cron) (ids : List String) (crons : List Cron) (how : Preparation)
        → result c.cron_id ≡ how
        → any (is_left ids) crons ≡ false
        → any (is_left (c.cron_id ∷ ids)) (fire_cron cal now how c crons).0 ≡ false
    unfolding fire_cron
    fire-settles c ids crons created e h = elim (Bool-cases (validate_cron_user c.user_id)) [
      | inl u ↦ rw u (advance-settles c ids crons h)
      | inr u ↦ rw u (settle_id c.cron_id ids (set_disabled now) crons (λ x k. ground arith) h)
    ]
    fire-settles c ids crons failed e h = elim (Bool-cases (validate_cron_user c.user_id)) [
      | inl u ↦ rw u (
          settle_id c.cron_id ids (set_released now) crons
            (λ x k. unmade c.cron_id ids (set_released now x) (ap is_created e) k) h)
      | inr u ↦ rw u (settle_id c.cron_id ids (set_disabled now) crons (λ x k. ground arith) h)
    ]
    fire-settles c ids crons broken e h = elim (Bool-cases (validate_cron_user c.user_id)) [
      | inl u ↦ rw u (unmade_any c.cron_id ids crons (ap is_created e) h)
      | inr u ↦ rw u (settle_id c.cron_id ids (set_disabled now) crons (λ x k. ground arith) h)
    ]

    abbrev ids_after : List Cron → List String → List String
    ids_after [] ids = ids
    ids_after (c ∷ due) ids = ids_after due (c.cron_id ∷ ids)

    fire_all-settles :
        (due : List Cron) (ids : List String) (crons : List Cron)
        → any (is_left ids) crons ≡ false
        → any (is_left (ids_after due ids)) (fire_all cal now result due crons) ≡ false
    unfolding fire_all
    fire_all-settles [] ids crons h = h
    fire_all-settles (c ∷ due) ids crons h =
        fire_all-settles due (c.cron_id ∷ ids) (fire_cron cal now (result c.cron_id) c crons).0
          (fire-settles c ids crons (result c.cron_id) refl h)

    ids_after-contains :
        (due : List Cron) (ids : List String) (i : String)
        → (contains ids i || any (λ c. has_id i c) due) ≡ true
        → contains (ids_after due ids) i ≡ true
    ids_after-contains [] ids i h = ground arith
    ids_after-contains (c ∷ due) ids i h = ids_after-contains due (c.cron_id ∷ ids) i (ground arith)

    nothing_left : (crons : List Cron) → any (is_left []) crons ≡ false
    nothing_left [] = refl
    nothing_left (c ∷ crons) = nothing_left crons

    -- After a round of fires at a time `now`, a cron whose run was made is not due at that time, whatever
    -- became of the other crons of the round: it waits for its next occurrence, has ended, or its user
    -- is gone. The calendar's next occurrence after a time is taken to be later than that time.
    pub fired_once :
        (due crons : List Cron) (x : Cron)
        → Memᴰ x (fire_all cal now result due crons)
        → any (has_id x.cron_id) due ≡ true
        → result x.cron_id ≡ created
        → is_due now x ≡ false
    fired_once due crons x m there made =
        let off =
          any-mem (is_left (ids_after due [])) _
            (fire_all-settles due [] crons (nothing_left crons)) m in
        let there' = ids_after-contains due [] x.cron_id there in
        ground (arith, off, there', ap is_created made)

-- A cron whose run could not be made keeps its date and is free again: it is due at the next tick as it
-- was at this one, if its user is one whom runs are made for.
failed_is_due_again :
    {Zone : Type 0} (cal : Calendar Zone) (now then_ : ℕ) (c x : Cron) (crons : List Cron)
    → validate_cron_user c.user_id ≡ true
    → Memᴰ x crons
    → has_id c.cron_id x ≡ true
    → x.enabled ≡ true
    → reached x.next_run_date then_ ≡ true
    → Memᴰ (set_released now x) (fire_cron cal now failed c crons).0
      × (is_due then_ (set_released now x) ≡ true)
unfolding fire_cron
failed_is_due_again cal now then_ c x crons valid m same on date = (
  rw valid (mem-update_where_hit (has_id c.cron_id) (set_released now) crons m same),
  ground arith,
)
