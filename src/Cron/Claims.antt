-- ===== src/Cron/Claims.antt =====
-- What the claim of the due crons promises.
use fastapi_langgraph_templa.Base.{
  ℕ, ◌+◌, ◌≤◌, ◌<◌, String, Bool, true, false, ◌&&◌, ◌||◌, not, ◌≡◌, refl, ap, sym, ◌∙◌, List, [],
  ◌∷◌, map, arith, length, any, select, contains, take, str_eq, eq_iff, Bool-cases, inl, inr, Memᴰ,
  length-take_le, take_all, any-take, any-select, contains-map-any, any-update_off, any-of_mem,
  str_eq_refl,
}
use fastapi_langgraph_templa.Cron.{
  Cron, is_due, before, insert_by_date, sort_by_date, set_claimed_until, due_ids, get_due_crons,
}

any-insert_by_date :
    (p : Cron → Bool) (c : Cron) (ds : List Cron) → any p (insert_by_date c ds) ≡ (p c || any p ds)
any-insert_by_date p c [] = refl
any-insert_by_date p c (d ∷ ds) = elim (Bool-cases (before d.next_run_date c.next_run_date)) [
  | inl e ↦ rw e (ground (arith, any-insert_by_date p c ds))
  | inr e ↦ rw e refl
]

any-sort_by_date : (p : Cron → Bool) (cs : List Cron) → any p (sort_by_date cs) ≡ any p cs
any-sort_by_date p [] = refl
any-sort_by_date p (c ∷ cs) =
    any-insert_by_date p c (sort_by_date cs) ∙ ap (λ b. p c || b) (any-sort_by_date p cs)

length-map_ids : (cs : List Cron) → length (map (λ (c : Cron). c.cron_id) cs) ≡ length cs
length-map_ids [] = refl
length-map_ids (c ∷ cs) = omega (arith, length-map_ids cs)

-- One claim takes at most as many crons as a batch has.
pub due_within_batch :
    (now batch : ℕ) (locked : Cron → Bool) (crons : List Cron)
    → length (due_ids now batch locked crons) ≤ batch
unfolding due_ids
due_within_batch now batch locked crons = rw length-map_ids (length-take_le batch _)

abbrev pub is_open : ℕ → (Cron → Bool) → Cron → Bool
is_open now locked c = is_due now c && not (locked c)

pub contains-due_ids :
    (now batch : ℕ) (locked : Cron → Bool) (crons : List Cron) (id : String)
    → contains (due_ids now batch locked crons) id ≡ true
    → any (λ c. is_open now locked c && str_eq c.cron_id id) crons ≡ true
unfolding due_ids
contains-due_ids now batch locked crons id h =
    let p = λ (c : Cron). str_eq c.cron_id id in
    let opens = select (is_open now locked) crons in
    let in_batch : any p (take batch (sort_by_date opens)) ≡ true =
      sym (contains-map-any (λ (c : Cron). c.cron_id) (take batch (sort_by_date opens)) id) ∙ h in
    sym (any-select p (is_open now locked) crons)
    ∙ (sym (any-sort_by_date p opens) ∙ any-take p batch (sort_by_date opens) in_batch)

all_off : (cs : List Cron) → any (λ c. false) cs ≡ false
all_off [] = refl
all_off (c ∷ cs) = all_off cs

unclaimed_other :
    (ids : List String) (open_ : Cron → Bool) (id : String) (c : Cron)
    → contains ids id ≡ true
    → contains ids c.cron_id ≡ false
    → (open_ c && str_eq c.cron_id id) ≡ false
unclaimed_other ids open_ id c mine h = elim (Bool-cases (str_eq c.cron_id id)) [
  | inl e ↦ let same = ap (contains ids) ((eq_iff c.cron_id id).0 e) in cc (same, mine, h)
  | inr e ↦ ground (arith, e)
]

none_open :
    (now then_ claim_seconds batch : ℕ) (locked locked' : Cron → Bool) (crons : List Cron)
    (id : String)
    → then_ < now + claim_seconds
    → contains (due_ids now batch locked crons) id ≡ true
    → any
        (λ c. is_open then_ locked' c && str_eq c.cron_id id)
        (get_due_crons now claim_seconds batch locked crons).0
      ≡ false
unfolding get_due_crons
none_open now then_ claim_seconds batch locked locked' crons id early mine =
    any-update_off (λ (c : Cron). contains (due_ids now batch locked crons) c.cron_id)
      (set_claimed_until (now + claim_seconds) now) (λ c. false) _ (λ c h. ground arith)
      (λ c h k.
        unclaimed_other (due_ids now batch locked crons) (is_open then_ locked') id c mine h)
      crons (all_off crons)

-- A cron that one instance has claimed is not claimed by any other, whatever its batch is and
-- whatever rows it finds locked, before the time of the claim is over, if nothing else changes the
-- table.
pub due_claimed_once :
    (now then_ claim_seconds batch batch' : ℕ) (locked locked' : Cron → Bool) (crons : List Cron)
    (id : String)
    → then_ < now + claim_seconds
    → contains (due_ids now batch locked crons) id ≡ true
    → contains
        (due_ids then_ batch' locked' (get_due_crons now claim_seconds batch locked crons).0)
        id
      ≡ false
due_claimed_once now then_ claim_seconds batch batch' locked locked' crons id early mine =
    let crons' = (get_due_crons now claim_seconds batch locked crons).0 in
    elim (Bool-cases (contains (due_ids then_ batch' locked' crons') id)) [
      | inl h ↦
          let yes = contains-due_ids then_ batch' locked' crons' id h in
          let no = none_open now then_ claim_seconds batch locked locked' crons id early mine in
          cc (yes, no)
      | inr h ↦ h
    ]

-- When a claim does not fill its batch, it takes every cron that is due and not locked.
due_takes_all :
    (now batch : ℕ) (locked : Cron → Bool) (crons : List Cron) (c : Cron)
    → length (due_ids now batch locked crons) < batch
    → Memᴰ c crons
    → is_due now c ≡ true
    → locked c ≡ false
    → contains (due_ids now batch locked crons) c.cron_id ≡ true
unfolding due_ids
due_takes_all now batch locked crons c room m due free =
    let p = λ (x : Cron). str_eq x.cron_id c.cron_id in
    let opens = select (is_open now locked) crons in
    let sorted = sort_by_date opens in
    let all_of : take batch sorted ≡ sorted =
      take_all batch sorted (rw (← length-map_ids (take batch sorted)) room) in
    contains-map-any (λ (x : Cron). x.cron_id) (take batch sorted) c.cron_id
    ∙ ap (any p) all_of
    ∙ any-sort_by_date p opens
    ∙ any-select p (is_open now locked) crons
    ∙ any-of_mem (λ x. is_open now locked x && p x) crons m
        (ground (arith, due, free, str_eq_refl c.cron_id))
