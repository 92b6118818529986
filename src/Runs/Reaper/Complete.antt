-- ===== src/Runs/Reaper/Complete.antt =====
-- One sweep of the reaper leaves no crashed run behind.
use fastapi_langgraph_templa.Base.{
  ℕ, String, Bool, true, false, ◌≡◌, refl, sym, ◌∙◌, ap, List, [], ◌∷◌, ltb, ◌+◌, Memᴰ,
  mem-update_where, contains, update_where, any, select, Bool-cases, inl, inr, arith, eq_iff, map,
  any-mem, str_eq_refl,
}
use fastapi_langgraph_templa.Runs.{Run, Db}
use fastapi_langgraph_templa.Runs.Reaper.{
  Recovery, retries, is_crashed, is_still_crashed, recover_row, recover_rows, recover_crashed_runs,
  lockable, start_recovery, find_recoverable,
}
use fastapi_langgraph_templa.Runs.Claims.{runs-fail_threads}

pub mem-select {ℓ} :
    {A : Type ℓ} (p : A → Bool) {x : A} (xs : List A)
    → Memᴰ x xs
    → p x ≡ true
    → Memᴰ x (select p xs)
mem-select p [] m h = elim m [ ]
mem-select p (y ∷ xs) (Memᴰ.head e) h = rw (sym (ap p e) ∙ h) (Memᴰ.head e)
mem-select p (y ∷ xs) (Memᴰ.tail m) h = elim (Bool-cases (p y)) [
  | inl t ↦ rw t (Memᴰ.tail (mem-select p xs m h))
  | inr t ↦ rw t (mem-select p xs m h)
]

contains-map {ℓ} :
    {A : Type ℓ} (f : A → String) {x : A} (xs : List A)
    → Memᴰ x xs
    → contains (map f xs) (f x) ≡ true
contains-map f [] m = elim m [ ]
contains-map f {x} (y ∷ xs) (Memᴰ.head e) = rw (← ap f e) (rw str_eq_refl refl)
contains-map f {x} (y ∷ xs) (Memᴰ.tail m) = ground (arith, contains-map f xs m)

module _ (now m : ℕ) where
  -- Every crashed run of the table has its keys among the rows that are still to be handled.
  record Covered (rs : List Run) (runs : List Run) : Type 0 where
    by :
        (x : Run)
        → Memᴰ x runs
        → is_crashed now x ≡ true
        → (r : Run) × Memᴰ r rs × (r.run_id ≡ x.run_id) × (r.user_id ≡ x.user_id)

  drop_head :
      (r x : Run) (rs : List Run)
      → ((s : Run) × Memᴰ s (r ∷ rs) × (s.run_id ≡ x.run_id) × (s.user_id ≡ x.user_id))
      → is_still_crashed r.run_id r.user_id now x ≡ false
      → is_crashed now x ≡ true
      → (s : Run) × Memᴰ s rs × (s.run_id ≡ x.run_id) × (s.user_id ≡ x.user_id)
  drop_head r x rs (s, Memᴰ.tail n, i, u) off crashed = (s, n, i, u)
  drop_head r x rs (s, Memᴰ.head e, i, u) off crashed = absurd (
      ground (
        arith,
        ap (λ (y : Run). y.run_id) e,
        ap (λ (y : Run). y.user_id) e,
        eq_iff x.run_id r.run_id,
        eq_iff x.user_id r.user_id,
      ))

  update-Covered :
      (r : Run) (f : Run → Run) (rs runs : List Run)
      → ((x : Run) → is_crashed now (f x) ≡ false)
      → Covered (r ∷ rs) runs
      → Covered rs (update_where (is_still_crashed r.run_id r.user_id now) f runs)
  update-Covered r f rs runs dead c = record {
    by = λ y my crashed.
        let p = is_still_crashed r.run_id r.user_id now in
        let (x, mx, e) = mem-update_where p f runs my in
        elim (Bool-cases (p x)) [
          | inl t ↦
              let e' : y ≡ f x = rw t at e in
              let no : is_crashed now y ≡ false = ap (is_crashed now) e' ∙ dead x in
              cc (no, crashed)
          | inr t ↦
              let e' : y ≡ x = rw t at e in
              let crashed' : is_crashed now x ≡ true = ap (is_crashed now) (sym e') ∙ crashed in
              rw e' (drop_head r x rs (c.by x mx crashed') t crashed')
        ];
  }

  recover_row-Covered :
      (r : Run) (rs : List Run) (acc : Recovery)
      → Covered (r ∷ rs) acc.db.runs
      → Covered rs (recover_row now m r acc).db.runs
  unfolding recover_row
  recover_row-Covered r rs acc c =
      elim (Bool-cases (any (is_still_crashed r.run_id r.user_id now) acc.db.runs)) [
        | inl e ↦ rw e (elim (Bool-cases (ltb m (retries r + 1))) [
          | inl t ↦ rw t (update-Covered r _ rs acc.db.runs (λ x. refl) c)
          | inr t ↦ rw t (update-Covered r _ rs acc.db.runs (λ x. refl) c)
        ])
        | inr e ↦ rw e (record {
          by = λ x mx crashed.
              drop_head r x rs (c.by x mx crashed) (any-mem _ acc.db.runs e mx) crashed;
        })
      ]

  recover_rows-Covered :
      (rs : List Run) (acc : Recovery)
      → Covered rs acc.db.runs
      → Covered [] (recover_rows now m rs acc).db.runs
  unfolding recover_rows
  recover_rows-Covered [] acc c = c
  recover_rows-Covered (r ∷ rs) acc c =
      recover_rows-Covered rs (recover_row now m r acc) (recover_row-Covered r rs acc c)

  abbrev pub swept : Db → Db
  swept db = (recover_crashed_runs (find_recoverable now 0 db).0 (λ r. false) now m db).0

  found :
      (db : Db) (x : Run)
      → Memᴰ x db.runs
      → is_crashed now x ≡ true
      → Memᴰ x (select (lockable (find_recoverable now 0 db).0 (λ r. false) now) db.runs)
  unfolding find_recoverable
  found db x mx h =
      let listed =
        contains-map (λ (r : Run). r.run_id) _ (mem-select (is_crashed now) db.runs mx h) in
      mem-select (lockable (find_recoverable now 0 db).0 (λ r. false) now) db.runs mx
        (rw (listed, h))

  -- A sweep at the time `now`, over the ids that it finds and with no row locked by others, leaves no
  -- running run whose lease has passed at that time.
  pub sweep_complete : (db : Db) (x : Run) → Memᴰ x (swept db).runs → is_crashed now x ≡ false
  unfolding recover_crashed_runs find_recoverable
  sweep_complete db x mx =
      let ids = (find_recoverable now 0 db).0 in
      let rs = select (lockable ids (λ r. false) now) db.runs in
      let covered : Covered rs db.runs = record {
        by = λ y my h. (y, found db y my h, refl, refl);
      } in
      let done = recover_rows-Covered rs (start_recovery db) covered in
      let mx' = rw runs-fail_threads at mx in
      elim (Bool-cases (is_crashed now x)) [
        | inl e ↦ let (s, n, _, _) = done.by x mx' e in elim n [ ]
        | inr e ↦ e
      ]
