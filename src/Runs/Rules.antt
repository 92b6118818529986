-- ===== src/Runs/Rules.antt =====
-- How a change of the tables keeps their invariants: one rule for an update of runs, one for the
-- guarded update of threads.
use fastapi_langgraph_templa.Base.{
  ℕ, String, Bool, true, false, ◌≡◌, refl, sym, ap, ◌∙◌, List, update_where, any-mem,
  mem-update_where, Memᴰ, arith, eq_iff, if◌then◌else◌, Bool-cases, inl, inr,
}
use fastapi_langgraph_templa.Runs.{ThreadStatus, is_active, Run, Thread, Db, IsBusy}
use fastapi_langgraph_templa.Runs.Status.{
  put_status, put_status_if_no_active_runs, has_no_active_runs, active_run_exists,
}

-- A row keeps its keys, and does not come to life.
pub record Descends (r r' : Run) : Type 0 where
  pub same_run : r'.run_id ≡ r.run_id
  pub same_thread : r'.thread_id ≡ r.thread_id
  pub same_user : r'.user_id ≡ r.user_id
  pub was_active : is_active r'.status ≡ true → is_active r.status ≡ true

pub Descends-refl : (r : Run) → Descends r r
Descends-refl r = record {
  same_run = refl;
  same_thread = refl;
  same_user = refl;
  was_active = λ h. h;
}

module _ (p : Run → Bool) (f : Run → Run) (keep : (r : Run) → p r ≡ true → Descends r (f r)) where
  pub Descends-update : (r : Run) → Descends r (if p r then f r else r)
  Descends-update r = elim (Bool-cases (p r)) [
    | inl e ↦ rw e (keep r e)
    | inr e ↦ rw e (Descends-refl r)
  ]

  pub update-IsBusy : (db : Db) → IsBusy db → IsBusy (record db { runs = update_where p f db.runs })
  update-IsBusy db h = record {
    at = λ r t mr mt active thread user.
        let (s, ms, e) = mem-update_where p f db.runs mr in
        let d = Descends-update s in
        h.at s t ms mt (d.was_active (rw e at active))
          (thread ∙ ap (λ (x : Run). x.thread_id) e ∙ d.same_thread)
          (user ∙ ap (λ (x : Run). x.user_id) e ∙ d.same_user);
  }

-- A thread that the guarded update touches has no active run of its owner.
untouched :
    (runs : List Run) (ids : List String) (user : String) (r : Run) (t : Thread)
    → Memᴰ r runs
    → is_active r.status ≡ true
    → t.thread_id ≡ r.thread_id
    → t.user_id ≡ r.user_id
    → has_no_active_runs runs ids user t ≡ false
untouched runs ids user r t m active thread own =
    elim (Bool-cases (active_run_exists runs t.thread_id user)) [
      | inl e ↦ rw e (ground arith)
      | inr e ↦
          let free = any-mem _ runs e m in
          ground (
            arith,
            free,
            eq_iff r.thread_id t.thread_id,
            eq_iff r.user_id user,
            eq_iff t.user_id user,
          )
    ]

pub put_status-IsBusy :
    (ids : List String) (status : ThreadStatus) (user : String) (now : ℕ) (db : Db)
    → IsBusy db
    → IsBusy (put_status_if_no_active_runs ids status user now db)
unfolding put_status_if_no_active_runs
put_status-IsBusy ids status user now db h = record {
  at = λ r t mr mt active thread own.
      let p = has_no_active_runs db.runs ids user in
      let (s, ms, e) = mem-update_where p (put_status status now) db.threads mt in
      elim (Bool-cases (p s)) [
        | inl touched ↦
            let e' : t ≡ put_status status now s = rw touched at e in
            let free =
              untouched db.runs ids user r s mr active
                (sym (ap (λ (x : Thread). x.thread_id) e') ∙ thread)
                (sym (ap (λ (x : Thread). x.user_id) e') ∙ own) in
            cc (touched, free)
        | inr kept ↦
            let e' : t ≡ s = rw kept at e in
            ap (λ (x : Thread). x.status) e'
            ∙ h.at r s mr ms active (sym (ap (λ (x : Thread). x.thread_id) e') ∙ thread)
                (sym (ap (λ (x : Thread). x.user_id) e') ∙ own)
      ];
}
