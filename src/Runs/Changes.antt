-- ===== src/Runs/Changes.antt =====
-- What each transaction may do to the tables of runs and threads, operation by operation.
use fastapi_langgraph_templa.Base.{
  ℕ, String, Bool, true, false, ◌≡◌, Option, List, [], ◌∷◌, ltb, ◌+◌, inl, inr, Memᴰ, Extends,
  Extends-refl, Extends-update, Extends-trans, mem-update_where, update_where, Bool-cases, any,
  if◌then◌else◌, select,
}
use fastapi_langgraph_templa.Base.Json.{Json}
use fastapi_langgraph_templa.Runs.{RunStatus, ThreadStatus, is_active, Run, Db, IsBusy}
use fastapi_langgraph_templa.Runs.Status.{
  is_active_run, set_running, is_unowned, set_interrupted, set_final, start_run,
  interrupt_unowned_run, finalize, put_status_if_no_active_runs,
}
use fastapi_langgraph_templa.Runs.Lease.{
  is_claimable, claim_run, release_lease, heartbeat, requeue_drained,
}
use fastapi_langgraph_templa.Runs.Reaper.{
  Recovery, retries, is_still_crashed, recover_row, recover_rows, fail_threads,
  recover_crashed_runs, lockable, start_recovery,
}
use fastapi_langgraph_templa.Runs.Rules.{update-IsBusy, put_status-IsBusy}
use fastapi_langgraph_templa.Runs.Moves.{
  IsSound, Moves, Moves-refl, Moves-trans, Moves-Descends, start-Moves, interrupt-Moves,
  final-Moves, claim-Moves, clear-Moves, extend-Moves, requeue-Moves, exhaust-Moves, retry-Moves,
}

-- Every run is sound.
pub record AllSound (max_retries : ℕ) (db : Db) : Type 0 where
  pub at : (r : Run) → Memᴰ r db.runs → IsSound max_retries r

-- What a transaction may do to both tables.
pub record Changes (m : ℕ) (db db' : Db) : Type 0 where
  pub rows : Extends (Moves m) db.runs db'.runs
  pub busy : IsBusy db → IsBusy db'
  pub sound : AllSound m db → AllSound m db'

module _ (m : ℕ) where
  pub Changes-refl : (db : Db) → Changes m db db
  Changes-refl db = record {
    rows = Extends-refl (Moves m) (Moves-refl m) db.runs;
    busy = λ h. h;
    sound = λ h. h;
  }

  pub Changes-trans : (a b c : Db) → Changes m a b → Changes m b c → Changes m a c
  Changes-trans a b c p q = record {
    rows = Extends-trans (Moves-trans m) p.rows q.rows;
    busy = λ h. q.busy (p.busy h);
    sound = λ h. q.sound (p.sound h);
  }

  pub update-Changes :
      (p : Run → Bool) (f : Run → Run)
      → ((r : Run) → p r ≡ true → Moves m r (f r))
      → (db : Db) → Changes m db (record db { runs = update_where p f db.runs })
  update-Changes p f keep db = record {
    rows = Extends-update (Moves m) (Moves-refl m) p f keep db.runs;
    busy = update-IsBusy p f (λ r h. Moves-Descends m r (f r) (keep r h)) db;
    sound = λ h. record {
      at = λ r mr.
          let (s, ms, e) = mem-update_where p f db.runs mr in
          elim (Bool-cases (p s)) [
            | inl t ↦ let e' : r ≡ f s = rw t at e in rw e' ((keep s t).sound (h.at s ms))
            | inr t ↦ let e' : r ≡ s = rw t at e in rw e' (h.at s ms)
          ];
    };
  }

  pub threads-Changes :
      (ids : List String) (status : ThreadStatus) (user : String) (now : ℕ) (db : Db)
      → Changes m db (put_status_if_no_active_runs ids status user now db)
  unfolding put_status_if_no_active_runs
  threads-Changes ids status user now db = record {
    rows = Extends-refl (Moves m) (Moves-refl m) db.runs;
    busy = put_status-IsBusy ids status user now db;
    sound = λ h. record { at = h.at };
  }

  pub if-Changes :
      (b : Bool) (db x y : Db) → Changes m db x → Changes m db y → Changes m db (if b then x else y)
  if-Changes true db x y p q = p
  if-Changes false db x y p q = q

  pub start_run-Changes :
      (run_id user_id : String) (now : ℕ) (db : Db)
      → Changes m db (start_run run_id user_id now db).0
  unfolding start_run
  start_run-Changes run_id user_id now db =
      elim (Bool-cases (any (is_active_run run_id user_id) db.runs)) [
        | inl e ↦ rw e (
            update-Changes (is_active_run run_id user_id) (set_running now)
              (start-Moves m run_id user_id now) db)
        | inr e ↦ rw e (Changes-refl db)
      ]

  pub interrupt-Changes :
      (run_id thread_id user_id : String) (now : ℕ) (db : Db)
      → Changes m db (interrupt_unowned_run run_id thread_id user_id now db).0
  unfolding interrupt_unowned_run
  interrupt-Changes run_id thread_id user_id now db =
      let p = is_unowned run_id thread_id user_id now in
      let mid : Db = record db { runs = update_where p (set_interrupted now) db.runs } in
      elim (Bool-cases (any p db.runs)) [
        | inl e ↦ rw e (
            Changes-trans db mid _
              (update-Changes p (set_interrupted now)
                (interrupt-Moves m run_id thread_id user_id now) db)
              (threads-Changes (thread_id ∷ []) ThreadStatus.idle user_id now mid))
        | inr e ↦ rw e (Changes-refl db)
      ]

  pub finalize-Changes :
      (run_id thread_id user_id : String) (status : RunStatus) (thread_status : ThreadStatus)
      (output : Option Json) (error : Option String) (now : ℕ) (db : Db)
      → is_active status ≡ false
      → Changes m db (finalize run_id thread_id user_id status thread_status output error now db).0
  unfolding finalize
  finalize-Changes run_id thread_id user_id status thread_status output error now db ended =
      let p = is_active_run run_id user_id in
      let mid : Db = record db {
        runs = update_where p (set_final status output error now) db.runs;
      } in
      elim (Bool-cases (any p db.runs)) [
        | inl e ↦ rw e (
            Changes-trans db mid _
              (update-Changes p (set_final status output error now)
                (λ r h. final-Moves m status output error run_id user_id now r ended h) db)
              (threads-Changes (thread_id ∷ []) thread_status user_id now mid))
        | inr e ↦ rw e (Changes-refl db)
      ]

  pub claim-Changes :
      (run_id worker : String) (until : ℕ) (db : Db)
      → Changes m db (claim_run run_id worker until db).0
  unfolding claim_run
  claim-Changes run_id worker until db = elim (Bool-cases (any (is_claimable run_id) db.runs)) [
    | inl e ↦ rw e (update-Changes _ _ (claim-Moves m run_id worker until) db)
    | inr e ↦ rw e (Changes-refl db)
  ]

  pub release-Changes :
      (run_id worker : String) (db : Db) → Changes m db (release_lease run_id worker db)
  unfolding release_lease
  release-Changes run_id worker db = update-Changes _ _ (clear-Moves m run_id worker) db

  pub heartbeat-Changes :
      (run_id worker : String) (now duration : ℕ) (db : Db)
      → Changes m db (heartbeat run_id worker now duration db).0
  unfolding heartbeat
  heartbeat-Changes run_id worker now duration db =
      update-Changes _ _ (extend-Moves m run_id worker (now + duration)) db

  pub requeue-Changes :
      (run_ids : List String) (db : Db) → Changes m db (requeue_drained run_ids db).0
  unfolding requeue_drained
  requeue-Changes run_ids db = update-Changes _ _ (requeue-Moves m run_ids) db

  pub recover_row-Changes :
      (now : ℕ) (r : Run) (acc : Recovery) → Changes m acc.db (recover_row now m r acc).db
  unfolding recover_row
  recover_row-Changes now r acc =
      elim (Bool-cases (any (is_still_crashed r.run_id r.user_id now) acc.db.runs)) [
        | inl e ↦ rw e (elim (Bool-cases (ltb m (retries r + 1))) [
          | inl t ↦ rw t (update-Changes _ _ (exhaust-Moves m r now) acc.db)
          | inr t ↦ rw t (update-Changes _ _ (λ s h. retry-Moves m r now s t h) acc.db)
        ])
        | inr e ↦ rw e (Changes-refl acc.db)
      ]

  pub recover_rows-Changes :
      (now : ℕ) (rs : List Run) (acc : Recovery) → Changes m acc.db (recover_rows now m rs acc).db
  unfolding recover_rows
  recover_rows-Changes now [] acc = Changes-refl acc.db
  recover_rows-Changes now (r ∷ rs) acc =
      Changes-trans acc.db (recover_row now m r acc).db _ (recover_row-Changes now r acc)
        (recover_rows-Changes now rs (recover_row now m r acc))

  pub fail_threads-Changes :
      (now : ℕ) (by_user : List (String × List String)) (db : Db)
      → Changes m db (fail_threads now by_user db)
  unfolding fail_threads
  fail_threads-Changes now [] db = Changes-refl db
  fail_threads-Changes now ((u, ts) ∷ rest) db =
      let next = put_status_if_no_active_runs ts ThreadStatus.error u now db in
      Changes-trans db next _ (threads-Changes ts ThreadStatus.error u now db)
        (fail_threads-Changes now rest next)

  pub recover-Changes :
      (run_ids : List String) (locked : Run → Bool) (now : ℕ) (db : Db)
      → Changes m db (recover_crashed_runs run_ids locked now m db).0
  unfolding recover_crashed_runs
  recover-Changes run_ids locked now db =
      let rs = select (lockable run_ids locked now) db.runs in
      let done = recover_rows now m rs (start_recovery db) in
      Changes-trans db done.db _ (recover_rows-Changes now rs (start_recovery db))
        (fail_threads-Changes now done.threads_by_user done.db)
