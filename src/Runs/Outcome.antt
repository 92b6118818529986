-- ===== src/Runs/Outcome.antt =====
-- What a caller of the guarded updates learns from their result.
use fastapi_langgraph_templa.Base.{
  ℕ, String, true, false, ◌≡◌, refl, Option, any-update_self, any-weaken, any-of_mem,
  mem-update_where_hit, Memᴰ, any, Bool-cases, inl, inr, arith,
}
use fastapi_langgraph_templa.Base.Json.{Json}
use fastapi_langgraph_templa.Runs.{RunStatus, ThreadStatus, is_active, Run, Db}
use fastapi_langgraph_templa.Runs.Status.{
  interrupt_unowned_run, is_unowned, put_status_if_no_active_runs, is_active_run, set_final,
  finalize, start_run,
}

module _ (run_id thread_id user_id : String) where
  pub finalize_inactive :
      (status : RunStatus) (thread_status : ThreadStatus) (output : Option Json)
      (error : Option String) (now : ℕ) (db : Db)
      → is_active status ≡ false
      → any
          (is_active_run run_id user_id)
          (finalize run_id thread_id user_id status thread_status output error now db).0.runs
        ≡ false
  unfolding finalize put_status_if_no_active_runs
  finalize_inactive status thread_status output error now db ended =
      let p = is_active_run run_id user_id in
      elim (Bool-cases (any p db.runs)) [
        | inl e ↦
            rw e
              (any-update_self p (set_final status output error now) db.runs (λ r h. ground arith))
        | inr e ↦ rw e e
      ]

  finalize_none :
      (status : RunStatus) (thread_status : ThreadStatus) (output : Option Json)
      (error : Option String) (now : ℕ) (db : Db)
      → any (is_active_run run_id user_id) db.runs ≡ false
      → finalize run_id thread_id user_id status thread_status output error now db ≡ (db, false)
  unfolding finalize
  finalize_none status thread_status output error now db free = rw free

  start_run_none :
      (now : ℕ) (db : Db)
      → any (is_active_run run_id user_id) db.runs ≡ false
      → start_run run_id user_id now db ≡ (db, false)
  unfolding start_run
  start_run_none now db free = rw free

  interrupt_none :
      (now : ℕ) (db : Db)
      → any (is_active_run run_id user_id) db.runs ≡ false
      → interrupt_unowned_run run_id thread_id user_id now db ≡ (db, false)
  unfolding interrupt_unowned_run
  interrupt_none now db free = rw (
      any-weaken (is_active_run run_id user_id) (is_unowned run_id thread_id user_id now)
        (λ r h. ground arith) db.runs free)

  -- After a status that is not active is written, another `finalize_run`, a `start_run` and a
  -- cancel from the API for this id and user find no active run: they return false and change
  -- nothing.
  pub finalize_once :
      (status : RunStatus) (thread_status : ThreadStatus) (output : Option Json)
      (error : Option String) (now : ℕ) (db : Db) (status' : RunStatus)
      (thread_status' : ThreadStatus) (output' : Option Json) (error' : Option String) (now' : ℕ)
      → is_active status ≡ false
      → let db' = (finalize run_id thread_id user_id status thread_status output error now db).0 in
        (finalize run_id thread_id user_id status' thread_status' output' error' now' db'
          ≡ (db', false))
        × (start_run run_id user_id now' db' ≡ (db', false))
        × (interrupt_unowned_run run_id thread_id user_id now' db' ≡ (db', false))
  finalize_once status thread_status output error now db status' thread_status' output' error' now'
        ended =
      let free = finalize_inactive status thread_status output error now db ended in
      (
        finalize_none status' thread_status' output' error' now' _ free,
        start_run_none now' _ free,
        interrupt_none now' _ free,
      )

  -- Where a run of this id and user is active, the transaction of `finalize_run` returns true, and the
  -- run has the status that was asked for, and the output and error that were given, or its old ones
  -- where none were.
  pub finalize-written :
      (status : RunStatus) (thread_status : ThreadStatus) (output : Option Json)
      (error : Option String) (now : ℕ) (db : Db) (r : Run)
      → Memᴰ r db.runs
      → is_active_run run_id user_id r ≡ true
      → let (db', done) =
          finalize run_id thread_id user_id status thread_status output error now db in
        (done ≡ true) × Memᴰ (set_final status output error now r) db'.runs
  unfolding finalize put_status_if_no_active_runs
  finalize-written status thread_status output error now db r m h =
      let p = is_active_run run_id user_id in
      let found = any-of_mem p db.runs m h in
      rw found (refl, mem-update_where_hit p (set_final status output error now) db.runs m h)
