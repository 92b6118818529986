-- ===== src/Runs/Deletion.antt =====
-- `delete_run` of `controller/http/routers/runs.py`: what is deleted, and what is left.
use fastapi_langgraph_templa.Base.{
  eq_iff, String, Bool, true, false, not, ◌&&◌, ◌≡◌, refl, Option-cases, Bool-cases, inl, inr, find,
  find-mem, Memᴰ, mem-select, mem-select_inv, arith, Result, ok, err,
}
use fastapi_langgraph_templa.Base.Http.{HttpException}
use fastapi_langgraph_templa.Runs.{is_active, Run, Db}
use fastapi_langgraph_templa.Runs.Delete.{is_target, delete_row, delete_run}

-- The run of this id on this thread, of this user.
abbrev pub HasKeys : String → String → String → Run → Type 0
HasKeys run_id thread_id user_id r =
    (r.run_id ≡ run_id) × (r.thread_id ≡ thread_id) × (r.user_id ≡ user_id)

is_target-HasKeys :
    (run_id thread_id user_id : String) (r : Run)
    → is_target run_id thread_id user_id r ≡ true
    → HasKeys run_id thread_id user_id r
is_target-HasKeys run_id thread_id user_id r h = (
  (eq_iff r.run_id run_id).0 (ground (arith, h)),
  (eq_iff r.thread_id thread_id).0 (ground (arith, h)),
  (eq_iff r.user_id user_id).0 (ground (arith, h)),
)

HasKeys-is_target :
    (run_id thread_id user_id : String) (r : Run)
    → HasKeys run_id thread_id user_id r
    → is_target run_id thread_id user_id r ≡ true
HasKeys-is_target run_id thread_id user_id r (id, thread, user) =
    rw ((eq_iff r.run_id run_id).1 id)
      (rw ((eq_iff r.thread_id thread_id).1 thread) ((eq_iff r.user_id user_id).1 user))

module _ (run_id thread_id user_id : String) where
  delete_row-gone :
      (db : Db) (x : Run)
      → Memᴰ x (delete_row run_id thread_id user_id db).runs
      → HasKeys run_id thread_id user_id x
      → ⊥
  unfolding delete_row
  delete_row-gone db x k keys =
      let (m, off) = mem-select_inv (λ y. not (is_target run_id thread_id user_id y)) db.runs k in
      let on = HasKeys-is_target run_id thread_id user_id x keys in absurd (ground (arith, on, off))

  delete_row-keeps :
      (db : Db) (x : Run)
      → Memᴰ x db.runs
      → (HasKeys run_id thread_id user_id x → ⊥)
      → Memᴰ x (delete_row run_id thread_id user_id db).runs
  unfolding delete_row
  delete_row-keeps db x k other =
      mem-select (λ y. not (is_target run_id thread_id user_id y)) db.runs k
        (elim (Bool-cases (is_target run_id thread_id user_id x)) [
          | inl on ↦ absurd (other (is_target-HasKeys run_id thread_id user_id x on))
          | inr off ↦ rw off refl
        ])

  -- How a deletion ends, from the tables at its query and those at its DELETE.
  pub data Deleted (force : Bool) (db late : Db) (result : Db × Result HttpException Bool)
      : Type 0 where
    kept : (e : HttpException) → result ≡ (db, err e) → Deleted force db late result
    gone :
        (r : Run)
        → Memᴰ r db.runs
        → HasKeys run_id thread_id user_id r
        → (force ≡ false → is_active r.status ≡ false)
        → ((x : Run) → Memᴰ x result.0.runs → HasKeys run_id thread_id user_id x → ⊥)
        → ((x : Run)
            → Memᴰ x late.runs
            → (HasKeys run_id thread_id user_id x → ⊥)
            → Memᴰ x result.0.runs)
        → result.0.threads ≡ late.threads
        → result.1 ≡ ok true
        → Deleted force db late result

  -- A deletion either raises an HTTP error and changes nothing, or the run that it found is gone, of
  -- whatever others committed before the DELETE every other run is left, and so are the threads.
  -- Without `force` the run that it found was not active.
  pub delete_run_deletes :
      (authorized : Result HttpException Bool) (others : Db → Db) (force : Bool) (db : Db)
      → Deleted force db
          (others db)
          (delete_run authorized others run_id thread_id user_id force db)
  unfolding delete_run
  delete_run_deletes (err e) others force db = kept e refl
  delete_run_deletes (ok allowed) others force db =
      elim (Option-cases (find (is_target run_id thread_id user_id) db.runs)) [
        | inl e ↦ rw (e, delete_run) (kept (record { status_code = 404 }) refl)
        | inr (r, e) ↦
            let (m, target) = find-mem (is_target run_id thread_id user_id) db.runs e in
            elim (Bool-cases (is_active r.status && not force)) [
              | inl h ↦ rw (e, delete_run) (rw h (kept (record { status_code = 409 }) refl))
              | inr h ↦
                  rw (e, delete_run)
                    (rw h (
                      gone r m (is_target-HasKeys run_id thread_id user_id r target)
                        (λ soft. ground (arith, h, soft)) (delete_row-gone (others db))
                        (delete_row-keeps (others db)) (unfold delete_row in refl) refl))
            ]
      ]
