-- ===== src/Runs/Delete.antt =====
-- `delete_run` of `controller/http/routers/runs.py`: the deletion of a run's row. The answer of the
-- authorization handler is an argument, and so is what others commit between the query and the DELETE,
-- the cancellation that `force` asks for among it.
use fastapi_langgraph_templa.Base.{
  String, Bool, true, not, ◌&&◌, none, some, find, select, str_eq, if◌then◌else◌, Result, ok, err,
}
use fastapi_langgraph_templa.Base.Http.{HttpException}
use fastapi_langgraph_templa.Runs.{is_active, Run, Db}

abbrev pub is_target : String → String → String → Run → Bool
is_target run_id thread_id user_id r =
    str_eq r.run_id run_id && (str_eq r.thread_id thread_id && str_eq r.user_id user_id)

unfoldable pub delete_row : String → String → String → Db → Db
delete_row run_id thread_id user_id db = record db {
  runs = select (λ r. not (is_target run_id thread_id user_id r)) db.runs;
}

unfoldable pub delete_run :
    Result HttpException Bool
    → (Db → Db)
    → String
    → String
    → String
    → Bool
    → Db
    → Db × Result HttpException Bool
delete_run (err e) others run_id thread_id user_id force db = (db, err e)
delete_run (ok allowed) others run_id thread_id user_id force db =
    elim (find (is_target run_id thread_id user_id) db.runs) [
      | none ↦ (db, err (record { status_code = 404 }))
      | some r ↦
          if is_active r.status && not force
          then (db, err (record { status_code = 409 }))
          else (delete_row run_id thread_id user_id (others db), ok true)
    ]
