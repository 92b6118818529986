-- ===== src/Runs/Corrupt.antt =====
-- The two writes that ask for no status: the drop of a claimed row without params
-- (`_acquire_and_load` in `usecase/execution/worker_executor.py`) and the DELETE of a run
-- (`controller/http/routers/runs.py`). What they do depends on the row.
use fastapi_langgraph_templa.Base.{
  ℕ, String, false, not, ◌≡◌, Memᴰ, mem-update_where, mem-select, mem-select_inv,
  mem-update_where_off, str_eq, arith, Bool-cases, inl, inr,
}
use fastapi_langgraph_templa.Runs.{Run, Db, IsBusy}
use fastapi_langgraph_templa.Runs.Lease.{is_held_by, set_corrupt, drop_corrupt}
use fastapi_langgraph_templa.Runs.Delete.{is_target, delete_row}
use fastapi_langgraph_templa.Runs.Rules.{Descends, update-IsBusy}
use fastapi_langgraph_templa.Runs.Moves.{IsSound}
use fastapi_langgraph_templa.Runs.Changes.{AllSound}

corrupt-Descends : (r : Run) → Descends r (set_corrupt r)
corrupt-Descends r = ground arith

corrupt-IsSound : (m : ℕ) (r : Run) → IsSound m (set_corrupt r)
corrupt-IsSound m r = ground arith

pub drop-IsBusy :
    (run_id worker : String) (db : Db) → IsBusy db → IsBusy (drop_corrupt run_id worker db)
unfolding drop_corrupt
drop-IsBusy run_id worker db h =
    update-IsBusy (is_held_by run_id worker) set_corrupt (λ r k. corrupt-Descends r) db h

pub drop-AllSound :
    (m : ℕ) (run_id worker : String) (db : Db)
    → AllSound m db
    → AllSound m (drop_corrupt run_id worker db)
unfolding drop_corrupt
drop-AllSound m run_id worker db h = record {
  at = λ r mr.
      let (s, ms, e) = mem-update_where (is_held_by run_id worker) set_corrupt db.runs mr in
      elim (Bool-cases (is_held_by run_id worker s)) [
        | inl t ↦ let e' : r ≡ set_corrupt s = rw t at e in rw e' (corrupt-IsSound m s)
        | inr t ↦ let e' : r ≡ s = rw t at e in rw e' (h.at s ms)
      ];
}

-- A drop for another id leaves the row as it is.
pub drop-mem :
    (run_id worker : String) (db : Db) (r : Run)
    → str_eq r.run_id run_id ≡ false
    → Memᴰ r db.runs
    → Memᴰ r (drop_corrupt run_id worker db).runs
unfolding drop_corrupt
drop-mem run_id worker db r off k =
    mem-update_where_off (is_held_by run_id worker) set_corrupt db.runs k (ground (arith, off))

pub delete-IsBusy :
    (run_id thread_id user_id : String) (db : Db)
    → IsBusy db
    → IsBusy (delete_row run_id thread_id user_id db)
unfolding delete_row
delete-IsBusy run_id thread_id user_id db h = record {
  at = λ r t mr.
      h.at r t (mem-select_inv (λ x. not (is_target run_id thread_id user_id x)) db.runs mr).0;
}

pub delete-AllSound :
    (m : ℕ) (run_id thread_id user_id : String) (db : Db)
    → AllSound m db
    → AllSound m (delete_row run_id thread_id user_id db)
unfolding delete_row
delete-AllSound m run_id thread_id user_id db h = record {
  at = λ r mr.
      h.at r (mem-select_inv (λ x. not (is_target run_id thread_id user_id x)) db.runs mr).0;
}

pub delete-mem :
    (run_id thread_id user_id : String) (db : Db) (r : Run)
    → str_eq r.run_id run_id ≡ false
    → Memᴰ r db.runs
    → Memᴰ r (delete_row run_id thread_id user_id db).runs
unfolding delete_row
delete-mem run_id thread_id user_id db r off k =
    mem-select (λ x. not (is_target run_id thread_id user_id x)) db.runs k (ground (arith, off))
