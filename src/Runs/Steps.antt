-- ===== src/Runs/Steps.antt =====
-- The tables under many writers at once: API requests and the deletion of runs, workers, heartbeats,
-- the reaper and the drain at shutdown, one committed transaction after another in any order. The
-- deletion of threads, with the runs that go with them, is not among them.
use fastapi_langgraph_templa.Base.{
  ℕ, String, Bool, true, false, ◌≡◌, Option, none, List, ok, not, ◌&&◌, str_eq, Memᴰ, mem-Extends,
  arith,
}
use fastapi_langgraph_templa.Base.Json.{Json}
use fastapi_langgraph_templa.Runs.{
  RunStatus, ThreadStatus, is_active, ExecutionParams, Run, Db, IsBusy,
}
use fastapi_langgraph_templa.Runs.Status.{start_run, interrupt_unowned_run, finalize}
use fastapi_langgraph_templa.Runs.Lease.{
  claim_run, drop_corrupt, release_lease, heartbeat, requeue_drained,
}
use fastapi_langgraph_templa.Runs.Delete.{delete_row}
use fastapi_langgraph_templa.Runs.Corrupt.{
  drop-IsBusy, drop-AllSound, drop-mem, delete-IsBusy, delete-AllSound, delete-mem,
}
use fastapi_langgraph_templa.Runs.Reaper.{recover_crashed_runs}
use fastapi_langgraph_templa.Runs.Prepare.{prepare_run}
use fastapi_langgraph_templa.Runs.Prepare.Changes.{prepared_is, prepare-Changes}
use fastapi_langgraph_templa.Runs.Moves.{Evolves, Evolves-refl, Evolves-trans}
use fastapi_langgraph_templa.Runs.Changes.{
  AllSound, Changes, start_run-Changes, interrupt-Changes, finalize-Changes, claim-Changes,
  release-Changes, heartbeat-Changes, requeue-Changes, recover-Changes,
}

-- One transaction that asks for the statuses of the rows that it writes, or leaves them. New params
-- carry no retry count, and a final status is not an active one.
pub data Transaction (m : ℕ) (db db' : Db) : Type 0 where
  prepare :
      (run_id thread_id user_id : String) (params : ExecutionParams) (now : ℕ)
      → params.retry_count ≡ none
      → prepare_run run_id thread_id user_id RunStatus.pending params now db ≡ ok db'
      → Transaction m db db'
  start :
      (run_id user_id : String) (now : ℕ)
      → db' ≡ (start_run run_id user_id now db).0
      → Transaction m db db'
  interrupt :
      (run_id thread_id user_id : String) (now : ℕ)
      → db' ≡ (interrupt_unowned_run run_id thread_id user_id now db).0
      → Transaction m db db'
  finish :
      (run_id thread_id user_id : String) (status : RunStatus) (thread_status : ThreadStatus)
      (output : Option Json) (error : Option String) (now : ℕ)
      → is_active status ≡ false
      → db' ≡ (finalize run_id thread_id user_id status thread_status output error now db).0
      → Transaction m db db'
  claim :
      (run_id worker : String) (until : ℕ)
      → db' ≡ (claim_run run_id worker until db).0
      → Transaction m db db'
  release : (run_id worker : String) → db' ≡ release_lease run_id worker db → Transaction m db db'
  beat :
      (run_id worker : String) (now duration : ℕ)
      → db' ≡ (heartbeat run_id worker now duration db).0
      → Transaction m db db'
  drain : (run_ids : List String) → db' ≡ (requeue_drained run_ids db).0 → Transaction m db db'
  reap :
      (run_ids : List String) (locked : Run → Bool) (now : ℕ)
      → db' ≡ (recover_crashed_runs run_ids locked now m db).0
      → Transaction m db db'

-- One transaction, by whoever takes it: also the two that ask for no status.
pub data Step (m : ℕ) (db db' : Db) : Type 0 where
  write : Transaction m db db' → Step m db db'
  corrupt : (run_id worker : String) → db' ≡ drop_corrupt run_id worker db → Step m db db'
  delete :
      (run_id thread_id user_id : String)
      → db' ≡ delete_row run_id thread_id user_id db
      → Step m db db'

-- Any number of transactions.
pub data Reach (m : ℕ) (db : Db) : Db → Type 0 where
  here : Reach m db db
  next : {mid db' : Db} → Reach m db mid → Step m mid db' → Reach m db db'

module _ (m : ℕ) where
  pub Transaction-Changes : {db db' : Db} → Transaction m db db' → Changes m db db'
  Transaction-Changes {db} (prepare r t u ps now fresh e) =
      rw (← prepared_is r t u ps now db e) (prepare-Changes r t u ps now db m fresh)
  Transaction-Changes {db} (start r u now e) = rw e (start_run-Changes m r u now db)
  Transaction-Changes {db} (interrupt r t u now e) = rw e (interrupt-Changes m r t u now db)
  Transaction-Changes {db} (finish r t u s ts o x now ended e) =
      rw e (finalize-Changes m r t u s ts o x now db ended)
  Transaction-Changes {db} (claim r w until e) = rw e (claim-Changes m r w until db)
  Transaction-Changes {db} (release r w e) = rw e (release-Changes m r w db)
  Transaction-Changes {db} (beat r w now d e) = rw e (heartbeat-Changes m r w now d db)
  Transaction-Changes {db} (drain ids e) = rw e (requeue-Changes m ids db)
  Transaction-Changes {db} (reap ids locked now e) = rw e (recover-Changes m ids locked now db)

  Step-IsBusy : {db db' : Db} → Step m db db' → IsBusy db → IsBusy db'
  Step-IsBusy (write t) h = (Transaction-Changes t).busy h
  Step-IsBusy {db} (corrupt run_id worker e) h = rw e (drop-IsBusy run_id worker db h)
  Step-IsBusy {db} (delete run_id thread_id user_id e) h =
      rw e (delete-IsBusy run_id thread_id user_id db h)

  Step-AllSound : {db db' : Db} → Step m db db' → AllSound m db → AllSound m db'
  Step-AllSound (write t) h = (Transaction-Changes t).sound h
  Step-AllSound {db} (corrupt run_id worker e) h = rw e (drop-AllSound m run_id worker db h)
  Step-AllSound {db} (delete run_id thread_id user_id e) h =
      rw e (delete-AllSound m run_id thread_id user_id db h)

  -- The step is a drop or a deletion under this id.
  abbrev names : {db db' : Db} → Step m db db' → String → Bool
  names (write t) id = false
  names (corrupt run_id worker e) id = str_eq id run_id
  names (delete run_id thread_id user_id e) id = str_eq id run_id

  abbrev pub spares : {db db' : Db} → Reach m db db' → String → Bool
  spares here id = true
  spares (next r s) id = not (names s id) && spares r id

  Step-mem :
      {db db' : Db} (s : Step m db db') (r : Run)
      → names s r.run_id ≡ false
      → Memᴰ r db.runs
      → (r' : Run) × Memᴰ r' db'.runs × Evolves r r'
  Step-mem (write t) r off k =
      let (r', k', moves) = mem-Extends (Transaction-Changes t).rows k in (r', k', moves.evolves)
  Step-mem {db} (corrupt run_id worker e) r off k =
      (r, rw e (drop-mem run_id worker db r off k), Evolves-refl r)
  Step-mem {db} (delete run_id thread_id user_id e) r off k =
      (r, rw e (delete-mem run_id thread_id user_id db r off k), Evolves-refl r)

  -- Whatever transactions of `Step` are taken, in whatever order: a thread whose owner has a
  -- pending or running run on it is busy, if that was so at the start.
  pub Reach-IsBusy : {db db' : Db} → IsBusy db → Reach m db db' → IsBusy db'
  Reach-IsBusy h here = h
  Reach-IsBusy h (next r s) = Step-IsBusy s (Reach-IsBusy h r)

  -- Whatever transactions of `Step` are taken, under a retry budget of `m`: a claim and its lease
  -- come together, a pending run is held by nobody, and an active run has at most `m` retries, if
  -- that was so at the start.
  pub Reach-AllSound : {db db' : Db} → AllSound m db → Reach m db db' → AllSound m db'
  Reach-AllSound h here = h
  Reach-AllSound h (next r s) = Step-AllSound s (Reach-AllSound h r)

  -- Whatever transactions of `Step` are taken in whatever order, as long as none of them is a drop of a
  -- row without params or a deletion under the id of a run: the run is still there with its keys, and
  -- if it had ended, its status, its output and its error are unchanged.
  pub Reach-settled :
      {db db' : Db} (path : Reach m db db') (r : Run)
      → spares path r.run_id ≡ true
      → Memᴰ r db.runs
      → (r' : Run) × Memᴰ r' db'.runs × Evolves r r'
  Reach-settled here r h k = (r, k, Evolves-refl r)
  Reach-settled (next path s) r h k =
      let (x, mx, first) = Reach-settled path r (ground (arith, h)) k in
      let off : names s x.run_id ≡ false = rw first.same_run (ground (arith, h)) in
      let (y, my, then_) = Step-mem s x off mx in (y, my, Evolves-trans r x y first then_)
