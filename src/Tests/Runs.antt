-- ===== src/Tests/Runs.antt =====
-- A run's life on concrete tables: prepared, claimed, finished, and the reaper's sweep.
use fastapi_langgraph_templa.Base.{ok, true, false, ◌≡◌, refl, none, some, [], ◌∷◌, Memᴰ, Extends}
use fastapi_langgraph_templa.Base.Json.{Json, text, end}
use fastapi_langgraph_templa.Runs.{
  RunStatus, ThreadStatus, ExecutionParams, Run, Thread, Db, IsBusy,
}
use fastapi_langgraph_templa.Runs.Status.{Serializer, start_run, interrupt_unowned_run, finalize}
use fastapi_langgraph_templa.Runs.Lease.{claim_run}
use fastapi_langgraph_templa.Runs.Reaper.{recover_crashed_runs, find_recoverable, is_crashed}
use fastapi_langgraph_templa.Runs.Reaper.Complete.{sweep_complete}
use fastapi_langgraph_templa.Runs.Prepare.Changes.{prepare_run_total, prepared}
use fastapi_langgraph_templa.Runs.Moves.{Evolves}
use fastapi_langgraph_templa.Runs.Changes.{AllSound}
use fastapi_langgraph_templa.Runs.Delete.{delete_row, delete_run}
use fastapi_langgraph_templa.Runs.Deletion.{Deleted, delete_run_deletes}
use fastapi_langgraph_templa.Runs.Steps.{
  write, delete, prepare, claim, finish, Reach, here, next, Reach-IsBusy, Reach-AllSound,
  Reach-settled,
}
use fastapi_langgraph_templa.Runs.Claims.{Spares, recover-Spares, claim_once}
use fastapi_langgraph_templa.Runs.Outcome.{finalize_once}
use fastapi_langgraph_templa.Runs.Execute.{
  Job, Cancellations, finished, cancelled, execute_run, conclude, settle,
}
use fastapi_langgraph_templa.Runs.Execute.Ends.{
  still_active, cleaned_is_over, is_handed_over, handed_over_exactly,
}

abbrev no_rows : Db
no_rows = record { runs = []; threads = [] }

abbrev job_params : ExecutionParams
job_params = record { job = end; retry_count = none }

abbrev queued : Db
queued = prepared "r1" "t1" "u1" job_params 5 no_rows

abbrev held : Db
held = (claim_run "r1" "w1" 40 queued).0

abbrev life : Reach 3 no_rows held
life =
    next
      (next here (
        write (
          prepare "r1" "t1" "u1" job_params 5 refl
            (prepare_run_total "r1" "t1" "u1" job_params 5 no_rows))))
      (write (claim "r1" "w1" 40 refl))

abbrev no_rows-IsBusy : IsBusy no_rows
no_rows-IsBusy = record { at = λ r t m. elim m [ ] }

Reach-IsBusy_example : IsBusy held
Reach-IsBusy_example = Reach-IsBusy 3 no_rows-IsBusy life

abbrev no_rows-AllSound : AllSound 3 no_rows
no_rows-AllSound = record { at = λ r m. elim m [ ] }

Reach-AllSound_example : AllSound 3 held
Reach-AllSound_example = Reach-AllSound 3 no_rows-AllSound life

-- A run of another user that has ended, and what happens after it.
abbrev over : Run
over = record {
  run_id = "r0";
  thread_id = "t1";
  user_id = "u1";
  status = RunStatus.success;
  output = some (text "done");
  error_message = none;
  claimed_by = none;
  lease_expires_at = none;
  created_at = 1;
  updated_at = 2;
  execution_params = none;
}

abbrev held_run : Run
held_run = record over {
  run_id = "r1";
  status = RunStatus.running;
  output = none;
  claimed_by = some "w1";
  lease_expires_at = some 40;
}

abbrev pending_run : Run
pending_run = record over { run_id = "r2"; status = RunStatus.pending; output = none }

abbrev thread : Thread
thread = record { thread_id = "t1"; user_id = "u1"; status = ThreadStatus.busy; updated_at = 5 }

abbrev tables : Db
tables = record { runs = over ∷ held_run ∷ pending_run ∷ []; threads = thread ∷ [] }

-- The run of r1 ends, and that of r2 is deleted.
abbrev ended_tables : Db
ended_tables =
    (finalize "r1" "t1" "u1" RunStatus.error ThreadStatus.error none (some "boom") 9 tables).0

abbrev end_and_delete : Reach 3 tables (delete_row "r2" "t1" "u1" ended_tables)
end_and_delete =
    next
      (next here (
        write (
          finish "r1" "t1" "u1" RunStatus.error ThreadStatus.error none (some "boom") 9 refl refl)))
      (delete "r2" "t1" "u1" refl)

Reach-settled_example :
    (r' : Run) × Memᴰ r' (delete_row "r2" "t1" "u1" ended_tables).runs × Evolves over r'
Reach-settled_example = Reach-settled 3 end_and_delete over refl (Memᴰ.head refl)

delete_run_deletes_example :
    Deleted "r0" "t1" "u1" false tables tables
      (delete_run (ok true) (λ t. t) "r0" "t1" "u1" false tables)
delete_run_deletes_example = delete_run_deletes "r0" "t1" "u1" (ok true) (λ t. t) false tables

claim_once_example :
    claim_run "r2" "w2" 50 (claim_run "r2" "w1" 40 tables).0
    ≡ ((claim_run "r2" "w1" 40 tables).0, false)
unfolding claim_run
claim_once_example = claim_once "r2" "w1" "w2" 40 50 tables refl

finalize_once_example :
    let db = (finalize "r1" "t1" "u1" RunStatus.success ThreadStatus.idle none none 9 tables).0 in
    (finalize "r1" "t1" "u1" RunStatus.error ThreadStatus.error none none 10 db ≡ (db, false))
    × (start_run "r1" "u1" 10 db ≡ (db, false))
    × (interrupt_unowned_run "r1" "t1" "u1" 10 db ≡ (db, false))
finalize_once_example =
    finalize_once "r1" "t1" "u1" RunStatus.success ThreadStatus.idle none none 9 tables
      RunStatus.error ThreadStatus.error none none 10 refl

recover-Spares_example :
    Extends
      (Spares 20)
      tables.runs
      (recover_crashed_runs ("r1" ∷ []) (λ r. false) 20 3 tables).0.runs
recover-Spares_example = recover-Spares 20 ("r1" ∷ []) (λ r. false) 3 tables

abbrev reaped_run : Run
reaped_run = record held_run {
  status = RunStatus.pending;
  claimed_by = none;
  lease_expires_at = none;
  updated_at = 60;
  execution_params = some (record { job = end; retry_count = some 1 });
}

sweep_complete_example : is_crashed 60 reaped_run ≡ false
unfolding recover_crashed_runs find_recoverable
sweep_complete_example = sweep_complete 60 3 tables reaped_run (Memᴰ.tail (Memᴰ.head refl))

-- A graph whose output is a JSON value.
abbrev plain : Serializer Json
plain = record { serialize = λ j. some j; type_name = λ j. "dict" }

abbrev job : Job
job = record { run_id = "r1"; thread_id = "t1"; user_id = "u1" }

abbrev no_cancellations : Cancellations
no_cancellations = record { lease_loss = []; shutdown = []; timeout = [] }

abbrev lease_lost : Cancellations
lease_lost = record { lease_loss = "r1" ∷ []; shutdown = []; timeout = [] }

cleaned_is_over_example :
    still_active plain
      (text "")
      job
      9
      (execute_run plain
        (text "")
        job
        9
        (λ db. db)
        (finished false (text "a"))
        no_cancellations
        tables).db
    ≡ false
unfolding execute_run start_run settle
cleaned_is_over_example =
    cleaned_is_over plain (text "") job 9 (λ db. db) (finished false (text "a")) no_cancellations
      tables refl

handed_over_exactly_example :
    let x = conclude plain (text "") job 9 cancelled lease_lost tables in
    (is_handed_over plain (text "") job 9 cancelled lease_lost ≡ true
      → (x.db ≡ tables) × (x.signals ≡ []) × (x.cleaned ≡ false) × (x.raised ≡ true))
    × (is_handed_over plain (text "") job 9 cancelled lease_lost ≡ false
        → (still_active plain (text "") job 9 x.db ≡ false) × (x.cleaned ≡ true))
handed_over_exactly_example = handed_over_exactly plain (text "") job 9 cancelled lease_lost tables
