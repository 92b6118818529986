-- ===== src/Stream/Idle.antt =====
-- `usecase/streaming/v2/session.py`: when the stream of a thread comes to an end.
use fastapi_langgraph_templa.Base.{ℕ, String, Bool, false, Option, List, all, contains}
use fastapi_langgraph_templa.Base.Json.{Json}
use fastapi_langgraph_templa.Stream.Session.{Session}
use fastapi_langgraph_templa.Stream.Drain.{Poll, Loop}

-- A poll that brings no run that was not drained before.
abbrev pub is_quiet : List String → Poll → Bool
is_quiet drained poll = all (λ run. contains drained run.run_id) poll.runs

abbrev pub waiting : List String → Option ℕ → Loop
waiting drained idle_deadline = record {
  drained = drained;
  idle_deadline = idle_deadline;
  finished = false;
}
