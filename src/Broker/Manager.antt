-- ===== src/Broker/Manager.antt =====
-- `BrokerManager` of `usecase/streaming/broker.py`, and `generate_event_id` of `infra/sse_utils.py`.
-- Python's `str` on a number is an argument.
pub mod Sweep
pub mod Ids
use Prim.Native.String.{◌++◌}
use fastapi_langgraph_templa.Base.{
  ℕ, zero, suc, ◌+◌, String, Bool, true, false, ◌&&◌, not, Option, none, some, List, [], ◌∷◌, ltb,
  if◌then◌else◌,
}
use fastapi_langgraph_templa.Base.Json.{Json, text, obj, field, end}
use fastapi_langgraph_templa.Base.Dict.{Dict, lookup, insert, remove}
use fastapi_langgraph_templa.Base.Dict.Keys.{keys_where, remove_all}
use fastapi_langgraph_templa.Broker.{
  Event, Payload, tuple, RunBroker, new, mark_finished, put, is_empty, get_finished_age,
}

pub record Manager : Type 0 where
  pub brokers : Dict RunBroker
  pub event_counters : Dict ℕ

abbrev or_new : ℕ → Option RunBroker → RunBroker
or_new now none = new now
or_new now (some b) = b

unfoldable pub get_or_create_broker : ℕ → String → Manager → Manager × RunBroker
get_or_create_broker now run_id m = elim (lookup m.brokers run_id) [
  | none ↦ (record m { brokers = insert m.brokers run_id (new now) }, new now)
  | some b ↦ (m, b)
]

-- Brokers are shared objects: a change of one is seen through the manager.
unfoldable pub update_broker : String → (RunBroker → RunBroker) → Manager → Manager
update_broker run_id f m = elim (lookup m.brokers run_id) [
  | none ↦ m
  | some b ↦ record m { brokers = insert m.brokers run_id (f b) }
]

unfoldable pub cleanup_broker : ℕ → String → Manager → Manager
cleanup_broker now run_id m = update_broker run_id (mark_finished now) m

-- The broker is marked finished for those who still hold it, and then forgotten.
unfoldable pub remove_broker : String → Manager → Manager
remove_broker run_id m = elim (lookup m.brokers run_id) [
  | none ↦ m
  | some b ↦ record {
    brokers = remove m.brokers run_id;
    event_counters = remove m.event_counters run_id;
  }
]

abbrev pub or_none : Option ℕ → ℕ
or_none none = 0
or_none (some n) = n

unfoldable pub get_event_sequence : String → Manager → ℕ
get_event_sequence run_id m = or_none (lookup m.event_counters run_id)

unfoldable pub generate_event_id : (ℕ → String) → String → ℕ → String
generate_event_id str run_id sequence = run_id ++ ("_event_" ++ str sequence)

unfoldable pub allocate_event_id : (ℕ → String) → String → Manager → Manager × String
allocate_event_id str run_id m =
    let seq = get_event_sequence run_id m + 1 in
    (
      record m { event_counters = insert m.event_counters run_id seq },
      generate_event_id str run_id seq,
    )

-- `("end", {"status": status})`
abbrev pub end_event : String → Payload
end_event status = tuple "end" (obj (field "status" (text status) end))

-- `request_cancel`, where `running` tells that the run has a task that is not done; the flag is the
-- cancellation of that task.
unfoldable pub request_cancel : (ℕ → String) → ℕ → String → Bool → Bool → Manager → Manager × Bool
request_cancel str now run_id running emit_end_event m =
    let (m1, b) = get_or_create_broker now run_id m in
    let (m2, event_id) = allocate_event_id str run_id m1 in
    if running
    then (
      if emit_end_event && not b.finished
          then cleanup_broker now run_id
              (update_broker run_id (put now (event_id, end_event "interrupted") true) m2)
          else m1,
      true,
    )
    else (m, false)

-- The condition of the sweep: nobody has anything waiting, and the run finished long enough ago.
abbrev pub older_than : ℕ → Option ℕ → Bool
older_than retention none = false
older_than retention (some age) = ltb retention age

unfoldable pub is_expired : ℕ → ℕ → RunBroker → Bool
unfolding is_empty get_finished_age
is_expired now retention b = is_empty b && older_than retention (get_finished_age now b)

unfoldable pub remove_brokers : List String → Manager → Manager
unfolding remove_broker
remove_brokers [] m = m
remove_brokers (k ∷ ks) m = remove_brokers ks (remove_broker k m)

unfoldable pub sweep_expired_brokers : ℕ → ℕ → Manager → Manager × List String
sweep_expired_brokers now retention m =
    let expired = keys_where (is_expired now retention) m.brokers in
    (remove_brokers expired m, expired)
