-- ===== src/Broker/Manager/Sweep.antt =====
-- What the sweep of expired brokers removes.
use fastapi_langgraph_templa.Base.{
  ℕ, String, false, ◌≡◌, refl, ap, ◌∙◌, inl, inr, Option, none, some, List, [], ◌∷◌, arith, str_eq,
  eq_iff, if◌then◌else◌, contains, Option-cases,
}
use fastapi_langgraph_templa.Base.Dict.{lookup, lookup-remove}
use fastapi_langgraph_templa.Base.Dict.Keys.{IsUnique, keys_where, contains-keys_where, holds}
use fastapi_langgraph_templa.Broker.{RunBroker}
use fastapi_langgraph_templa.Broker.Manager.{
  Manager, remove_broker, remove_brokers, sweep_expired_brokers, is_expired, get_event_sequence,
  or_none,
}

remove_broker-brokers :
    (k j : String) (m : Manager)
    → lookup (remove_broker k m).brokers j ≡ (if str_eq k j then none else lookup m.brokers j)
unfolding remove_broker
remove_broker-brokers k j m = elim (Option-cases (lookup m.brokers k)) [
  | inl e ↦ ground (arith, e, eq_iff k j)
  | inr (b, e) ↦ ground (arith, e, lookup-remove m.brokers k j)
]

remove_brokers-brokers :
    (ks : List String) (j : String) (m : Manager)
    → lookup (remove_brokers ks m).brokers j ≡ (if contains ks j then none else lookup m.brokers j)
unfolding remove_brokers
remove_brokers-brokers [] j m = refl
remove_brokers-brokers (k ∷ ks) j m =
    remove_brokers-brokers ks j (remove_broker k m)
    ∙ rw (remove_broker-brokers k j m) (ground arith)

remove_broker-sequence :
    (k j : String) (m : Manager)
    → str_eq k j ≡ false
    → get_event_sequence j (remove_broker k m) ≡ get_event_sequence j m
unfolding remove_broker get_event_sequence
remove_broker-sequence k j m h = elim (Option-cases (lookup m.brokers k)) [
  | inl e ↦ ground (arith, e)
  | inr (b, e) ↦ ground (arith, e, ap or_none (lookup-remove m.event_counters k j))
]

remove_brokers-sequence :
    (ks : List String) (j : String) (m : Manager)
    → contains ks j ≡ false
    → get_event_sequence j (remove_brokers ks m) ≡ get_event_sequence j m
unfolding remove_brokers
remove_brokers-sequence [] j m h = refl
remove_brokers-sequence (k ∷ ks) j m h =
    remove_brokers-sequence ks j (remove_broker k m) (ground arith)
    ∙ remove_broker-sequence k j m (ground arith)

abbrev unless_expired : ℕ → ℕ → Option RunBroker → Option RunBroker
unless_expired now retention none = none
unless_expired now retention (some b) = if is_expired now retention b then none else some b

-- A sweep over brokers with one entry for each run forgets exactly those that are finished for
-- longer than the retention with nothing waiting for a subscriber; every other broker stays as it
-- is.
pub sweep_exact :
    (now retention : ℕ) (m : Manager) (run_id : String)
    → IsUnique m.brokers
    → lookup (sweep_expired_brokers now retention m).0.brokers run_id
      ≡ unless_expired now retention (lookup m.brokers run_id)
unfolding sweep_expired_brokers
sweep_exact now retention m run_id u =
    remove_brokers-brokers (keys_where (is_expired now retention) m.brokers) run_id m
    ∙ rw (contains-keys_where (is_expired now retention) m.brokers run_id u)
        (split (lookup m.brokers run_id))
  where
    split :
        (o : Option RunBroker)
        → (if holds (is_expired now retention) o then none else o) ≡ unless_expired now retention o
    split none = refl
    split (some b) = refl

-- A broker that is not expired, since its run is going, or a subscriber has events waiting, or it
-- has not been finished for longer than the retention, is kept with its log and its event numbers
-- by a sweep over brokers with one entry for each run.
pub sweep_keeps :
    (now retention : ℕ) (m : Manager) (run_id : String) (b : RunBroker)
    → IsUnique m.brokers
    → lookup m.brokers run_id ≡ some b
    → is_expired now retention b ≡ false
    → (lookup (sweep_expired_brokers now retention m).0.brokers run_id ≡ some b)
      × (get_event_sequence run_id (sweep_expired_brokers now retention m).0
          ≡ get_event_sequence run_id m)
sweep_keeps now retention m run_id b u there fresh =
    let p = is_expired now retention in
    let kept : contains (keys_where p m.brokers) run_id ≡ false =
      contains-keys_where p m.brokers run_id u ∙ rw there fresh in
    (
      sweep_exact now retention m run_id u ∙ rw (there, fresh) refl,
      unfold sweep_expired_brokers in
          remove_brokers-sequence (keys_where p m.brokers) run_id m kept,
    )
