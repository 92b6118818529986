-- ===== src/Assistants/Heads.antt =====
-- `usecase/assistant_service.py`: the write of a version into its assistant's row, and the answer.
use fastapi_langgraph_templa.Base.{
  ℕ, String, Bool, true, false, ◌≡◌, refl, sym, ap, ◌∙◌, Option, none, some, List, [], ◌∷◌, any,
  any-of_mem, any-witness, str_eq, eq_iff, any-mem, find, find-mem, Memᴰ, mem-update_where,
  mem-update_where_hit, if◌then◌else◌, arith, Bool-cases, inl, inr, Result, ok, err, ok_injective,
  update_where,
}
use fastapi_langgraph_templa.Base.Json.{Json, Fields}
use fastapi_langgraph_templa.Auth.Filters.{Clause, passes_filter}
use fastapi_langgraph_templa.Assistants.{
  Assistant, AssistantVersion, Db, Raised, assertion_error, integrity_error, is_own,
}
use fastapi_langgraph_templa.Assistants.Service.{
  set_head, is_row, write_head, read_back, answer, blocks, is_refused, save_head,
}
use fastapi_langgraph_templa.Assistants.Consistent.{HaveIds, has_id, IsCopy, set_head-IsCopy}

different :
    (a b : Assistant) (id : String)
    → str_eq a.assistant_id b.assistant_id ≡ false
    → str_eq a.assistant_id id ≡ true
    → str_eq b.assistant_id id ≡ false
different a b id other same = ground (
  arith,
  eq_iff a.assistant_id b.assistant_id,
  eq_iff a.assistant_id id,
  eq_iff b.assistant_id id,
)

answer_inv : (o : Option Assistant) {a : Assistant} → answer o ≡ ok a → o ≡ some a
answer_inv none h = absurd (cc)
answer_inv (some b) h = ap some (ok_injective h)

-- A row under an id, where ids are not given twice, is the only one that a query by the id can find.
module _ (contained : Json → Json → Bool) (user_id : String) (auth_filter : Option Clause)
    (v : AssistantVersion) (now : ℕ) where
  find-other :
      (rows : List Assistant)
      → has_id v.assistant_id rows ≡ false
      → find
          (is_own contained v.assistant_id user_id auth_filter)
          (update_where (is_row v.assistant_id user_id) (set_head v now) rows)
        ≡ none
  find-other [] h = refl
  find-other (b ∷ rows) h = ground (arith, find-other rows)

  find-update_where :
      (rows : List Assistant) (a : Assistant)
      → HaveIds rows
      → Memᴰ a rows
      → is_row v.assistant_id user_id a ≡ true
      → find
          (is_own contained v.assistant_id user_id auth_filter)
          (update_where (is_row v.assistant_id user_id) (set_head v now) rows)
        ≡ (if passes_filter contained v.metadata auth_filter then some (set_head v now a) else none)
  find-update_where [] a n m h = elim m [ ]
  find-update_where (b ∷ rows) a (off, n) (Memᴰ.head e) h =
      let on : is_row v.assistant_id user_id b ≡ true =
        sym (ap (is_row v.assistant_id user_id) e) ∙ h in
      let same : b.assistant_id ≡ v.assistant_id =
        (eq_iff b.assistant_id v.assistant_id).0 (ground (arith, on)) in
      let none_else = find-other rows (rw same at off) in
      rw e (rw on (ground (arith, on, none_else)))
  find-update_where (b ∷ rows) a (off, n) (Memᴰ.tail m) h =
      let other : str_eq a.assistant_id b.assistant_id ≡ false =
        any-mem (λ c. str_eq c.assistant_id b.assistant_id) rows off m in
      let apart : str_eq b.assistant_id v.assistant_id ≡ false =
        different a b v.assistant_id other (ground (arith, h)) in
      rw apart (rw apart (find-update_where rows a n m h))

-- The row that an answer shows is the one that was written.
read_back-ok :
    (contained : Json → Json → Bool) (user_id : String) (auth_filter : Option Clause)
    (v : AssistantVersion) (now : ℕ) (db : Db) (a : Assistant)
    → (read_back contained v.assistant_id user_id auth_filter (write_head user_id v now db)).1
      ≡ ok a
    → (x : Assistant) × Memᴰ x db.assistants
      × (is_row v.assistant_id user_id x ≡ true)
      × (a ≡ set_head v now x)
read_back-ok contained user_id auth_filter v now db a h =
    let own = is_own contained v.assistant_id user_id auth_filter in
    let written = update_where (is_row v.assistant_id user_id) (set_head v now) db.assistants in
    let (m, mine) = find-mem own written (answer_inv (find own written) h) in
    let (x, mx, e) =
      mem-update_where (is_row v.assistant_id user_id) (set_head v now) db.assistants m in
    elim (Bool-cases (is_row v.assistant_id user_id x)) [
      | inl on ↦ let e' : a ≡ set_head v now x = rw on at e in (x, mx, on, e')
      | inr off ↦
          let e' : a ≡ x = rw off at e in
          let mine' : is_row v.assistant_id user_id x ≡ true = rw (← e') (ground (arith, mine)) in
          absurd (cc (off, mine'))
    ]

-- A row after it was written from a version: the version's fields, the time, and the rest of the row.
pub record IsWritten (v : AssistantVersion) (now : ℕ) (old new : Assistant) : Type 0 where
  pub copy : IsCopy v new
  pub assistant_id : new.assistant_id ≡ old.assistant_id
  pub user_id : new.user_id ≡ old.user_id
  pub created_at : new.created_at ≡ old.created_at
  pub updated_at : new.updated_at ≡ now

set_head-IsWritten :
    (v : AssistantVersion) (now : ℕ) (a : Assistant) → IsWritten v now a (set_head v now a)
set_head-IsWritten v now a = record {
  copy = set_head-IsCopy v now a;
  assistant_id = refl;
  user_id = refl;
  created_at = refl;
  updated_at = refl;
}

save_head-written :
    (contained : Json → Json → Bool) (same_config : Fields → Fields → Bool)
    (user_id assistant_id : String) (auth_filter : Option Clause) (v : AssistantVersion) (now : ℕ)
    (db : Db)
    → is_refused same_config user_id v db ≡ false
    → save_head contained same_config user_id assistant_id auth_filter v now db
      ≡ read_back contained assistant_id user_id auth_filter (write_head user_id v now db)
save_head-written contained same_config user_id assistant_id auth_filter v now db h =
    ap
      (λ b.
        if b
        then (db, err integrity_error)
        else read_back contained assistant_id user_id auth_filter (write_head user_id v now db))
      h

pub save_head-ok :
    (contained : Json → Json → Bool) (same_config : Fields → Fields → Bool) (user_id : String)
    (auth_filter : Option Clause) (v : AssistantVersion) (now : ℕ) (db : Db) (a : Assistant)
    → (save_head contained same_config user_id v.assistant_id auth_filter v now db).1 ≡ ok a
    → (x : Assistant) × Memᴰ x db.assistants
      × (is_row v.assistant_id user_id x ≡ true)
      × IsWritten v now x a
save_head-ok contained same_config user_id auth_filter v now db a h =
    elim (Bool-cases (is_refused same_config user_id v db)) [
      | inl hit ↦
          let failed : ◌≡◌ {A = Result Raised Assistant} (err integrity_error) (ok a) =
            rw hit at h in
          absurd (cc)
      | inr free ↦
          let r =
            save_head-written contained same_config user_id v.assistant_id auth_filter v now db
              free in
          let (x, m, on, e) =
            read_back-ok contained user_id auth_filter v now db a (sym (ap (λ p. p.1) r) ∙ h) in
          (x, m, on, rw e (set_head-IsWritten v now x))
    ]

answer-if :
    (b : Bool) (a : Assistant)
    → answer (if b then some a else none) ≡ (if b then ok a else err assertion_error)
answer-if true a = refl
answer-if false a = refl

-- What is read back after a row was written.
answer-update :
    (contained : Json → Json → Bool) (user_id id : String) (auth_filter : Option Clause)
    (v : AssistantVersion) (now : ℕ) (rows : List Assistant) (a : Assistant)
    → v.assistant_id ≡ id
    → HaveIds rows
    → Memᴰ a rows
    → is_row id user_id a ≡ true
    → answer (
        find
          (is_own contained id user_id auth_filter)
          (update_where (is_row v.assistant_id user_id) (set_head v now) rows))
      ≡ (if passes_filter contained v.metadata auth_filter
          then ok (set_head v now a)
          else err assertion_error)
answer-update contained user_id id auth_filter v now rows a same n m h = rw (← same) (
    ap answer (find-update_where contained user_id auth_filter v now rows a n m (rw (← same) at h))
    ∙ answer-if (passes_filter contained v.metadata auth_filter) (set_head v now a))

-- Another row of the user stands for the same graph and the same configuration.
abbrev pub IsTaken : (Fields → Fields → Bool) → String → AssistantVersion → Assistant → Type 0
IsTaken same_config user_id v c =
    (str_eq c.assistant_id v.assistant_id ≡ false)
    × (c.user_id ≡ user_id)
    × (c.graph_id ≡ v.graph_id)
    × (same_config c.config v.config ≡ true)

-- How a write of a version into a row ends, from the tables before it.
pub data Written (same_config : Fields → Fields → Bool) (user_id : String) (passes : Bool)
    (v : AssistantVersion) (now : ℕ) (db : Db) (a : Assistant)
    (result : Db × Result Raised Assistant) : Type 0 where
  refused :
      (c : Assistant)
      → Memᴰ c db.assistants
      → IsTaken same_config user_id v c
      → result ≡ (db, err integrity_error)
      → Written same_config user_id passes v now db a result
  stored :
      (b : Assistant)
      → ((c : Assistant) → Memᴰ c db.assistants → IsTaken same_config user_id v c → ⊥)
      → IsWritten v now a b
      → Memᴰ b result.0.assistants
      → result.0.versions ≡ db.versions
      → result.1 ≡ (if passes then ok b else err assertion_error)
      → Written same_config user_id passes v now db a result

blocks-IsTaken :
    (same_config : Fields → Fields → Bool) (user_id : String) (v : AssistantVersion) (c : Assistant)
    → blocks same_config user_id v c ≡ true
    → IsTaken same_config user_id v c
blocks-IsTaken same_config user_id v c h = (
  ground (arith, h),
  (eq_iff c.user_id user_id).0 (ground (arith, h)),
  (eq_iff c.graph_id v.graph_id).0 (ground (arith, h)),
  ground (arith, h),
)

IsTaken-blocks :
    (same_config : Fields → Fields → Bool) (user_id : String) (v : AssistantVersion) (c : Assistant)
    → IsTaken same_config user_id v c
    → blocks same_config user_id v c ≡ true
IsTaken-blocks same_config user_id v c (other, user, graph, config) =
    let user' : str_eq c.user_id user_id ≡ true = (eq_iff c.user_id user_id).1 user in
    let graph' : str_eq c.graph_id v.graph_id ≡ true = (eq_iff c.graph_id v.graph_id).1 graph in
    ground arith

pub save_head-Written :
    (contained : Json → Json → Bool) (same_config : Fields → Fields → Bool) (user_id id : String)
    (auth_filter : Option Clause) (v : AssistantVersion) (now : ℕ) (db : Db) (a : Assistant)
    → v.assistant_id ≡ id
    → HaveIds db.assistants
    → Memᴰ a db.assistants
    → is_row id user_id a ≡ true
    → Written same_config user_id
        (passes_filter contained v.metadata auth_filter)
        v
        now
        db
        a
        (save_head contained same_config user_id id auth_filter v now db)
save_head-Written contained same_config user_id id auth_filter v now db a same n m h =
    let mine : is_row v.assistant_id user_id a ≡ true = rw same h in
    let reached = any-of_mem (is_row v.assistant_id user_id) db.assistants m mine in
    elim (Bool-cases (any (blocks same_config user_id v) db.assistants)) [
      | inl hit ↦
          let (c, mc, on) = any-witness (blocks same_config user_id v) db.assistants hit in
          refused c mc (blocks-IsTaken same_config user_id v c on) (rw reached (rw hit refl))
      | inr free ↦
          let r =
            save_head-written contained same_config user_id id auth_filter v now db
              (ground (arith, free)) in
          stored (set_head v now a)
            (λ c mc taken. absurd (
              cc (
                any-mem (blocks same_config user_id v) db.assistants free mc,
                IsTaken-blocks same_config user_id v c taken,
              )))
            (set_head-IsWritten v now a)
            (rw r (
              mem-update_where_hit (is_row v.assistant_id user_id) (set_head v now) db.assistants m
                mine))
            (rw r refl)
            (rw r (answer-update contained user_id id auth_filter v now db.assistants a same n m h))
    ]
