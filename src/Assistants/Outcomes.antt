-- ===== src/Assistants/Outcomes.antt =====
-- `usecase/assistant_service.py`: what one write of the service does and answers.
use fastapi_langgraph_templa.Base.{
  ℕ, String, Bool, true, ◌≡◌, refl, ap, ◌∙◌, Option, [], ◌∷◌, ◌++◌, eq_iff, find-mem, Memᴰ, arith,
  Result, ok,
}
use fastapi_langgraph_templa.Base.Json.{Json, Fields}
use fastapi_langgraph_templa.Base.Http.{HttpException}
use fastapi_langgraph_templa.Auth.Filters.{Clause, passes_filter}
use fastapi_langgraph_templa.Assistants.{Assistant, AssistantVersion, Db, is_own}
use fastapi_langgraph_templa.Assistants.Requests.{
  AssistantUpdate, injected_metadata, max_version, new_version, updated_version,
}
use fastapi_langgraph_templa.Assistants.Service.{
  Dispatched, is_row, load_own, check_update, update_assistant,
}
use fastapi_langgraph_templa.Assistants.Consistent.{HaveIds}
use fastapi_langgraph_templa.Assistants.Operations.{load_own-found}
use fastapi_langgraph_templa.Assistants.Heads.{Written, save_head-Written}

updated_version-id :
    (request : AssistantUpdate) (metadata : Option Fields) (a : Assistant) (version now : ℕ)
    → (updated_version request metadata a version now).assistant_id ≡ a.assistant_id
unfolding updated_version
updated_version-id request metadata a version now = refl

-- An update that passes its checks commits the new version. When it comes to the row, other commits
-- may have come in between: if another row of the user stands for the graph and the configuration
-- then, it fails with the error of the unique index and the version stays. Otherwise the row holds,
-- field by field, what the version records, and the answer is that row exactly if the new metadata
-- pass the filter of the authorization handler; if not, the error of an assertion, although all is
-- stored. The user's row of that id is still there when it is written, and ids are not given twice.
pub update_assistant_answers :
    (contained : Json → Json → Bool) (same_config : Fields → Fields → Bool) (meanwhile : Db → Db)
    (dispatched : Result HttpException Dispatched) (user_id assistant_id : String)
    (request : AssistantUpdate) (now : ℕ) (db db' : Db) (d : Dispatched)
    (auth_filter : Option Clause) (a a' : Assistant) (v : AssistantVersion)
    → load_own contained dispatched user_id assistant_id db ≡ ok (d, (auth_filter, a))
    → check_update request (d, (auth_filter, a)) ≡ ok (d, (auth_filter, a))
    → v
      ≡ updated_version request
          (injected_metadata request.metadata d.value_metadata)
          a
          (new_version (max_version assistant_id db.versions))
          now
    → db' ≡ meanwhile (record { assistants = db.assistants; versions = db.versions ++ v ∷ [] })
    → HaveIds db'.assistants
    → Memᴰ a' db'.assistants
    → a'.assistant_id ≡ assistant_id
    → a'.user_id ≡ user_id
    → Written same_config user_id (passes_filter contained v.metadata auth_filter) v now db' a' (
        update_assistant contained same_config meanwhile dispatched user_id assistant_id request now
          db)
unfolding update_assistant
update_assistant_answers contained same_config meanwhile dispatched user_id assistant_id request now
      db db' d auth_filter a a' v h k e between n m id user =
    let found = load_own-found contained dispatched user_id assistant_id db d auth_filter a h in
    let (ma, own) =
      find-mem (is_own contained assistant_id user_id auth_filter) db.assistants found in
    let same : v.assistant_id ≡ assistant_id =
      ap (λ w. w.assistant_id) e
      ∙ updated_version-id request (injected_metadata request.metadata d.value_metadata) a
          (new_version (max_version assistant_id db.versions)) now
      ∙ (eq_iff a.assistant_id assistant_id).0 (ground (arith, own)) in
    let mine : is_row assistant_id user_id a' ≡ true =
      rw ((eq_iff a'.assistant_id assistant_id).1 id) ((eq_iff a'.user_id user_id).1 user) in
    rw h (
      rw k (
        rw (← e) (
          rw (← between) (
            save_head-Written contained same_config user_id assistant_id auth_filter v now db' a'
              same n m mine))))
