-- ===== src/Assistants/Service.antt =====
-- `AssistantService` of `usecase/assistant_service.py`.
use fastapi_langgraph_templa.Base.{
  find, ℕ, String, Bool, true, false, not, ◌&&◌, ◌||◌, Option, none, some, List, [], ◌∷◌, ◌++◌,
  str_eq, is_text, ◌==◌, contains, any, select, update_where, leb, if◌then◌else◌, Result, ok, err,
  ◌>>=◌, map,
}
use fastapi_langgraph_templa.Base.Json.{Json, obj, text, Fields, end, field, truthy}
use fastapi_langgraph_templa.Base.Http.{HttpException}
use fastapi_langgraph_templa.Auth.Filters.{Clause, build_metadata_filter}
use fastapi_langgraph_templa.Assistants.{
  Assistant, AssistantVersion, Db, Raised, http, assertion_error, integrity_error, is_own,
  is_readable, is_visible,
}
use fastapi_langgraph_templa.Assistants.Requests.{
  AssistantCreate, AssistantUpdate, injected_metadata, configurable, context_json, new_assistant,
  version_of, is_empty_field, is_ambiguous, max_version, new_version, updated_version,
}

-- What `_dispatch` brings back: the handler's filter, and `value["metadata"]` as the handler left it.
pub record Dispatched : Type 0 where
  pub filters : Option Fields
  pub value_metadata : Json

abbrev pub guard : ℕ → Bool → Result HttpException Bool
guard status true = ok true
guard status false = err (record { status_code = status })

abbrev pub found_or_404 {ℓ} : {A : Type ℓ} → Option A → Result HttpException A
found_or_404 none = err (record { status_code = 404 })
found_or_404 (some a) = ok a

-- An operation that fails in its checks leaves the tables as they are.
abbrev pub checked {ℓ κ} :
    {A : Type ℓ} {B : Type κ}
    → Db
    → Result HttpException A
    → (A → Db × Result Raised B)
    → Db × Result Raised B
checked db (err e) f = (db, err (http e))
checked db (ok a) f = f a

abbrev or_no_config : Option Fields → Fields
or_no_config none = end
or_no_config (some config) = config

module _ (same_config : Fields → Fields → Bool) where
  -- The row that the checks of `create_assistant` let through.
  unfoldable pub prepare_assistant :
      Result HttpException Dispatched
      → List String
      → (String → Bool)
      → String
      → String
      → ℕ
      → AssistantCreate
      → Result HttpException Assistant
  prepare_assistant dispatched graphs loadable user_id uuid now request = dispatched >>= λ d.
      guard 400 (contains graphs request.graph_id) >>= λ known.
      guard 400 (loadable request.graph_id) >>= λ loaded.
      guard 400 (
        not (
          truthy (configurable (or_no_config request.config))
          && truthy (context_json request.context)))
      >>= λ unambiguous. ok (
          new_assistant request (injected_metadata request.metadata d.value_metadata) user_id uuid
            now)

  -- A row that one of the unique indexes keeps the new row from standing beside.
  abbrev pub collides : Assistant → Assistant → Bool
  collides new a =
      str_eq a.assistant_id new.assistant_id
      || (str_eq a.user_id new.user_id
          && (str_eq a.graph_id new.graph_id && same_config a.config new.config))

  abbrev pub is_incumbent : Assistant → Assistant → Bool
  is_incumbent new a =
      str_eq a.user_id new.user_id
      && ((str_eq a.graph_id new.graph_id && same_config a.config new.config)
          || str_eq a.assistant_id new.assistant_id)

  abbrev adopted : Option String → Option Assistant → Result Raised Assistant
  adopted if_exists none = err (http (record { status_code = 409 }))
  adopted if_exists (some existing) =
      if is_text if_exists "do_nothing"
      then ok existing
      else err (http (record { status_code = 409 }))

  unfoldable pub resolve_create_conflict :
      Assistant → Option String → List Assistant → Result Raised Assistant
  resolve_create_conflict new if_exists assistants =
      adopted if_exists (find (is_incumbent new) assistants)

  unfoldable pub insert_assistant :
      ℕ → Option String → Assistant → Db → Db × Result Raised Assistant
  insert_assistant now if_exists new db =
      if any (collides new) db.assistants
      then (db, resolve_create_conflict new if_exists db.assistants)
      else (
        record {
          assistants = db.assistants ++ new ∷ [];
          versions = db.versions ++ version_of new now ∷ [];
        },
        ok new,
      )

  unfoldable pub create_assistant :
      Result HttpException Dispatched
      → List String
      → (String → Bool)
      → String
      → String
      → ℕ
      → AssistantCreate
      → Db
      → Db × Result Raised Assistant
  create_assistant dispatched graphs loadable user_id uuid now request db =
      checked db (prepare_assistant dispatched graphs loadable user_id uuid now request)
        (λ new. insert_assistant now request.if_exists new db)

-- The UPDATE of an assistant's row by one of its versions.
abbrev pub set_head : AssistantVersion → ℕ → Assistant → Assistant
set_head v now a = record a {
  name = v.name;
  description = v.description;
  graph_id = v.graph_id;
  config = v.config;
  context = v.context;
  metadata = v.metadata;
  version = v.version;
  updated_at = now;
}

abbrev pub is_row : String → String → Assistant → Bool
is_row assistant_id user_id a = str_eq a.assistant_id assistant_id && str_eq a.user_id user_id

abbrev pub write_head : String → AssistantVersion → ℕ → Db → Db
write_head user_id v now db = record db {
  assistants = update_where (is_row v.assistant_id user_id) (set_head v now) db.assistants;
}

abbrev pub add_version : AssistantVersion → Db → Db
add_version v db = record db { versions = db.versions ++ v ∷ [] }

-- The versions go with their assistant, by the foreign key.
abbrev pub remove_assistant : String → Db → Db
remove_assistant assistant_id db = record {
  assistants = select (λ a. not (str_eq a.assistant_id assistant_id)) db.assistants;
  versions = select (λ v. not (str_eq v.assistant_id assistant_id)) db.versions;
}

abbrev pub is_version : String → ℕ → AssistantVersion → Bool
is_version assistant_id version v = str_eq v.assistant_id assistant_id && v.version == version

unfoldable pub check_update :
    AssistantUpdate
    → Dispatched × (Option Clause × Assistant)
    → Result HttpException (Dispatched × (Option Clause × Assistant))
check_update request loaded = guard 422 (not (is_empty_field request.name)) >>= λ named.
    guard 422 (not (is_empty_field request.graph_id)) >>= λ graphed.
    guard 400 (not (is_ambiguous request)) >>= λ unambiguous. ok loaded

unfoldable pub load_version :
    ℕ
    → String
    → Db
    → Dispatched × (Option Clause × Assistant)
    → Result HttpException (Option Clause × AssistantVersion)
load_version version assistant_id db (d, (auth_filter, a)) =
    found_or_404 (find (is_version assistant_id version) db.versions) >>= λ v. ok (auth_filter, v)

abbrev pub answer : Option Assistant → Result Raised Assistant
answer none = err assertion_error
answer (some a) = ok a

module _ (contained : Json → Json → Bool) where
  -- The row is read again by the query that found it.
  abbrev pub read_back : String → String → Option Clause → Db → Db × Result Raised Assistant
  read_back assistant_id user_id auth_filter db =
      (db, answer (find (is_own contained assistant_id user_id auth_filter) db.assistants))

  -- The checks before an assistant of the user is written: its row, with the filter of the query.
  unfoldable pub load_own :
      Result HttpException Dispatched
      → String
      → String
      → Db
      → Result HttpException (Dispatched × (Option Clause × Assistant))
  load_own dispatched user_id assistant_id db = dispatched >>= λ d.
      build_metadata_filter d.filters >>= λ auth_filter.
      found_or_404 (find (is_own contained assistant_id user_id auth_filter) db.assistants) >>= λ a.
      ok (d, (auth_filter, a))

  unfoldable pub delete_assistant :
      Result HttpException Dispatched → String → String → Db → Db × Result Raised Json
  delete_assistant dispatched user_id assistant_id db =
      checked db (load_own dispatched user_id assistant_id db) (λ loaded.
        (remove_assistant assistant_id db, ok (obj (field "status" (text "deleted") end))))

  unfoldable pub read_owned_assistant :
      Result HttpException Dispatched → String → String → Db → Result HttpException Assistant
  read_owned_assistant dispatched user_id assistant_id db = dispatched >>= λ d.
      build_metadata_filter d.filters >>= λ auth_filter.
      found_or_404 (find (is_readable contained assistant_id user_id auth_filter) db.assistants)

  unfoldable pub list_assistants :
      Result HttpException Dispatched → String → Db → Result HttpException (List Assistant)
  list_assistants dispatched user_id db = dispatched >>= λ d.
      build_metadata_filter d.filters >>= λ auth_filter.
      ok (select (is_visible contained user_id auth_filter) db.assistants)

-- A row beside the written one that the unique index on user, graph and configuration keeps it from.
abbrev pub blocks : (Fields → Fields → Bool) → String → AssistantVersion → Assistant → Bool
blocks same_config user_id v a =
    not (str_eq a.assistant_id v.assistant_id)
    && (str_eq a.user_id user_id && (str_eq a.graph_id v.graph_id && same_config a.config v.config))

-- The index fails an UPDATE that reaches a row; one that reaches none writes nothing.
abbrev pub is_refused : (Fields → Fields → Bool) → String → AssistantVersion → Db → Bool
is_refused same_config user_id v db =
    any (is_row v.assistant_id user_id) db.assistants
    && any (blocks same_config user_id v) db.assistants

module _ (contained : Json → Json → Bool) (same_config : Fields → Fields → Bool) where
  -- The transaction of the UPDATE, which its error rolls back, and the query after it.
  abbrev pub save_head :
      String → String → Option Clause → AssistantVersion → ℕ → Db → Db × Result Raised Assistant
  save_head user_id assistant_id auth_filter v now db =
      if is_refused same_config user_id v db
      then (db, err integrity_error)
      else read_back contained assistant_id user_id auth_filter (write_head user_id v now db)

  -- The version is committed first. What others commit before the UPDATE is `meanwhile`.
  abbrev pub apply_update :
      (Db → Db)
      → String
      → String
      → AssistantUpdate
      → ℕ
      → Db
      → Dispatched × (Option Clause × Assistant)
      → Db × Result Raised Assistant
  apply_update meanwhile user_id assistant_id request now db (d, (auth_filter, a)) =
      let v =
        updated_version request (injected_metadata request.metadata d.value_metadata) a
          (new_version (max_version assistant_id db.versions)) now in
      save_head user_id assistant_id auth_filter v now (meanwhile (add_version v db))

  unfoldable pub update_assistant :
      (Db → Db)
      → Result HttpException Dispatched
      → String
      → String
      → AssistantUpdate
      → ℕ
      → Db
      → Db × Result Raised Assistant
  update_assistant meanwhile dispatched user_id assistant_id request now db =
      checked db (load_own contained dispatched user_id assistant_id db >>= check_update request)
        (apply_update meanwhile user_id assistant_id request now db)

  abbrev pub apply_latest :
      String → String → ℕ → Db → Option Clause × AssistantVersion → Db × Result Raised Assistant
  apply_latest user_id assistant_id now db (auth_filter, v) =
      save_head user_id assistant_id auth_filter v now db

  unfoldable pub set_assistant_latest :
      Result HttpException Dispatched → String → String → ℕ → ℕ → Db → Db × Result Raised Assistant
  set_assistant_latest dispatched user_id assistant_id version now db =
      checked db
        (load_own contained dispatched user_id assistant_id db
          >>= load_version version assistant_id db)
        (apply_latest user_id assistant_id now db)

-- The newest version first.
abbrev pub insert_version : AssistantVersion → List AssistantVersion → List AssistantVersion
insert_version v [] = v ∷ []
insert_version v (w ∷ ws) =
    let later = insert_version v ws in if leb w.version v.version then v ∷ w ∷ ws else w ∷ later

abbrev pub newest_first : List AssistantVersion → List AssistantVersion
newest_first [] = []
newest_first (v ∷ vs) = insert_version v (newest_first vs)

abbrev versions_or_404 : List AssistantVersion → Result HttpException (List AssistantVersion)
versions_or_404 [] = err (record { status_code = 404 })
versions_or_404 (v ∷ vs) = ok (v ∷ vs)

abbrev listed : String → AssistantVersion → Assistant
listed user_id v = record {
  assistant_id = v.assistant_id;
  name = v.name;
  description = v.description;
  graph_id = v.graph_id;
  config = v.config;
  context = (if truthy v.context then v.context else obj end);
  user_id = user_id;
  version = v.version;
  metadata = v.metadata;
  created_at = v.created_at;
  updated_at = v.created_at;
}

unfoldable pub list_assistant_versions :
    (Json → Json → Bool)
    → Result HttpException Dispatched
    → String
    → String
    → Db
    → Result HttpException (List Assistant)
list_assistant_versions contained dispatched user_id assistant_id db =
    read_owned_assistant contained dispatched user_id assistant_id db >>= λ a.
    versions_or_404 (newest_first (select (λ v. str_eq v.assistant_id assistant_id) db.versions))
    >>= λ vs. ok (map (listed user_id) vs)
