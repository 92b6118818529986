-- ===== src/Assistants/Operations.antt =====
-- `usecase/assistant_service.py`: any sequence of the service's writes, by any users.
use fastapi_langgraph_templa.Base.{
  ℕ, String, Bool, true, not, ◌≡◌, refl, sym, ap, ◌∙◌, Option, none, some, List, [], ◌∷◌, find,
  find-mem, Memᴰ, Result, ok, err, bind_inv, ok_injective,
}
use fastapi_langgraph_templa.Base.Json.{Json, Fields}
use fastapi_langgraph_templa.Base.Http.{HttpException}
use fastapi_langgraph_templa.Auth.Filters.{Clause, build_metadata_filter}
use fastapi_langgraph_templa.Assistants.{Assistant, AssistantVersion, Db, Raised, is_own}
use fastapi_langgraph_templa.Assistants.Requests.{
  AssistantCreate, AssistantUpdate, is_empty_field, is_ambiguous,
}
use fastapi_langgraph_templa.Assistants.Service.{
  Dispatched, guard, found_or_404, checked, create_assistant, load_own, check_update,
  update_assistant, is_version, load_version, set_assistant_latest, delete_assistant,
}

pub checked-keeps {ℓ κ} :
    {A : Type ℓ} {B : Type κ} (P : Db → Type 0) (db : Db) (r : Result HttpException A)
    (f : A → Db × Result Raised B)
    → P db
    → ((a : A) → ◌≡◌ {A = Result HttpException A} r (ok a) → P (f a).0)
    → P (checked db r f).0
checked-keeps P db (err e) f p h = p
checked-keeps P db (ok a) f p h = h a refl

pub found_inv {ℓ} :
    {A : Type ℓ} (o : Option A) {a : A}
    → ◌≡◌ {A = Result HttpException A} (found_or_404 o) (ok a)
    → o ≡ some a
found_inv none h = absurd (cc)
found_inv (some b) h = ap some (ok_injective h)

module _ (contained : Json → Json → Bool) where
  -- What `load_own` finds is a row of the user with that id.
  pub load_own-found :
      (dispatched : Result HttpException Dispatched) (user_id assistant_id : String) (db : Db)
      (d : Dispatched) (auth_filter : Option Clause) (a : Assistant)
      → load_own contained dispatched user_id assistant_id db ≡ ok (d, (auth_filter, a))
      → find (is_own contained assistant_id user_id auth_filter) db.assistants ≡ some a
  unfolding load_own
  load_own-found dispatched user_id assistant_id db d auth_filter a h =
      let (d', e, h1) = bind_inv dispatched _ h in
      let (f', e1, h2) = bind_inv (build_metadata_filter d'.filters) _ h1 in
      let (a', e2, h3) =
        bind_inv (found_or_404 (find (is_own contained assistant_id user_id f') db.assistants)) _
          h2 in
      let same : ◌≡◌ {A = Dispatched × (Option Clause × Assistant)} (d', (f', a'))
          (d, (auth_filter, a)) =
        ok_injective h3 in
      let filters : f' ≡ auth_filter = ap (λ p. p.1.0) same in
      let rows : a' ≡ a = ap (λ p. p.1.1) same in
      ap (λ f. find (is_own contained assistant_id user_id f) db.assistants) (sym filters)
      ∙ found_inv (find (is_own contained assistant_id user_id f') db.assistants) e2
      ∙ ap some rows

  -- The checks of an update pass on what was loaded.
  pub check_update-same :
      (request : AssistantUpdate) (x y : Dispatched × (Option Clause × Assistant))
      → check_update request x ≡ ok y
      → x ≡ y
  unfolding check_update
  check_update-same request x y h =
      let (b, e, h1) = bind_inv (guard 422 (not (is_empty_field request.name))) _ h in
      let (b1, e1, h2) = bind_inv (guard 422 (not (is_empty_field request.graph_id))) _ h1 in
      let (b2, e2, h3) = bind_inv (guard 400 (not (is_ambiguous request))) _ h2 in ok_injective h3

  pub load_version-mem :
      (version : ℕ) (assistant_id : String) (db : Db) (x : Dispatched × (Option Clause × Assistant))
      (auth_filter : Option Clause) (v : AssistantVersion)
      → load_version version assistant_id db x ≡ ok (auth_filter, v)
      → Memᴰ v db.versions × (is_version assistant_id version v ≡ true)
  unfolding load_version
  load_version-mem version assistant_id db (d, (auth_filter', a)) auth_filter v h =
      let (w, e, h1) =
        bind_inv (found_or_404 (find (is_version assistant_id version) db.versions)) _ h in
      let same : ◌≡◌ {A = Option Clause × AssistantVersion} (auth_filter', w) (auth_filter, v) =
        ok_injective h1 in
      let rows : w ≡ v = ap (λ p. p.1) same in
      find-mem (is_version assistant_id version) db.versions (rw (← rows) (found_inv _ e))

-- A write of the service, of which no other write is taken in between, with what it is given from outside.
pub data Operation : Type 0 where
  create :
      Result HttpException Dispatched
      → List String
      → (String → Bool)
      → String
      → String
      → ℕ
      → AssistantCreate
      → Operation
  update : Result HttpException Dispatched → String → String → AssistantUpdate → ℕ → Operation
  set_latest : Result HttpException Dispatched → String → String → ℕ → ℕ → Operation
  delete : Result HttpException Dispatched → String → String → Operation

module _ (contained : Json → Json → Bool) (same_config : Fields → Fields → Bool) where
  abbrev pub perform : Operation → Db → Db
  perform (create dispatched graphs loadable user_id uuid now request) db =
      (create_assistant same_config dispatched graphs loadable user_id uuid now request db).0
  perform (update dispatched user_id assistant_id request now) db =
      (update_assistant contained same_config (λ t. t) dispatched user_id assistant_id request now
        db).0
  perform (set_latest dispatched user_id assistant_id version now) db =
      (set_assistant_latest contained same_config dispatched user_id assistant_id version now db).0
  perform (delete dispatched user_id assistant_id) db =
      (delete_assistant contained dispatched user_id assistant_id db).0

  abbrev pub perform_all : List Operation → Db → Db
  perform_all [] db = db
  perform_all (op ∷ ops) db = perform_all ops (perform op db)
