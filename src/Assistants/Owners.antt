-- ===== src/Assistants/Owners.antt =====
-- `usecase/assistant_service.py`: what a write leaves alone, and a create that is repeated.
use fastapi_langgraph_templa.Base.{
  ℕ, String, Bool, true, false, ◌≡◌, refl, ◌∙◌, Option, some, List, [], ◌∷◌, ◌++◌, any, find, arith,
  ok, str_eq_refl, any-append,
}
use fastapi_langgraph_templa.Base.Json.{Json, Fields}
use fastapi_langgraph_templa.Assistants.{Assistant, Db}
use fastapi_langgraph_templa.Assistants.Service.{
  collides, is_incumbent, insert_assistant, resolve_create_conflict,
}
use fastapi_langgraph_templa.Assistants.Operations.{Operation, create, update, set_latest, delete}

-- The user in whose name an operation runs.
abbrev pub user_of : Operation → String
user_of (create dispatched graphs loadable user_id uuid now request) = user_id
user_of (update dispatched user_id assistant_id request now) = user_id
user_of (set_latest dispatched user_id assistant_id version now) = user_id
user_of (delete dispatched user_id assistant_id) = user_id

find-append_fresh :
    (same_config : Fields → Fields → Bool) (again new : Assistant) (rows : List Assistant)
    → any (collides same_config again) rows ≡ false
    → is_incumbent same_config again new ≡ true
    → find (is_incumbent same_config again) (rows ++ new ∷ []) ≡ some new
find-append_fresh same_config again new [] h hit = rw hit refl
find-append_fresh same_config again new (b ∷ rows) h hit =
    let rest = find-append_fresh same_config again new rows (ground arith) hit in
    ground (arith, rest)

-- A create that is repeated with `do_nothing` by the same user, for the same graph and the same
-- configuration, changes nothing and answers with the assistant that the first one made, though it
-- brings a new id and a new time. Both ids and the configuration were free before, and a
-- configuration is the same as itself.
insert_assistant_again :
    (same_config : Fields → Fields → Bool) (now later : ℕ) (if_exists : Option String)
    (new again : Assistant) (db : Db)
    → same_config new.config new.config ≡ true
    → any (collides same_config new) db.assistants ≡ false
    → any (collides same_config again) db.assistants ≡ false
    → again.user_id ≡ new.user_id
    → again.graph_id ≡ new.graph_id
    → again.config ≡ new.config
    → insert_assistant same_config later
        (some "do_nothing")
        again
        (insert_assistant same_config now if_exists new db).0
      ≡ ((insert_assistant same_config now if_exists new db).0, ok new)
unfolding insert_assistant resolve_create_conflict
insert_assistant_again same_config now later if_exists new again db r free free' u g k =
    let meets : collides same_config again new ≡ true =
      rw (u, g, k) (ground (arith, str_eq_refl new.user_id, str_eq_refl new.graph_id, r)) in
    let hit : any (collides same_config again) (db.assistants ++ new ∷ []) ≡ true =
      any-append (collides same_config again) db.assistants (new ∷ []) ∙ ground (arith, meets) in
    let finds =
      find-append_fresh same_config again new db.assistants free'
        (rw (u, g, k) (ground (arith, str_eq_refl new.user_id, str_eq_refl new.graph_id, r))) in
    rw free (rw hit (rw finds refl))
