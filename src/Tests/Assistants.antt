-- ===== src/Tests/Assistants.antt =====
-- One user's assistant with two versions, beside that of another user; and the filters of a handler.
use fastapi_langgraph_templa.Base.{
  String, Bool, true, false, ◌≡◌, refl, Option, none, some, List, [], ◌∷◌, str_eq, Memᴰ, Result, ok,
  err,
}
use fastapi_langgraph_templa.Base.Json.{
  Json, null, text, arr, obj, nil, cons, Fields, end, field, get,
}
use fastapi_langgraph_templa.Base.Http.{HttpException}
use fastapi_langgraph_templa.Auth.Filters.{
  Clause, filter_error, build_metadata_filter, compile, compile_field, unwrap_metadata_envelope,
  passes, passes_filter,
}
use fastapi_langgraph_templa.Auth.Filters.Meaning.{is_valid, satisfies}
use fastapi_langgraph_templa.Auth.Filters.Compiled.{
  build_metadata_filter-satisfies, build_metadata_filter_rejects,
}
use fastapi_langgraph_templa.Assistants.{Assistant, AssistantVersion, Db, integrity_error}
use fastapi_langgraph_templa.Assistants.Requests.{
  AssistantCreate, AssistantUpdate, version_of, injected_metadata, updated_version, max_version,
  new_version, is_ambiguous, merged_config,
}
use fastapi_langgraph_templa.Assistants.Service.{
  Dispatched, set_head, load_own, check_update, update_assistant,
}
use fastapi_langgraph_templa.Assistants.Consistent.{IsConsistent, insert-IsConsistent}
use fastapi_langgraph_templa.Assistants.Operations.{Operation, create, update, set_latest}
use fastapi_langgraph_templa.Assistants.Heads.{Written}
use fastapi_langgraph_templa.Assistants.Outcomes.{update_assistant_answers}

-- Containment, as far as the tests go: an object with one text is in another that has it.
abbrev same_text : Option Json → String → Bool
same_text (some (text t)) s = str_eq t s
same_text _ s = false

abbrev contained : Json → Json → Bool
contained (obj (field key (text s) end)) (obj d) = same_text (get d key) s
contained _ _ = false

abbrev no_filter : Result HttpException Dispatched
no_filter = ok (record { filters = none; value_metadata = null })

abbrev team : String → Fields
team name = field "team" (text name) end

-- The handler lets a user write the assistants of one team.
abbrev of_team : Result HttpException Dispatched
of_team = ok (record { filters = some (team "a"); value_metadata = null })

abbrev first : Assistant
first = record {
  assistant_id = "a1";
  name = "one";
  description = none;
  graph_id = "g";
  config = end;
  context = obj end;
  user_id = "u1";
  version = 1;
  metadata = team "a";
  created_at = 3;
  updated_at = 3;
}

abbrev foreign_row : Assistant
foreign_row = record first { assistant_id = "a2"; user_id = "u2" }

abbrev tables : Db
tables = record {
  assistants = first ∷ foreign_row ∷ [];
  versions = version_of first 3 ∷ version_of foreign_row 3 ∷ [];
}

abbrev no_rows : Db
no_rows = record { assistants = []; versions = [] }

no_rows-IsConsistent : IsConsistent no_rows
no_rows-IsConsistent = record {
  headed = λ a m. elim m [ ];
  numbered = tt;
  ids = tt;
  owned = λ v m. elim m [ ];
}

-- The team is changed to another one.
abbrev move : AssistantUpdate
move = record {
  name = some (some "two");
  description = none;
  config = none;
  graph_id = none;
  context = none;
  metadata = some (team "b");
}

abbrev request : AssistantCreate
request = record {
  assistant_id = some "a1";
  name = none;
  description = none;
  config = none;
  context = none;
  graph_id = "g";
  metadata = some (team "a");
  if_exists = none;
}

abbrev same_config : Fields → Fields → Bool
same_config end end = true
same_config _ _ = false

abbrev ops : List Operation
ops =
    create no_filter ("g" ∷ []) (λ g. true) "u1" "x" 3 request
    ∷ update of_team "u1" "a1" move 4
    ∷ set_latest no_filter "u1" "a1" 1 5
    ∷ []

tables-IsConsistent : IsConsistent tables
tables-IsConsistent =
    insert-IsConsistent foreign_row 3
      (record { assistants = first ∷ []; versions = version_of first 3 ∷ [] }) refl
      (insert-IsConsistent first 3 no_rows refl no_rows-IsConsistent)

abbrev moved : AssistantVersion
moved = updated_version move (some (team "b")) first 2 4

abbrev with_version : Db
with_version = record tables {
  versions = version_of first 3 ∷ version_of foreign_row 3 ∷ moved ∷ [];
}

-- The row leaves the team that the filter asks for, so the answer is an assertion error.
update_assistant_answers_example :
    Written same_config "u1"
      (passes_filter contained (team "b") (some (Clause.includes (team "a"))))
      moved
      4
      with_version
      first
      (update_assistant contained same_config (λ t. t) of_team "u1" "a1" move 4 tables)
unfolding load_own build_metadata_filter compile compile_field unwrap_metadata_envelope passes
    check_update is_ambiguous injected_metadata updated_version new_version max_version
update_assistant_answers_example =
    update_assistant_answers contained same_config (λ t. t) of_team "u1" "a1" move 4 tables
      with_version (record { filters = some (team "a"); value_metadata = null })
      (some (Clause.includes (team "a"))) first first moved refl refl refl refl
      tables-IsConsistent.ids (Memᴰ.head refl) refl refl

-- Another assistant of the user takes the graph and the configuration in between.
abbrev with_rival : Db → Db
with_rival t = record t { assistants = record first { assistant_id = "a3" } ∷ t.assistants }

rival_refuses :
    (update_assistant contained same_config with_rival of_team "u1" "a1" move 4 tables).1
    ≡ err integrity_error
unfolding update_assistant load_own build_metadata_filter compile compile_field
    unwrap_metadata_envelope passes check_update is_ambiguous injected_metadata updated_version
    new_version max_version merged_config
rival_refuses = refl

-- Back to the first version, after the second was made.
abbrev renamed : Assistant
renamed = set_head (record (version_of first 3) { name = "two"; version = 2 }) 4 first

abbrev two_versions : Db
two_versions = record {
  assistants = renamed ∷ [];
  versions = version_of first 3 ∷ version_of renamed 4 ∷ [];
}

abbrev restored : Assistant
restored = record first { updated_at = 5 }

-- Of one of two teams, as an envelope; and a disjunction of one.
abbrev two_teams : Fields
two_teams =
    field "metadata"
      (obj (field "$or" (arr (cons (obj (team "a")) (cons (obj (team "b")) nil))) end)) end

build_metadata_filter-satisfies_example :
    (c : Option Clause) × (build_metadata_filter (some two_teams) ≡ ok c)
    × (passes_filter contained (team "b") c
        ≡ satisfies contained (team "b") (unwrap_metadata_envelope two_teams))
unfolding unwrap_metadata_envelope is_valid
build_metadata_filter-satisfies_example =
    build_metadata_filter-satisfies contained (team "b") two_teams refl

two_teams_pass : satisfies contained (team "b") (unwrap_metadata_envelope two_teams) ≡ true
unfolding unwrap_metadata_envelope satisfies
two_teams_pass = refl

build_metadata_filter_rejects_example :
    build_metadata_filter (some (field "$or" (arr (cons (obj (team "a")) nil)) end)) ≡ filter_error
unfolding unwrap_metadata_envelope is_valid
build_metadata_filter_rejects_example =
    build_metadata_filter_rejects (field "$or" (arr (cons (obj (team "a")) nil)) end) refl
