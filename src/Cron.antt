-- ===== src/Cron.antt =====
-- `usecase/cron`: the table `crons` of `repo/orm.py` and the claim of the crons that are due. Times are
-- microseconds in UTC. `croniter` and `zoneinfo` are an argument, the calendar.
pub mod Requests
pub mod Service
pub mod Scheduler
pub mod Claims
pub mod Fires
pub mod Ticks
pub mod Owners
use Prim.Native.Char.{code}
use fastapi_langgraph_templa.Base.{
  ℕ, suc, ◌+◌, String, Bool, true, false, ◌&&◌, ◌||◌, not, Option, none, some, List, [], ◌∷◌, map,
  leb, ltb, ◌==◌, if◌then◌else◌, contains, select, take, update_where, str_eq,
}
use fastapi_langgraph_templa.Base.Json.{text_of, Json, text, get, Fields}

pub record Cron : Type 0 where
  pub cron_id : String
  pub assistant_id : String
  pub thread_id : Option String
  pub user_id : String
  pub schedule : String
  pub payload : Fields
  pub metadata_dict : Fields
  pub on_run_completed : Option String
  pub enabled : Bool
  pub end_time : Option ℕ
  pub next_run_date : Option ℕ
  pub claimed_until : Option ℕ
  pub created_at : ℕ
  pub updated_at : ℕ

-- What the code asks of `croniter` and `ZoneInfo`: whether an expression can be parsed and iterated
-- at a time, the next occurrence after a time as seen from a zone, and the zone of a name. The Boolean
-- is `second_at_beginning`.
pub record Calendar (Zone : Type 0) : Type 0 where
  pub is_valid : String → Bool → ℕ → Bool
  pub get_next : String → Bool → Option Zone → ℕ → ℕ
  pub zone : String → Option Zone

-- `str.isspace` on a code point.
abbrev is_space : ℕ → Bool
is_space c =
    (leb 9 c && leb c 13)
    || ((leb 28 c && leb c 32)
        || (c == 133
            || (c == 160
                || (c == 5760
                    || ((leb 8192 c && leb c 8202)
                        || (c == 8232
                            || (c == 8233 || (c == 8239 || (c == 8287 || c == 12288)))))))))

-- `len(s.split())`; the first argument tells whether the character before was in a word.
abbrev count_words : Bool → String → ℕ
count_words inside String.[] = 0
count_words inside (String.◌∷◌ c s) =
    let after_space = count_words false s in
    let after_word = count_words true s in
    if is_space (code c) then after_space else if inside then after_word else suc after_word

unfoldable pub is_seconds_cron : String → Bool
is_seconds_cron schedule = count_words false schedule == 6

-- `_resolve_timezone`: a name that is not known any more counts as none.
unfoldable pub resolve_timezone : {Zone : Type 0} → Calendar Zone → Option String → Option Zone
resolve_timezone cal none = none
resolve_timezone cal (some name) = cal.zone name

unfoldable pub compute_next_run : {Zone : Type 0} → Calendar Zone → String → ℕ → Option String → ℕ
compute_next_run cal schedule now timezone =
    cal.get_next schedule (is_seconds_cron schedule) (resolve_timezone cal timezone) now

-- `payload.get("timezone")`
abbrev pub timezone_of : Fields → Option String
timezone_of payload = text_of (get payload "timezone")

abbrev pub reached : Option ℕ → ℕ → Bool
reached none now = false
reached (some t) now = leb t now

abbrev pub is_free : Option ℕ → ℕ → Bool
is_free none now = true
is_free (some t) now = leb t now

-- The WHERE clause of `get_due_crons`.
abbrev pub is_due : ℕ → Cron → Bool
is_due now c = c.enabled && (reached c.next_run_date now && is_free c.claimed_until now)

-- `ORDER BY next_run_date ASC`, which puts NULL last.
abbrev pub before : Option ℕ → Option ℕ → Bool
before none d = false
before (some a) none = true
before (some a) (some b) = ltb a b

abbrev pub insert_by_date : Cron → List Cron → List Cron
insert_by_date c [] = c ∷ []
insert_by_date c (d ∷ ds) =
    let rest = insert_by_date c ds in
    if before d.next_run_date c.next_run_date then d ∷ rest else c ∷ d ∷ ds

abbrev pub sort_by_date : List Cron → List Cron
sort_by_date [] = []
sort_by_date (c ∷ cs) = insert_by_date c (sort_by_date cs)

abbrev pub set_claimed_until : ℕ → ℕ → Cron → Cron
set_claimed_until until now c = record c { claimed_until = some until; updated_at = now }

-- The SELECT: the ids that this instance claims. `locked` are the rows that another transaction has
-- locked, which it skips.
unfoldable pub due_ids : ℕ → ℕ → (Cron → Bool) → List Cron → List String
due_ids now batch locked crons =
    map (λ c. c.cron_id)
      (take batch (sort_by_date (select (λ c. is_due now c && not (locked c)) crons)))

unfoldable pub get_due_crons : ℕ → ℕ → ℕ → (Cron → Bool) → List Cron → List Cron × List Cron
unfolding due_ids
get_due_crons now claim_seconds batch locked crons =
    let ids = due_ids now batch locked crons in
    let claim = set_claimed_until (now + claim_seconds) now in
    let is_chosen = λ (c : Cron). contains ids c.cron_id in
    (update_where is_chosen claim crons, map claim (select is_chosen crons))
