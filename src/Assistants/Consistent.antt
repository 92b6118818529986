-- ===== src/Assistants/Consistent.antt =====
-- `usecase/assistant_service.py`: the two tables fit together, whatever is written. Here for the writes
-- themselves.
use fastapi_langgraph_templa.Base.{
  ℕ, zero, suc, ◌<◌, ◌≤◌, String, Bool, true, false, not, ◌&&◌, ◌||◌, ◌≡◌, refl, sym, ap, ◌∙◌,
  Option, none, some, List, [], ◌∷◌, ◌++◌, str_eq, eq_iff, mem-left, mem-right, mem-select,
  mem-select_inv, any-none, any-select_off, ◌==◌, any, select, update_where, arith, Memᴰ,
  mem-append_inv, mem-one, mem-update_where, Bool-cases, inl, inr, ltb, str_eq_refl, any-append,
  if-cases,
}
use fastapi_langgraph_templa.Assistants.{Assistant, AssistantVersion, Db}
use fastapi_langgraph_templa.Assistants.Requests.{version_of, max_version, new_version, larger}
use fastapi_langgraph_templa.Assistants.Service.{
  set_head, is_row, write_head, add_version, remove_assistant,
}

-- Field by field, what a version records stands in the row.
pub record IsCopy (v : AssistantVersion) (a : Assistant) : Type 0 where
  pub version : a.version ≡ v.version
  pub name : a.name ≡ v.name
  pub description : a.description ≡ v.description
  pub graph_id : a.graph_id ≡ v.graph_id
  pub config : a.config ≡ v.config
  pub context : a.context ≡ v.context
  pub metadata : a.metadata ≡ v.metadata

pub set_head-IsCopy : (v : AssistantVersion) (now : ℕ) (a : Assistant) → IsCopy v (set_head v now a)
set_head-IsCopy v now a = record {
  version = refl;
  name = refl;
  description = refl;
  graph_id = refl;
  config = refl;
  context = refl;
  metadata = refl;
}

version_of-IsCopy : (a : Assistant) (now : ℕ) → IsCopy (version_of a now) a
version_of-IsCopy a now = record {
  version = refl;
  name = refl;
  description = refl;
  graph_id = refl;
  config = refl;
  context = refl;
  metadata = refl;
}

-- A row is a copy of one of its versions, but for its owner and the times.
abbrev pub IsHeaded : List AssistantVersion → Assistant → Type 0
IsHeaded versions a =
    (v : AssistantVersion) × Memᴰ v versions × (v.assistant_id ≡ a.assistant_id) × IsCopy v a

abbrev pub same_version : AssistantVersion → AssistantVersion → Bool
same_version v w = str_eq w.assistant_id v.assistant_id && w.version == v.version

-- No version of an assistant has a number twice.
abbrev pub AreNumbered : List AssistantVersion → Type 0
AreNumbered [] = Unit
AreNumbered (v ∷ vs) = (any (same_version v) vs ≡ false) × AreNumbered vs

abbrev pub has_id : String → List Assistant → Bool
has_id id assistants = any (λ a. str_eq a.assistant_id id) assistants

abbrev pub HaveIds : List Assistant → Type 0
HaveIds [] = Unit
HaveIds (a ∷ rows) = (has_id a.assistant_id rows ≡ false) × HaveIds rows

pub record IsConsistent (db : Db) : Type 0 where
  pub headed : (a : Assistant) → Memᴰ a db.assistants → IsHeaded db.versions a
  pub numbered : AreNumbered db.versions
  pub ids : HaveIds db.assistants
  pub owned :
      (v : AssistantVersion) → Memᴰ v db.versions → has_id v.assistant_id db.assistants ≡ true

larger-bounds :
    (n : ℕ) (o : Option ℕ)
    → (n < new_version (some (larger n o))) × (new_version o ≤ new_version (some (larger n o)))
unfolding new_version
larger-bounds zero none = (omega arith, omega arith)
larger-bounds (suc n) none = (omega arith, omega arith)
larger-bounds zero (some zero) = (omega arith, omega arith)
larger-bounds zero (some (suc m)) = elim (Bool-cases (ltb zero (suc m))) [
  | inl e ↦ rw e (omega arith, omega arith)
  | inr e ↦ absurd (ground arith)
]
larger-bounds (suc n) (some zero) = elim (Bool-cases (ltb (suc n) zero)) [
  | inl e ↦ absurd (ground arith)
  | inr e ↦ rw e (omega arith, omega arith)
]
larger-bounds (suc n) (some (suc m)) = elim (Bool-cases (ltb (suc n) (suc m))) [
  | inl e ↦ rw e (ground arith)
  | inr e ↦ rw e (ground arith)
]

-- The new number is above all of the assistant's numbers.
pub max_version-bound :
    (id : String) (vs : List AssistantVersion) (v : AssistantVersion)
    → Memᴰ v vs
    → str_eq v.assistant_id id ≡ true
    → v.version < new_version (max_version id vs)
unfolding max_version
max_version-bound id [] v m h = elim m [ ]
max_version-bound id (w ∷ vs) v (Memᴰ.head e) h =
    let h' : str_eq w.assistant_id id ≡ true = sym (ap (λ x. str_eq x.assistant_id id) e) ∙ h in
    rw e (rw h' (larger-bounds w.version (max_version id vs)).0)
max_version-bound id (w ∷ vs) v (Memᴰ.tail m) h = elim (Bool-cases (str_eq w.assistant_id id)) [
  | inl e ↦ rw e (
      omega (arith, max_version-bound id vs v m h, (larger-bounds w.version (max_version id vs)).1))
  | inr e ↦ rw e (max_version-bound id vs v m h)
]

AreNumbered-append :
    (vs : List AssistantVersion) (v : AssistantVersion)
    → AreNumbered vs
    → any (λ w. same_version w v) vs ≡ false
    → AreNumbered (vs ++ v ∷ [])
AreNumbered-append [] v n h = (refl, tt)
AreNumbered-append (w ∷ vs) v (off, n) h = (
  any-append (same_version w) vs (v ∷ []) ∙ ground arith,
  AreNumbered-append vs v n (ground arith),
)

HaveIds-append :
    (rows : List Assistant) (a : Assistant)
    → HaveIds rows
    → has_id a.assistant_id rows ≡ false
    → HaveIds (rows ++ a ∷ [])
HaveIds-append [] a n h = (refl, tt)
HaveIds-append (b ∷ rows) a (off, n) h = (
  any-append (λ c. str_eq c.assistant_id b.assistant_id) rows (a ∷ [])
      ∙ ground (arith, eq_iff a.assistant_id b.assistant_id, eq_iff b.assistant_id a.assistant_id),
  HaveIds-append rows a n (ground arith),
)

-- A row that is written from one of its versions.
write_head-IsHeaded :
    (user_id : String) (v : AssistantVersion) (now : ℕ) (db : Db)
    → Memᴰ v db.versions
    → ((a : Assistant) → Memᴰ a db.assistants → IsHeaded db.versions a)
    → (a : Assistant) → Memᴰ a (write_head user_id v now db).assistants
    → IsHeaded db.versions a
write_head-IsHeaded user_id v now db mv h a m =
    let (x, mx, e) =
      mem-update_where (is_row v.assistant_id user_id) (set_head v now) db.assistants m in
    elim (Bool-cases (is_row v.assistant_id user_id x)) [
      | inr off ↦ let e' : a ≡ x = rw off at e in rw e' (h x mx)
      | inl on ↦
          let e' : a ≡ set_head v now x = rw on at e in
          let same : v.assistant_id ≡ x.assistant_id =
            sym ((eq_iff x.assistant_id v.assistant_id).0 (ground (arith, on))) in
          rw e' (v, mv, same, set_head-IsCopy v now x)
    ]

has_id-update :
    (id : String) (p : Assistant → Bool) (f : Assistant → Assistant) (rows : List Assistant)
    → ((a : Assistant) → (f a).assistant_id ≡ a.assistant_id)
    → has_id id (update_where p f rows) ≡ has_id id rows
has_id-update id p f [] h = refl
has_id-update id p f (a ∷ rows) h = elim (Bool-cases (p a)) [
  | inl e ↦ rw e (rw (h a) (ap (λ b. str_eq a.assistant_id id || b) (has_id-update id p f rows h)))
  | inr e ↦ rw e (ap (λ b. str_eq a.assistant_id id || b) (has_id-update id p f rows h))
]

HaveIds-update :
    (p : Assistant → Bool) (f : Assistant → Assistant) (rows : List Assistant)
    → ((a : Assistant) → (f a).assistant_id ≡ a.assistant_id)
    → HaveIds rows
    → HaveIds (update_where p f rows)
HaveIds-update p f [] h n = n
HaveIds-update p f (a ∷ rows) h (off, n) = elim (Bool-cases (p a)) [
  | inl e ↦ rw e (has_id-update _ p f rows h ∙ rw (h a) off, HaveIds-update p f rows h n)
  | inr e ↦ rw e (has_id-update _ p f rows h ∙ off, HaveIds-update p f rows h n)
]

pub write_head-IsConsistent :
    (user_id : String) (v : AssistantVersion) (now : ℕ) (db : Db)
    → Memᴰ v db.versions
    → IsConsistent db
    → IsConsistent (write_head user_id v now db)
write_head-IsConsistent user_id v now db mv c = record {
  headed = write_head-IsHeaded user_id v now db mv c.headed;
  numbered = c.numbered;
  ids =
      HaveIds-update (is_row v.assistant_id user_id) (set_head v now) db.assistants (λ a. refl)
        c.ids;
  owned = λ w m.
      has_id-update w.assistant_id (is_row v.assistant_id user_id) (set_head v now) db.assistants
        (λ a. refl)
      ∙ c.owned w m;
}

pub add_version-IsConsistent :
    (v : AssistantVersion) (db : Db)
    → has_id v.assistant_id db.assistants ≡ true
    → any (λ w. same_version w v) db.versions ≡ false
    → IsConsistent db
    → IsConsistent (add_version v db)
add_version-IsConsistent v db has off c = record {
  headed =
      λ a m. let (w, mw, same, e) = c.headed a m in (w, mem-left db.versions (v ∷ []) mw, same, e);
  numbered = AreNumbered-append db.versions v c.numbered off;
  ids = c.ids;
  owned = λ w m. elim (mem-append_inv db.versions (v ∷ []) m) [
    | inl old ↦ c.owned w old
    | inr new ↦ rw (mem-one new) has
  ];
}

-- A new assistant comes with its first version.
pub insert-IsConsistent :
    (new : Assistant) (now : ℕ) (db : Db)
    → has_id new.assistant_id db.assistants ≡ false
    → IsConsistent db
    → IsConsistent (record {
      assistants = db.assistants ++ new ∷ [];
      versions = db.versions ++ version_of new now ∷ [];
    })
insert-IsConsistent new now db free c =
    let first = version_of new now in
    record {
      headed = λ a m. elim (mem-append_inv db.assistants (new ∷ []) m) [
        | inl old ↦
            let (w, mw, same, e) = c.headed a old in
            (w, mem-left db.versions (first ∷ []) mw, same, e)
        | inr is_new ↦
            rw (mem-one is_new)
              (first, mem-right db.versions first, refl, version_of-IsCopy new now)
      ];
      numbered = AreNumbered-append db.versions first c.numbered (
          any-none (λ w. same_version w first) db.versions
            (λ w m. ground (
              arith,
              c.owned w m,
              eq_iff new.assistant_id w.assistant_id,
              ap (λ s. has_id s db.assistants),
            )));
      ids = HaveIds-append db.assistants new c.ids free;
      owned = λ w m.
          any-append (λ a. str_eq a.assistant_id w.assistant_id) db.assistants (new ∷ [])
          ∙ elim (mem-append_inv db.versions (first ∷ []) m) [
            | inl old ↦ ground (arith, c.owned w old)
            | inr is_new ↦ ground (
              arith,
              str_eq_refl new.assistant_id,
              eq_iff new.assistant_id w.assistant_id,
              ap (λ v. v.assistant_id) (mem-one is_new),
            )
          ];
    }

AreNumbered-select :
    (p : AssistantVersion → Bool) (vs : List AssistantVersion)
    → AreNumbered vs
    → AreNumbered (select p vs)
AreNumbered-select p [] n = n
AreNumbered-select p (v ∷ vs) (off, n) =
    if-cases AreNumbered (p v) (any-select_off (same_version v) p vs off, AreNumbered-select p vs n)
      (AreNumbered-select p vs n)

HaveIds-select :
    (p : Assistant → Bool) (rows : List Assistant) → HaveIds rows → HaveIds (select p rows)
HaveIds-select p [] n = n
HaveIds-select p (a ∷ rows) (off, n) =
    if-cases HaveIds (p a) (any-select_off _ p rows off, HaveIds-select p rows n)
      (HaveIds-select p rows n)

has_id-select :
    (id other : String) (rows : List Assistant)
    → str_eq other id ≡ false
    → has_id other (select (λ a. not (str_eq a.assistant_id id)) rows) ≡ has_id other rows
has_id-select id other [] h = refl
has_id-select id other (a ∷ rows) h = ground (
  arith,
  has_id-select id other rows h,
  eq_iff a.assistant_id id,
  eq_iff a.assistant_id other,
  eq_iff other id,
)

pub remove-IsConsistent :
    (id : String) (db : Db) → IsConsistent db → IsConsistent (remove_assistant id db)
remove-IsConsistent id db c =
    let kept = λ (v : AssistantVersion). not (str_eq v.assistant_id id) in
    record {
      headed = λ a m.
          let (old, off) = mem-select_inv (λ a. not (str_eq a.assistant_id id)) db.assistants m in
          let (w, mw, same, e) = c.headed a old in
          (w, mem-select kept db.versions mw (ap (λ s. not (str_eq s id)) same ∙ off), same, e);
      numbered = AreNumbered-select kept db.versions c.numbered;
      ids = HaveIds-select _ db.assistants c.ids;
      owned = λ w m.
          let (old, off) = mem-select_inv kept db.versions m in
          has_id-select id w.assistant_id db.assistants (ground arith) ∙ c.owned w old;
    }
