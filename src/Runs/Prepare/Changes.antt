-- ===== src/Runs/Prepare/Changes.antt =====
-- The transaction of `_prepare_run` always commits, and what it does to the tables.
use fastapi_langgraph_templa.Base.{
  ℕ, String, Bool, true, false, ◌≡◌, refl, sym, ap, ◌∙◌, none, [], ◌∷◌, ◌++◌, arith, inl, inr, ok,
  Memᴰ, Extends-append, mem-append_inv, mem-one, any-append, ◌&&◌, not, List, if◌then◌else◌, err,
  any-update_keeps, mem-update_where_miss, mem-update_where, update_where, Bool-cases, any, str_eq,
  eq_iff, str_eq_refl,
}
use fastapi_langgraph_templa.Runs.{
  RunStatus, ThreadStatus, is_active, ExecutionParams, Run, Thread, Db, IsBusy,
}
use fastapi_langgraph_templa.Runs.Status.{put_status}
use fastapi_langgraph_templa.Runs.Prepare.{
  ensure_thread, prepare_run, new_run, user_id_required, touch,
}
use fastapi_langgraph_templa.Runs.Moves.{Moves, Moves-refl, new_run-IsSound}
use fastapi_langgraph_templa.Runs.Changes.{Changes}

module _ (run_id thread_id user_id : String) (params : ExecutionParams) (now : ℕ) (db : Db) where
  abbrev is_it : Thread → Bool
  is_it t = str_eq t.thread_id thread_id

  abbrev made_thread : Thread
  made_thread = record {
    thread_id = thread_id;
    user_id = user_id;
    status = ThreadStatus.idle;
    updated_at = now;
  }

  -- The threads once this one is there.
  abbrev threads_with : List Thread
  threads_with =
      if any is_it db.threads
      then update_where is_it (touch now) db.threads
      else db.threads ++ made_thread ∷ []

  abbrev pub prepared : Db
  prepared = record {
    runs = db.runs ++ new_run run_id thread_id user_id RunStatus.pending params now ∷ [];
    threads = update_where is_it (put_status ThreadStatus.busy now) threads_with;
  }

  -- No thread to use, and no user to make one for.
  abbrev pub is_refused : Bool
  is_refused = not (any is_it db.threads) && str_eq user_id ""

  ensure_thread-db :
      ensure_thread thread_id user_id now db
      ≡ (if is_refused then err user_id_required else ok (record db { threads = threads_with }))
  unfolding ensure_thread
  ensure_thread-db = elim (Bool-cases (any is_it db.threads)) [
    | inl e ↦ rw e refl
    | inr e ↦ rw e refl
  ]

  ensured : any is_it threads_with ≡ true
  ensured = elim (Bool-cases (any is_it db.threads)) [
    | inl e ↦ rw e (any-update_keeps is_it (touch now) db.threads (λ t. refl) ∙ e)
    | inr e ↦ rw e (any-append is_it db.threads (made_thread ∷ []) ∙ rw (e, str_eq_refl))
  ]

  -- The transaction of `_prepare_run` raises only where the thread is missing and the user's
  -- identity is empty; else it leaves the thread busy and the new run pending, as `prepared` says:
  -- the thread is always there when its status is set.
  pub prepare_run_total :
      prepare_run run_id thread_id user_id RunStatus.pending params now db
      ≡ (if is_refused then err user_id_required else ok prepared)
  unfolding prepare_run
  prepare_run_total = elim (Bool-cases is_refused) [
    | inl e ↦ rw (ensure_thread-db, e) refl
    | inr e ↦ rw (ensure_thread-db, e) (rw ensured refl)
  ]

  ensured_inv : (t : Thread) → Memᴰ t threads_with → is_it t ≡ false → Memᴰ t db.threads
  ensured_inv t m other = elim (Bool-cases (any is_it db.threads)) [
    | inl e ↦ mem-update_where_miss is_it (touch now) db.threads (λ x. refl) (rw e at m) other
    | inr e ↦ elim (mem-append_inv db.threads (made_thread ∷ []) (rw e at m)) [
      | inl old ↦ old
      | inr new ↦ let made = ap is_it (mem-one new) ∙ str_eq_refl thread_id in cc (made, other)
    ]
  ]

  prepared_at :
      (r : Run) (t : Thread)
      → IsBusy db
      → Memᴰ r prepared.runs
      → Memᴰ t prepared.threads
      → is_active r.status ≡ true
      → t.thread_id ≡ r.thread_id
      → t.user_id ≡ r.user_id
      → t.status ≡ ThreadStatus.busy
  prepared_at r t h mr mt active thread own =
      let (s, ms, e) = mem-update_where is_it (put_status ThreadStatus.busy now) threads_with mt in
      elim (Bool-cases (is_it s)) [
        | inl touched ↦
            let e' : t ≡ put_status ThreadStatus.busy now s = rw touched at e in
            ap (λ (x : Thread). x.status) e'
        | inr other ↦
            let e' : t ≡ s = rw other at e in
            elim (mem-append_inv db.runs _ mr) [
              | inl old ↦ h.at r t old (rw e' (ensured_inv s ms other)) active thread own
              | inr new ↦
                  let made = mem-one new in
                  ground (
                    arith,
                    made,
                    e',
                    thread,
                    ap (λ (x : Run). x.thread_id) made,
                    ap (λ (x : Thread). x.thread_id) e',
                    eq_iff s.thread_id thread_id,
                  )
            ]
      ]

  pub prepare-Changes : (m : ℕ) → params.retry_count ≡ none → Changes m db prepared
  prepare-Changes m fresh = record {
    rows = Extends-append (Moves m) (Moves-refl m) db.runs _;
    busy = λ h. record { at = λ r t. prepared_at r t h };
    sound = λ h. record {
      at = λ r mr. elim (mem-append_inv db.runs _ mr) [
        | inl old ↦ h.at r old
        | inr new ↦ rw (mem-one new) (new_run-IsSound m run_id thread_id user_id params now fresh)
      ];
    };
  }

  pub prepared_is :
      {db' : Db}
      → prepare_run run_id thread_id user_id RunStatus.pending params now db ≡ ok db'
      → prepared ≡ db'
  prepared_is e = elim (Bool-cases is_refused) [
    | inl h ↦ let no = rw h at (sym prepare_run_total ∙ e) in cc
    | inr h ↦ let yes = rw h at (sym prepare_run_total ∙ e) in cc
  ]
