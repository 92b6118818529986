-- ===== src/Auth/Resolution.antt =====
-- The cache of handlers does not show.
use fastapi_langgraph_templa.Base.{
  String, ◌≡◌, refl, ap, sym, ◌∙◌, some, List, [], ◌∷◌, arith, Bool-cases, Option-cases, inl, inr,
  eq_iff,
}
use fastapi_langgraph_templa.Auth.Handlers.{
  Key, same_key, find_key, Registry, Cache, Answer, resolve, get_handler, decide, handle_event,
}

module _ {H : Type 0} (auth : Registry H) where
  -- What is cached for a key is what the search finds for it.
  record IsCached (cache : Cache H) : Type 0 where
    at :
        (resource action : String) (h : H)
        → find_key (resource, action) cache ≡ some h
        → resolve auth resource action ≡ some h

  empty-IsCached : IsCached []
  empty-IsCached = record { at = λ r a h e. absurd (cc) }

  add-IsCached :
      (resource action : String) (h : H) (cache : Cache H)
      → resolve auth resource action ≡ some h
      → IsCached cache
      → IsCached (((resource, action), h) ∷ cache)
  add-IsCached resource action h cache found c = record {
    at = λ r a k e. elim (Bool-cases (same_key (resource, action) (r, a))) [
      | inl s ↦
          let e' : some h ≡ some k = rw s at e in
          let same_r : resource ≡ r = (eq_iff resource r).0 (ground arith) in
          let same_a : action ≡ a = (eq_iff action a).0 (ground arith) in
          rw (← same_r, ← same_a) (found ∙ e')
      | inr s ↦ c.at r a k (rw s at e)
    ];
  }

  get_handler-resolve :
      (resource action : String) (cache : Cache H)
      → IsCached cache
      → ((get_handler auth resource action cache).1 ≡ resolve auth resource action)
        × IsCached (get_handler auth resource action cache).0
  unfolding get_handler
  get_handler-resolve resource action cache c =
      elim (Option-cases (find_key (resource, action) cache)) [
        | inr (h, e) ↦ rw (e, get_handler) (sym (c.at resource action h e), c)
        | inl e ↦ elim (Option-cases (resolve auth resource action)) [
          | inl n ↦ rw (e, n, get_handler) (refl, c)
          | inr (h, f) ↦ rw (e, f, get_handler) (refl, add-IsCached resource action h cache f c)
        ]
      ]

  -- The cache after questions one after another.
  unfoldable pub asked : List Key → Cache H → Cache H
  asked [] cache = cache
  asked ((resource, action) ∷ keys) cache = asked keys (get_handler auth resource action cache).0

  asked-IsCached :
      (keys : List Key) (cache : Cache H) → IsCached cache → IsCached (asked keys cache)
  unfolding asked
  asked-IsCached [] cache c = c
  asked-IsCached ((resource, action) ∷ keys) cache c =
      asked-IsCached keys _ (get_handler-resolve resource action cache c).1

  -- Whatever was asked before: an event is decided by the handler that the search by priority finds, as
  -- if nothing was cached, and allowed if it finds none.
  pub handle_event-resolve :
      (call : H → Answer) (keys : List Key) (resource action : String)
      → (handle_event call (some auth) (some (resource, action)) (asked keys [])).1
        ≡ decide call (resolve auth resource action)
  unfolding handle_event
  handle_event-resolve call keys resource action =
      ap (decide call)
        (get_handler-resolve resource action (asked keys [])
          (asked-IsCached keys [] empty-IsCached)).0
