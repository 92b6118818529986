-- ===== src/Stream/Subgraphs/Closing.antt =====
-- `usecase/streaming/v2/session.py`: the view of a client, and the closing of all open subgraphs.
use fastapi_langgraph_templa.Base.{
  String, Bool, true, false, ◌≡◌, refl, Option, none, some, List, [], ◌∷◌, ◌++◌, if-cases,
  if◌then◌else◌, ◌&&◌, ◌||◌, all, arith, str_eq, eq_iff, map, contains, str_eq_refl,
}
use fastapi_langgraph_templa.Base.Dict.{Dict, insert, remove}
use fastapi_langgraph_templa.Base.Json.{Json, obj, text_field}
use fastapi_langgraph_templa.Stream.Session.{ChannelEvent}
use fastapi_langgraph_templa.Stream.Events.{
  track, join_key, insert_deep, deepest_first, closing_event,
}

-- A client's view: the subgraphs that were started and not yet completed or failed. It goes by the
-- lifecycle events below the root that it gets, and tells subgraphs apart by the joined segments of
-- their namespaces.
abbrev event_name : Json → Option String
event_name (obj d) = text_field d "event"
event_name d = none

abbrev pub heard : Option String → List String → Dict (List String) → Dict (List String)
heard none namespace open_ = open_
heard (some name) [] open_ = open_
heard (some name) (segment ∷ rest) open_ =
    if str_eq name "started"
    then insert open_ (join_key (segment ∷ rest)) (segment ∷ rest)
    else if str_eq name "completed" || str_eq name "failed"
    then remove open_ (join_key (segment ∷ rest))
    else open_

abbrev pub watch : String → Json → List String → Dict (List String) → Dict (List String)
watch method d namespace open_ =
    if str_eq method "lifecycle" then heard (event_name d) namespace open_ else open_

abbrev pub view_events : List ChannelEvent → Dict (List String) → Dict (List String)
view_events [] open_ = open_
view_events (e ∷ es) open_ = view_events es (watch e.method e.data_ e.namespace open_)

pub view_events-append :
    (es fs : List ChannelEvent) (open_ : Dict (List String))
    → view_events (es ++ fs) open_ ≡ view_events fs (view_events es open_)
view_events-append [] fs open_ = refl
view_events-append (e ∷ es) fs open_ = view_events-append es fs _

abbrev is_below_root : List String → Bool
is_below_root [] = false
is_below_root (segment ∷ rest) = true

-- Each open namespace is below the root and stands under its own key.
abbrev is_keyed : String × List String → Bool
is_keyed (key, namespace) = str_eq key (join_key namespace) && is_below_root namespace

abbrev pub AreKeyed : Dict (List String) → Type 0
AreKeyed open_ = all is_keyed open_ ≡ true

insert-AreKeyed :
    (open_ : Dict (List String)) (key : String) (namespace : List String)
    → is_keyed (key, namespace) ≡ true
    → AreKeyed open_
    → AreKeyed (insert open_ key namespace)
unfolding insert
insert-AreKeyed [] key namespace h k = ground arith
insert-AreKeyed ((j, n) ∷ open_) key namespace h k =
    ground (arith, insert-AreKeyed open_ key namespace h)

remove-AreKeyed :
    (open_ : Dict (List String)) (key : String) → AreKeyed open_ → AreKeyed (remove open_ key)
unfolding remove
remove-AreKeyed [] key k = k
remove-AreKeyed ((j, n) ∷ open_) key k = ground (arith, remove-AreKeyed open_ key)

pub track-AreKeyed :
    (name segment : String) (rest : List String) (open_ : Dict (List String))
    → AreKeyed open_
    → AreKeyed (track name (segment ∷ rest) open_)
track-AreKeyed name segment rest open_ k =
    let key = join_key (segment ∷ rest) in
    if-cases AreKeyed (str_eq name "started")
      (insert-AreKeyed open_ key (segment ∷ rest) (ground (arith, str_eq_refl key)) k)
      (if-cases AreKeyed (str_eq name "completed" || str_eq name "failed")
        (remove-AreKeyed open_ key k) k)

-- Every key of a dictionary is that of a namespace in a list.
abbrev covered : List (List String) → String × List String → Bool
covered namespaces (key, n) = contains (map join_key namespaces) key

remove-covered :
    (n : List String) (ns : List (List String)) (open_ : Dict (List String))
    → all (covered (n ∷ ns)) open_ ≡ true
    → all (covered ns) (remove open_ (join_key n)) ≡ true
unfolding remove
remove-covered n ns [] h = refl
remove-covered n ns ((j, m) ∷ open_) h =
    ground (arith, eq_iff (join_key n) j, eq_iff j (join_key n), remove-covered n ns open_)

covered-nothing : (open_ : Dict (List String)) → all (covered []) open_ ≡ true → open_ ≡ []
covered-nothing [] h = refl
covered-nothing ((j, n) ∷ open_) h = absurd (cc)

-- Closing events for all namespaces that are open leave none open.
closing-nothing :
    (ns : List (List String)) (open_ : Dict (List String))
    → all is_below_root ns ≡ true
    → all (covered ns) open_ ≡ true
    → view_events (map closing_event ns) open_ ≡ []
closing-nothing [] open_ b h = covered-nothing open_ h
closing-nothing ([] ∷ ns) open_ b h = absurd (cc)
closing-nothing ((segment ∷ rest) ∷ ns) open_ b h =
    closing-nothing ns (remove open_ (join_key (segment ∷ rest))) (ground arith)
      (remove-covered (segment ∷ rest) ns open_ h)

contains-insert_deep :
    (n : List String) (ns : List (List String)) (key : String)
    → contains (map join_key (insert_deep n ns)) key
      ≡ (str_eq (join_key n) key || contains (map join_key ns) key)
contains-insert_deep n [] key = refl
contains-insert_deep n (m ∷ ns) key = ground (arith, contains-insert_deep n ns key)

below_root-insert_deep :
    (n : List String) (ns : List (List String))
    → all is_below_root (insert_deep n ns) ≡ (is_below_root n && all is_below_root ns)
below_root-insert_deep n [] = refl
below_root-insert_deep n (m ∷ ns) = ground (arith, below_root-insert_deep n ns)

covered-insert_deep :
    (n : List String) (ns : List (List String)) (open_ : Dict (List String))
    → all (covered ns) open_ ≡ true
    → all (covered (insert_deep n ns)) open_ ≡ true
covered-insert_deep n ns [] h = refl
covered-insert_deep n ns ((j, m) ∷ open_) h =
    ground (arith, contains-insert_deep n ns j, covered-insert_deep n ns open_)

deepest_first-covered :
    (open_ : Dict (List String)) → AreKeyed open_ → all (covered (deepest_first open_)) open_ ≡ true
deepest_first-covered [] k = refl
deepest_first-covered ((j, n) ∷ open_) k = ground (
  arith,
  contains-insert_deep n (deepest_first open_) j,
  eq_iff j (join_key n),
  str_eq_refl j,
  eq_iff (join_key n) j,
  covered-insert_deep n (deepest_first open_) open_,
  deepest_first-covered open_,
)

deepest_first-below_root :
    (open_ : Dict (List String)) → AreKeyed open_ → all is_below_root (deepest_first open_) ≡ true
deepest_first-below_root [] k = refl
deepest_first-below_root ((j, n) ∷ open_) k =
    ground (arith, below_root-insert_deep n (deepest_first open_), deepest_first-below_root open_)

-- The closing events of a terminal event close all that was open.
pub view-deepest_first :
    (open_ : Dict (List String))
    → AreKeyed open_
    → view_events (map closing_event (deepest_first open_)) open_ ≡ []
view-deepest_first open_ k =
    closing-nothing (deepest_first open_) open_ (deepest_first-below_root open_ k)
      (deepest_first-covered open_ k)
