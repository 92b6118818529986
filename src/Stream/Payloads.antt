-- ===== src/Stream/Payloads.antt =====
-- `usecase/streaming/v2/normalizers.py`: what normalization leaves of a state and of its tool calls.
use fastapi_langgraph_templa.Base.{
  ℕ, suc, ◌+◌, String, Bool, true, false, not, ◌≡◌, refl, Option, none, some, Bool-cases, inl, inr,
  if◌then◌else◌, ◌&&◌, ◌||◌, arith, str_eq, length, contains,
}
use fastapi_langgraph_templa.Base.Json.{
  Json, null, bool, num, text, arr, obj, Items, nil, cons, Fields, end, field, get,
}
use fastapi_langgraph_templa.Stream.ToolCalls.{
  SplitCalls, split_tool_calls, split_call, sort_call, Args, valid, malformed, coerce_args,
  tool_call_identity, tool_call_args,
}
use fastapi_langgraph_templa.Stream.Messages.{
  is_state_message, normalize_message, message_or, message_type, entry_or, normalize_state_payload,
  normalize_items, normalize_fields, is_message_type, state_message_types,
}

-- The records among the entries of a list.
abbrev pub dicts_in : Items → ℕ
dicts_in nil = 0
dicts_in (cons (obj d) items) = suc (dicts_in items)
dicts_in (cons item items) = dicts_in items

sort_call-count :
    (call_id name : Option String) (raw_args : Json) (args : Args) (rest : SplitCalls)
    → length (sort_call call_id name raw_args args rest).calls
        + length (sort_call call_id name raw_args args rest).invalid
      ≡ suc (length rest.calls + length rest.invalid)
sort_call-count call_id none raw_args args rest = omega arith
sort_call-count call_id (some name) raw_args (valid v) rest = omega arith
sort_call-count call_id (some name) raw_args (malformed s) rest = omega arith

-- No tool call is dropped and none is doubled: every record in the list becomes one valid or one
-- invalid call.
pub split_tool_calls_count :
    (loads : String → Option Json) (raw : Items)
    → length (split_tool_calls loads raw).calls + length (split_tool_calls loads raw).invalid
      ≡ dicts_in raw
unfolding split_tool_calls split_call
split_tool_calls_count loads nil = refl
split_tool_calls_count loads (cons (obj entry) raw) = omega (
  arith,
  sort_call-count (tool_call_identity entry).0 (tool_call_identity entry).1 (tool_call_args entry)
      (coerce_args loads (tool_call_args entry)) (split_tool_calls loads raw),
  split_tool_calls_count loads raw,
)
split_tool_calls_count loads (cons null raw) = split_tool_calls_count loads raw
split_tool_calls_count loads (cons (bool b) raw) = split_tool_calls_count loads raw
split_tool_calls_count loads (cons (num n) raw) = split_tool_calls_count loads raw
split_tool_calls_count loads (cons (text s) raw) = split_tool_calls_count loads raw
split_tool_calls_count loads (cons (arr xs) raw) = split_tool_calls_count loads raw

-- A key `__interrupt__` at any depth of a state, less the inside of its messages.
abbrev is_list : Json → Bool
is_list (arr items) = true
is_list value = false

mutual
  pub has_interrupt : Json → Bool
  has_interrupt (arr items) = any_interrupt items
  has_interrupt (obj d) = interrupt_within d
  has_interrupt value = false

  any_interrupt : Items → Bool
  any_interrupt nil = false
  any_interrupt (cons item items) =
      (not (is_state_message item) && has_interrupt item) || any_interrupt items

  interrupt_within : Fields → Bool
  interrupt_within end = false
  interrupt_within (field key entry d) =
      str_eq key "__interrupt__"
      || ((not (str_eq key "messages" && is_list entry) && has_interrupt entry)
          || interrupt_within d)

-- The type of a message, once it is normalized, stays as it is.
abbrev short_type : String → String
short_type s = if str_eq s "assistant" then "ai" else if str_eq s "user" then "human" else s

short_type-kept :
    (s : String)
    → contains state_message_types (short_type s) ≡ true
    → contains state_message_types (short_type (short_type s)) ≡ true
short_type-kept s h = elim (Bool-cases (str_eq s "assistant")) [
  | inl a ↦ rw a refl
  | inr a ↦ elim (Bool-cases (str_eq s "user")) [
    | inl u ↦ rw (a, u) refl
    | inr u ↦
        let h' : contains state_message_types s ≡ true = rw (a, u) at h in rw (a, u) (rw (a, u) h')
  ]
]

typed_message-is_message :
    (loads : String → Option Json) (v : Option Json) (d : Fields)
    → get d "type" ≡ v
    → is_message_type (message_type v) ≡ true
    → is_state_message (obj (normalize_message loads d)) ≡ true
unfolding is_state_message normalize_message
typed_message-is_message loads (some (text s)) d e h =
    rw (e, normalize_message) (short_type-kept s h)
typed_message-is_message loads (some null) d e h = absurd (cc)
typed_message-is_message loads (some (bool b)) d e h = absurd (cc)
typed_message-is_message loads (some (num n)) d e h = absurd (cc)
typed_message-is_message loads (some (arr items)) d e h = absurd (cc)
typed_message-is_message loads (some (obj c)) d e h = absurd (cc)
typed_message-is_message loads none d e h = absurd (cc)

normalize_message-is_message :
    (loads : String → Option Json) (d : Fields)
    → is_state_message (obj d) ≡ true
    → is_state_message (obj (normalize_message loads d)) ≡ true
normalize_message-is_message loads d h =
    typed_message-is_message loads (get d "type") d refl (unfold is_state_message in h)

-- An entry of a list, as a message or as a state, has no interrupt that counts.
message_or-clean :
    (loads : String → Option Json) (item other : Json)
    → has_interrupt other ≡ false
    → (not (is_state_message (message_or loads item other))
        && has_interrupt (message_or loads item other))
      ≡ false
unfolding message_or
message_or-clean loads (obj d) other h = elim (Bool-cases (is_state_message (obj d))) [
  | inl m ↦ rw m (rw (normalize_message-is_message loads d m) refl)
  | inr m ↦ rw m (ground arith)
]
message_or-clean loads item other h = ground arith

entry_or-clean :
    (loads : String → Option Json) (key : String) (entry other : Json)
    → has_interrupt other ≡ false
    → (not (str_eq key "messages" && is_list (entry_or loads key entry other))
        && has_interrupt (entry_or loads key entry other))
      ≡ false
entry_or-clean loads key (arr items) other h = elim (Bool-cases (str_eq key "messages")) [
  | inl m ↦ rw m refl
  | inr m ↦ rw m h
]
entry_or-clean loads key entry other h = ground arith

mutual
  unfolding has_interrupt normalize_state_payload

  value-clean :
      (loads : String → Option Json) (value : Json)
      → has_interrupt (normalize_state_payload loads value) ≡ false
  value-clean loads (arr items) = normalize_items-clean loads items
  value-clean loads (obj d) = normalize_fields-clean loads d
  value-clean loads null = refl
  value-clean loads (bool b) = refl
  value-clean loads (num n) = refl
  value-clean loads (text s) = refl

  normalize_items-clean :
      (loads : String → Option Json) (items : Items)
      → any_interrupt (normalize_items loads items) ≡ false
  normalize_items-clean loads nil = refl
  normalize_items-clean loads (cons item items) = ground (
    arith,
    message_or-clean loads item (normalize_state_payload loads item) (value-clean loads item),
    normalize_items-clean loads items,
  )

  normalize_fields-clean :
      (loads : String → Option Json) (d : Fields)
      → interrupt_within (normalize_fields loads d) ≡ false
  normalize_fields-clean loads end = refl
  normalize_fields-clean loads (field key entry d) = ground (
    arith,
    entry_or-clean loads key entry (normalize_state_payload loads entry) (value-clean loads entry),
    normalize_fields-clean loads d,
  )

-- A normalized state has no key `__interrupt__` at any depth, less the inside of its messages.
pub has_interrupt-normalize_state_payload :
    (loads : String → Option Json) (value : Json)
    → has_interrupt (normalize_state_payload loads value) ≡ false
has_interrupt-normalize_state_payload loads value = value-clean loads value
