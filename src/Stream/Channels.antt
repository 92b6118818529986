-- ===== src/Stream/Channels.antt =====
-- `usecase/streaming/v2/channels.py`, and the check of a requested list of channels.
use Prim.Native.Char.{code}
use fastapi_langgraph_templa.Base.{
  String, Bool, true, false, not, Option, none, some, List, [], ◌∷◌, str_eq, contains, ◌==◌,
  if◌then◌else◌,
}
use fastapi_langgraph_templa.Base.Json.{Json, text, arr, Items, nil, cons}

abbrev pub supported_channels : List String
supported_channels =
    "values" ∷ "updates" ∷ "messages" ∷ "tools" ∷ "lifecycle" ∷ "input" ∷ "checkpoints" ∷ "tasks"
    ∷ "custom" ∷ []

-- What follows a prefix, if the text starts with it.
abbrev pub strip_prefix : String → String → Option String
strip_prefix String.[] s = some s
strip_prefix (String.◌∷◌ c p) String.[] = none
strip_prefix (String.◌∷◌ c p) (String.◌∷◌ d s) =
    let rest = strip_prefix p s in if code c == code d then rest else none

abbrev is_named : Option String → Bool
is_named none = false
is_named (some name) = not (str_eq name "")

unfoldable pub is_supported_channel : String → Bool
is_supported_channel channel =
    if contains supported_channels channel then true else is_named (strip_prefix "custom:" channel)

-- A set of texts, as a list without repetitions.
abbrev pub add_channel : String → List String → List String
add_channel channel valid = if contains valid channel then valid else channel ∷ valid

-- `str` of a requested entry is an argument.
abbrev pub split_channels : (Json → String) → Items → List String × List String
split_channels str nil = ([], [])
split_channels str (cons (text channel) items) =
    let (valid, invalid) = split_channels str items in
    if is_supported_channel channel
    then (add_channel channel valid, invalid)
    else (valid, channel ∷ invalid)
split_channels str (cons item items) =
    let (valid, invalid) = split_channels str items in (valid, str item ∷ invalid)

unfoldable pub validate_channels : (Json → String) → Json → List String × List String
validate_channels str (arr (cons item items)) = split_channels str (cons item items)
validate_channels str _ = ([], "channels must be a non-empty array" ∷ [])
