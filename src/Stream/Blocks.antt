-- ===== src/Stream/Blocks.antt =====
-- `usecase/streaming/v2/normalizers.py`: the content of a message, and its blocks.
use Prim.Native.Char.{code}
use fastapi_langgraph_templa.Base.{
  ℕ, ◌+◌, String, Bool, true, false, ◌&&◌, Option, none, some, List, [], ◌∷◌, ◌++◌, leb, ◌==◌,
  str_eq, contains, any, is_none, is_text, if◌then◌else◌, or_value,
}
use fastapi_langgraph_templa.Base.Json.{
  Json, text, arr, obj, Items, nil, cons, Fields, end, field, get, text_field, dict_of, add_text,
  items_of,
}

abbrev pub content_block_types : List String
content_block_types =
    "text" ∷ "reasoning" ∷ "tool_call" ∷ "tool_call_chunk" ∷ "invalid_tool_call"
    ∷ "server_tool_call" ∷ "server_tool_call_chunk" ∷ "server_tool_call_result" ∷ "image" ∷ "audio"
    ∷ "video" ∷ "file" ∷ "non_standard" ∷ []

-- `str.lower` on one of the characters of the formats, which are ASCII.
abbrev lower : ℕ → ℕ
lower c = if leb 65 c && leb c 90 then c + 32 else c

-- Whether a text in lower case is a given one.
abbrev pub lower_is : String → String → Bool
lower_is String.[] String.[] = true
lower_is (String.◌∷◌ c s) (String.◌∷◌ d t) = lower (code c) == code d && lower_is s t
lower_is _ _ = false

abbrev pub mime_types : List (String × String)
mime_types =
    ("mp3", "audio/mpeg")
    ∷ ("wav", "audio/wav")
    ∷ ("pcm16", "audio/wav")
    ∷ ("pcm", "audio/wav")
    ∷ ("opus", "audio/opus")
    ∷ ("aac", "audio/aac")
    ∷ ("flac", "audio/flac")
    ∷ []

abbrev pub mime_type_of : String → List (String × String) → Option String
mime_type_of format [] = none
mime_type_of format ((name, mime) ∷ types) =
    if lower_is format name then some mime else mime_type_of format types

-- The MIME type of an audio record: its own, or that of its format, which is `wav` unless it says more.
abbrev pub audio_mime_type : Fields → Option String
audio_mime_type audio = elim (text_field audio "mime_type") [
  | some mime ↦ some mime
  | none ↦ mime_type_of (or_value (text_field audio "format") "wav") mime_types
]

abbrev pub audio_fields : Fields → Fields
audio_fields audio = field "type" (text "audio") (
    add_text "id" (text_field audio "id") (
      add_text "url" (text_field audio "url") (
        add_text "data" (text_field audio "data") (
          add_text "mime_type" (audio_mime_type audio)
            (add_text "transcript" (text_field audio "transcript") end)))))

abbrev pub audio_of : Option Fields → Option Fields
audio_of none = none
audio_of (some audio) =
    if is_none (text_field audio "data") && is_none (text_field audio "url")
    then none
    else some (audio_fields audio)

unfoldable pub audio_block_from_additional_kwargs : Option Fields → Option Fields
audio_block_from_additional_kwargs none = none
audio_block_from_additional_kwargs (some additional_kwargs) =
    audio_of (dict_of (get additional_kwargs "audio"))

-- `image_url`: a text, or a record with a text in it.
abbrev pub image_of : Option String → Option Fields
image_of none = none
image_of (some url) = some (field "type" (text "image") (field "url" (text url) end))

abbrev pub image_block : Option Json → Option Fields
image_block (some (text url)) = image_of (some url)
image_block (some (obj image)) = image_of (text_field image "url")
image_block _ = none

abbrev pub input_audio_block : Option Fields → Option Fields
input_audio_block none = none
input_audio_block (some audio) = some (
    field "type" (text "audio") (
      add_text "data" (text_field audio "data")
        (add_text "mime_type" (text_field audio "mime_type") end)))

abbrev pub typed_block : Option String → Fields → Option Fields
typed_block none value = none
typed_block (some kind) value =
    if contains content_block_types kind
    then some value
    else if str_eq kind "image_url"
    then image_block (get value "image_url")
    else if str_eq kind "input_audio"
    then input_audio_block (dict_of (get value "input_audio"))
    else some (field "type" (text "non_standard") (field "value" (obj value) end))

unfoldable pub normalize_block : Json → Option Fields
normalize_block (obj value) = typed_block (text_field value "type") value
normalize_block _ = none

abbrev pub text_block : String → Fields
text_block s = field "type" (text "text") (field "text" (text s) end)

abbrev pub add_block : Option Fields → List Fields → List Fields
add_block none blocks = blocks
add_block (some b) blocks = b ∷ blocks

-- The blocks of a content list: a text is a block, and what is no block is left out.
abbrev pub content_blocks : Items → List Fields
content_blocks nil = []
content_blocks (cons (text s) rest) = text_block s ∷ content_blocks rest
content_blocks (cons entry rest) = add_block (normalize_block entry) (content_blocks rest)

abbrev pub is_audio : Fields → Bool
is_audio b = is_text (text_field b "type") "audio"

-- The audio of the message's extra arguments goes to the end, unless there is audio already.
abbrev pub with_audio : Option Fields → List Fields → List Fields
with_audio none blocks = blocks
with_audio (some audio) blocks = if any is_audio blocks then blocks else blocks ++ audio ∷ []

abbrev pub text_and_audio : String → Option Fields → Json
text_and_audio s none = text s
text_and_audio s (some audio) =
    arr (items_of (if str_eq s "" then audio ∷ [] else text_block s ∷ audio ∷ []))

-- `blocks if blocks else content`
abbrev pub blocks_or : Json → List Fields → Json
blocks_or content [] = content
blocks_or content (b ∷ bs) = arr (items_of (b ∷ bs))

abbrev pub content_with : Json → Option Fields → Json
content_with (text s) audio = text_and_audio s audio
content_with (arr entries) audio =
    blocks_or (arr entries) (with_audio audio (content_blocks entries))
content_with content audio = blocks_or content (add_block audio [])

unfoldable pub normalize_content : Json → Option Fields → Json
normalize_content content additional_kwargs =
    content_with content (audio_block_from_additional_kwargs additional_kwargs)
