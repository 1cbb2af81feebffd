-- ===== src/Opnsense/Logs.antt =====
-- opnsense/logs.rs: the firewall's log, a stream of server-sent events. Bytes and code points are
-- numbers. An event is modelled without the time of its receipt.
pub mod Chunks
pub mod Bounded
pub mod Frames
pub mod Reading
pub mod Reader
use verkkokyyla.Prelude.Results.{Result, ok, err, ◌>>=◌}
use verkkokyyla.Prelude.Text.{Text, codes, text_eq}
use verkkokyyla.Prelude.{
  ℕ, ◌+◌, Bool, true, false, List, [], ◌∷◌, ◌++◌, Option, none, some, length, ltb, ◌==◌, ◌||◌,
  if◌then◌else◌,
}

-- 256 KiB.
abbrev pub max_frame_bytes : ℕ
max_frame_bytes = 262144

-- The members of a JSON object: a text, or something that is no text.
abbrev pub Members : Type 0
Members = List (Text × Option Text)

-- A JSON value, as far as an event is read from it.
pub data Value : Type 0 where
  object : Members → Value
  array : List (Option Members) → Value
  scalar : Value

-- The JSON library, from the bytes of a payload on, and `str::to_lowercase`.
pub record Json : Type 0 where
  pub from_bytes : List ℕ → Option Value
  pub to_lowercase : Text → Text

pub record LogEvent : Type 0 where
  pub profile_id : ℕ
  pub action : Text
  pub timestamp : Option Text
  pub interface_name : Option Text
  pub dir : Option Text
  pub proto : Option Text
  pub src : Option Text
  pub src_port : Option Text
  pub dst : Option Text
  pub dst_port : Option Text
  pub label : Option Text

-- `map.get(key).and_then(Value::as_str)`.
abbrev member : Members → Text → Option Text
member [] key = none
member ((k, v) ∷ members) key = if text_eq k key then v else member members key

abbrev non_empty : Option Text → Option Text → Option Text
non_empty (some (c ∷ cs)) others = some (c ∷ cs)
non_empty (some []) others = others
non_empty none others = others

abbrev text_of : Members → List Text → Option Text
text_of members [] = none
text_of members (key ∷ keys) = non_empty (member members key) (text_of members keys)

abbrev action_of : Option Text → Text
action_of none = codes "other"
action_of (some action) =
    if text_eq action (codes "pass")
    then codes "pass"
    else if text_eq action (codes "block") || text_eq action (codes "reject")
    then codes "block"
    else codes "other"

abbrev lowered : (Text → Text) → Option Text → Option Text
lowered to_lowercase none = none
lowered to_lowercase (some s) = some (to_lowercase s)

unfoldable pub event_from_object : Json → Members → LogEvent
event_from_object json members = record {
  profile_id = 0;
  action = action_of (lowered json.to_lowercase (member members (codes "action")));
  timestamp = text_of members (codes "__timestamp__" ∷ codes "timestamp" ∷ codes "time" ∷ []);
  interface_name = text_of members (codes "interface_name" ∷ codes "interface" ∷ codes "if" ∷ []);
  dir = text_of members (codes "dir" ∷ codes "direction" ∷ []);
  proto = text_of members (codes "protoname" ∷ codes "proto" ∷ codes "protocol" ∷ []);
  src = text_of members (codes "src" ∷ codes "src_addr" ∷ []);
  src_port = text_of members (codes "srcport" ∷ codes "src_port" ∷ []);
  dst = text_of members (codes "dst" ∷ codes "dst_addr" ∷ []);
  dst_port = text_of members (codes "dstport" ∷ codes "dst_port" ∷ []);
  label = text_of members (codes "label" ∷ codes "rule" ∷ codes "rid" ∷ []);
}

abbrev events_of_items : Json → List (Option Members) → List LogEvent
events_of_items json [] = []
events_of_items json (some members ∷ items) =
    event_from_object json members ∷ events_of_items json items
events_of_items json (none ∷ items) = events_of_items json items

abbrev events_of_value : Json → Option Value → List LogEvent
events_of_value json none = []
events_of_value json (some (object members)) = event_from_object json members ∷ []
events_of_value json (some (array items)) = events_of_items json items
events_of_value json (some scalar) = []

-- The events of a payload; one that is no JSON has none.
unfoldable pub decode : Json → List ℕ → List LogEvent
decode json payload = events_of_value json (json.from_bytes payload)

pub data ParseFailure : Type 0 where
  oversized_frame : ParseFailure

pub record SseParser : Type 0 where
  pub line : List ℕ
  pub payload : List ℕ
  pub has_data : Bool

abbrev pub new_parser : SseParser
new_parser = record { line = []; payload = []; has_data = false }

-- `line.strip_suffix(b"\r").unwrap_or(line)`.
abbrev pub strip_cr : List ℕ → List ℕ
strip_cr [] = []
strip_cr (c ∷ []) = if c == 13 then [] else c ∷ []
strip_cr (c ∷ d ∷ cs) = c ∷ strip_cr (d ∷ cs)

abbrev pub strip_space : List ℕ → List ℕ
strip_space [] = []
strip_space (c ∷ cs) = if c == b' ' then cs else c ∷ cs

-- The name and the value of a field; a line without a colon is a name.
abbrev pub split_field : List ℕ → List ℕ × List ℕ
split_field [] = ([], [])
split_field (c ∷ cs) =
    if c == b':' then ([], strip_space cs) else (c ∷ (split_field cs).0, (split_field cs).1)

abbrev pub joined : Bool → List ℕ → List ℕ → List ℕ
joined true payload value = payload ++ 10 ∷ value
joined false payload value = payload ++ value

abbrev pub add_field : SseParser → List ℕ × List ℕ → SseParser
add_field s (name, value) =
    if text_eq name (codes "data")
    then record s { payload = joined s.has_data s.payload value; has_data = true }
    else s

unfoldable pub end_frame : Json → SseParser → List LogEvent × SseParser
end_frame json s =
    if s.has_data
    then (decode json s.payload, record s { payload = []; has_data = false })
    else ([], s)

abbrev pub handle_stripped : Json → List ℕ → SseParser → List LogEvent × SseParser
handle_stripped json [] s = end_frame json s
handle_stripped json (c ∷ cs) s =
    if c == b':' then ([], s) else ([], add_field s (split_field (c ∷ cs)))

unfoldable pub handle_line : Json → SseParser → List LogEvent × SseParser
handle_line json s = handle_stripped json (strip_cr s.line) (record s { line = [] })

-- A byte that does not end a line.
unfoldable pub push_byte : SseParser → ℕ → Result ParseFailure SseParser
push_byte s byte =
    let line = s.line ++ byte ∷ [] in
    if ltb max_frame_bytes (length line + length s.payload)
    then err oversized_frame
    else ok (record s { line = line })

abbrev pub no_events :
    Result ParseFailure SseParser → Result ParseFailure (List LogEvent × SseParser)
no_events (ok s) = ok ([], s)
no_events (err e) = err e

unfoldable pub feed_byte : Json → SseParser → ℕ → Result ParseFailure (List LogEvent × SseParser)
feed_byte json s byte = if byte == 10 then ok (handle_line json s) else no_events (push_byte s byte)

-- The events of a chunk, and the parser after it.
unfoldable pub feed : Json → SseParser → List ℕ → Result ParseFailure (List LogEvent × SseParser)
feed json s [] = ok ([], s)
feed json s (byte ∷ bytes) = do
  now ← feed_byte json s byte
  rest ← feed json now.1 bytes
  ok (now.0 ++ rest.0, rest.1)
