-- ===== src/Mikrotik/Logs.antt =====
-- mikrotik/logs.rs: live logs of a router, which is polled. An entry is its id and the rest of it,
-- which nothing here reads. The router's answers and the order of polls and stops are the input.
pub mod Cursor
pub mod Streaks
pub mod Slots
use mathlib.Core.Option
use verkkokyyla.Prelude.Assoc.{contains_key, insert, remove}
use verkkokyyla.Prelude.Machine.{u64_mod, clamp}
use verkkokyyla.Prelude.Results.{Result, ok, err, ◌>>=◌}
use verkkokyyla.Prelude.Text.{Text, codes, strip_prefix}
use verkkokyyla.Prelude.{
  ℕ, ◌+◌, ◌-◌, ◌*◌, max, Bool, true, false, ◌&&◌, ◌||◌, List, [], ◌∷◌, ◌++◌, Option, none, some,
  length, drop, filter, leb, ltb, ◌==◌, if◌then◌else◌,
}

abbrev pub log_backlog : ℕ
log_backlog = 50

abbrev pub max_log_failures : ℕ
max_log_failures = 3

-- Seconds.
unfoldable pub poll_from_secs : ℕ → ℕ
poll_from_secs secs = clamp secs 1 60

pub record LogEntry : Type 0 where
  pub id : Text
  pub line : Text

abbrev is_hex_digit : ℕ → Bool
is_hex_digit c =
    (leb b'0' c && leb c b'9') || (leb b'A' c && leb c b'F') || (leb b'a' c && leb c b'f')

abbrev hex_value : ℕ → ℕ
hex_value c = if leb c b'9' then c - b'0' else if leb c b'F' then c - b'A' + 10 else c - b'a' + 10

unfoldable pub read_hex : ℕ → Text → Option ℕ
read_hex acc [] = some acc
read_hex acc (c ∷ cs) =
    let value = acc * 16 + hex_value c in
    let rest = read_hex value cs in if is_hex_digit c && ltb value u64_mod then rest else none

-- `u64::from_str_radix(raw, 16)`: one leading `+` is allowed, and at least one digit is needed.
unfoldable pub parse_hex : Text → Option ℕ
unfolding read_hex
parse_hex [] = none
parse_hex (c ∷ []) = if c == b'+' then none else read_hex 0 (c ∷ [])
parse_hex (c ∷ d ∷ cs) = if c == b'+' then read_hex 0 (d ∷ cs) else read_hex 0 (c ∷ d ∷ cs)

after_star : Option Text → Option ℕ
after_star (some raw) = parse_hex raw
after_star none = none

unfoldable pub log_id_number : Text → Option ℕ
unfolding after_star
log_id_number id = after_star (strip_prefix (codes "*") id)

unfoldable pub backlog_of : List LogEntry → List LogEntry
backlog_of entries = drop (length entries - log_backlog) entries

abbrev pub later : Option ℕ → Option ℕ → Option ℕ
later (some a) (some b) = some (max a b)
later (some a) none = some a
later none o = o

-- `filter_map(log_id_number).max()`.
unfoldable pub max_id : List LogEntry → Option ℕ
max_id [] = none
max_id (entry ∷ entries) = later (log_id_number entry.id) (max_id entries)

abbrev pub is_newer : Option ℕ → Option ℕ → Bool
is_newer (some new) (some seen) = ltb seen new
is_newer (some new) none = true
is_newer none seen = false

abbrev pub advanced : Option ℕ → Option ℕ → Option ℕ
advanced (some max_id) last_id = some max_id
advanced none last_id = last_id

-- What is new, and the cursor after it.
unfoldable pub fresh_entries : List LogEntry → Option ℕ → List LogEntry × Option ℕ
fresh_entries entries last_id =
    let fresh = filter (λ entry. is_newer (log_id_number entry.id) last_id) entries in
    (fresh, advanced (max_id fresh) last_id)

-- What the interface receives, and how a stream ends.
pub data Output : Type 0 where
  started : ℕ → Output
  entries : List LogEntry → Output
  warning : ℕ → Text → Output
  error : Text → Output
  stopped : Output

pub data End : Type 0 where
  running : End
  finished : End
  failed : Text → End

-- What the loop waits for: a stop, which the sender's end is too, or a tick, with the answer to its
-- poll.
pub data Turn : Type 0 where
  stop_changed : Turn
  polled : Result Text (List LogEntry) → Turn

pub record LogState : Type 0 where
  pub last_id : Option ℕ
  pub failures : ℕ

abbrev pub emit : List LogEntry → List Output
emit [] = []
emit (e ∷ es) = entries (e ∷ es) ∷ []

unfoldable pub log_loop : LogState → List Turn → List Output × End
log_loop s [] = ([], running)
log_loop s (stop_changed ∷ turns) = (stopped ∷ [], finished)
log_loop s (polled (ok answer) ∷ turns) =
    let fresh = fresh_entries answer s.last_id in
    let rest = log_loop (record { last_id = fresh.1; failures = 0 }) turns in
    (emit fresh.0 ++ rest.0, rest.1)
log_loop s (polled (err e) ∷ turns) =
    let failures = s.failures + 1 in
    let rest = log_loop (record s { failures = failures }) turns in
    if leb max_log_failures failures
    then (error e ∷ [], failed e)
    else (warning failures e ∷ rest.0, rest.1)

-- A stream: `first` answers the request for the backlog.
unfoldable pub run_inner : ℕ → Result Text (List LogEntry) → List Turn → List Output × End
run_inner profile_id (err e) turns = (started profile_id ∷ error e ∷ [], failed e)
run_inner profile_id (ok answer) turns =
    let backlog = backlog_of answer in
    let rest = log_loop (record { last_id = max_id backlog; failures = 0 }) turns in
    (started profile_id ∷ emit backlog ++ rest.0, rest.1)
