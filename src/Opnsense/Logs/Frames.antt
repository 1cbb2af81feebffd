-- ===== src/Opnsense/Logs/Frames.antt =====
-- The format of a stream of events: frames of data lines and comments, a blank line after each.
use verkkokyyla.Opnsense.Logs.{Json, LogEvent, max_frame_bytes, strip_cr, decode}
use verkkokyyla.Prelude.Text.{codes}
use verkkokyyla.Prelude.{◌≡◌, ◌≤◌, ℕ, Bool, true, not, all, List, [], ◌∷◌, ◌++◌, length, ◌==◌}

-- A line of a frame: a part of its data, or a comment such as a heartbeat.
pub data FrameLine : Type 0 where
  data_line : List ℕ → FrameLine
  comment : List ℕ → FrameLine

abbrev pub content : FrameLine → List ℕ
content (data_line l) = codes "data: " ++ l
content (comment l) = b':' ∷ l

abbrev pub write_lines : List FrameLine → List ℕ
write_lines [] = []
write_lines (l ∷ ls) = content l ++ 10 ∷ write_lines ls

abbrev pub write_frames : List (List FrameLine) → List ℕ
write_frames [] = []
write_frames (f ∷ fs) = write_lines f ++ 10 ∷ write_frames fs

-- What a line may hold: no line feed, and no carriage return at its end.
abbrev pub is_line : List ℕ → Bool
is_line l = all (λ c. not (c == 10)) l

abbrev pub IsLine : List ℕ → Type 0
IsLine l = (is_line l ≡ true) × (strip_cr l ≡ l)

abbrev pub AreLines : List FrameLine → Type 0
AreLines [] = Unit
AreLines (l ∷ ls) = IsLine (content l) × AreLines ls

abbrev pub AreFrames : List (List FrameLine) → Type 0
AreFrames [] = Unit
AreFrames (f ∷ fs) = AreLines f × (length (write_lines f) ≤ max_frame_bytes) × AreFrames fs

-- The data of a frame: its data lines, with line feeds between them.
abbrev pub data_lines : List FrameLine → List (List ℕ)
data_lines [] = []
data_lines (data_line l ∷ ls) = l ∷ data_lines ls
data_lines (comment l ∷ ls) = data_lines ls

abbrev pub more_lines : List (List ℕ) → List ℕ
more_lines [] = []
more_lines (l ∷ ls) = 10 ∷ l ++ more_lines ls

abbrev pub frame_events : Json → List (List ℕ) → List LogEvent
frame_events json [] = []
frame_events json (l ∷ ls) = decode json (l ++ more_lines ls)

abbrev pub all_events : Json → List (List FrameLine) → List LogEvent
all_events json [] = []
all_events json (f ∷ fs) = frame_events json (data_lines f) ++ all_events json fs
