-- ===== src/Tests/Logs.antt =====
-- A router's log that is polled, and a firewall's log that comes in two chunks.
use verkkokyyla.Mikrotik.Logs.Cursor.{unseen, not_empty, answers_of, batches_of, run_inner-unseen}
use verkkokyyla.Mikrotik.Logs.Slots.{overtaken, overtaken-loses}
use verkkokyyla.Mikrotik.Logs.Streaks.{closing, closing_of, run_inner-ends_at}
use verkkokyyla.Mikrotik.Logs.{
  LogEntry, log_id_number, parse_hex, read_hex, backlog_of, Turn, polled, failed, run_inner,
}
use verkkokyyla.Opnsense.Activity.{no_activity}
use verkkokyyla.Opnsense.Activity.Counts.{count}
use verkkokyyla.Opnsense.Logs.Chunks.{feed_chunks}
use verkkokyyla.Opnsense.Logs.Frames.{FrameLine, data_line, comment, AreFrames, all_events}
use verkkokyyla.Opnsense.Logs.Reader.Delivery.{delivered, chunk_turns, run_reader-frames}
use verkkokyyla.Opnsense.Logs.Reader.{started, warning, stopped, finished, run_reader}
use verkkokyyla.Opnsense.Logs.Reading.{feed_chunks-frames}
use verkkokyyla.Opnsense.Logs.{Json, object, feed, feed_byte, push_byte, new_parser, SseParser}
use verkkokyyla.Prelude.Assoc.{remove}
use verkkokyyla.Prelude.Results.{ok, err}
use verkkokyyla.Prelude.Text.{Text, codes}
use verkkokyyla.Prelude.{ℕ, ◌≡◌, refl, true, false, arith, List, [], ◌∷◌, ◌++◌, some}

abbrev entry : Text → LogEntry
entry id = record { id = id; line = codes "login failure" }

abbrev first_answer : List LogEntry
first_answer = entry (codes "*9") ∷ entry (codes "*A") ∷ []

-- One entry is new in the second answer; then three polls fail.
abbrev polls : List Turn
polls =
    polled (ok (entry (codes "*A") ∷ entry (codes "*B") ∷ []))
    ∷ polled (err (codes "timeout"))
    ∷ polled (err (codes "timeout"))
    ∷ polled (err (codes "reset"))
    ∷ []

hexadecimal : log_id_number (codes "*1F") ≡ some 31
unfolding log_id_number parse_hex read_hex
hexadecimal = refl

one_new : not_empty (unseen first_answer (answers_of 0 polls)) ≡ (entry (codes "*B") ∷ []) ∷ []
unfolding log_id_number parse_hex read_hex
one_new = refl

run_inner-unseen_example :
    batches_of (run_inner 7 (ok first_answer) polls).0
    ≡ not_empty (backlog_of first_answer ∷ unseen (backlog_of first_answer) (answers_of 0 polls))
run_inner-unseen_example = run_inner-unseen 7 first_answer polls

run_inner-ends_at_example :
    ((run_inner 7 (ok first_answer) polls).1 ≡ failed (codes "reset"))
    × (closing (run_inner 7 (ok first_answer) polls).0 ≡ closing_of (failed (codes "reset")))
run_inner-ends_at_example = run_inner-ends_at 7 first_answer polls

overtaken-loses_example : overtaken ((2, 20) ∷ []) 1 10 11 ≡ ok (10, (2, 20) ∷ [])
overtaken-loses_example = overtaken-loses ((2, 20) ∷ []) 1 10 11 refl

-- A library that reads every payload as an object with that text for its action.
abbrev json : Json
json = record {
  from_bytes = λ payload. some (object ((codes "action", some payload) ∷ []));
  to_lowercase = λ s. s;
}

abbrev frames : List (List FrameLine)
frames = (data_line (codes "pass") ∷ []) ∷ (comment (codes "alive") ∷ []) ∷ []

abbrev chunks : List (List ℕ)
chunks = codes "data: pa" ∷ (codes "ss" ++ 10 ∷ 10 ∷ codes ":alive" ++ 10 ∷ 10 ∷ []) ∷ []

abbrev frames-AreFrames : AreFrames frames
frames-AreFrames = (((refl, refl), tt), omega arith, (((refl, refl), tt), omega arith, tt))

feed_chunks-frames_example :
    feed_chunks json new_parser chunks ≡ ok (all_events json frames, new_parser)
feed_chunks-frames_example = feed_chunks-frames json frames chunks frames-AreFrames refl

abbrev half : SseParser
half = record { line = codes "data: pa"; payload = []; has_data = false }

half_read : feed_chunks json new_parser (codes "data: pa" ∷ []) ≡ ok ([], half)
unfolding feed feed_byte push_byte
half_read = refl

run_reader-frames_example :
    let run =
      run_reader json
        (λ n. true)
        7
        true
        (chunk_turns json (λ n. true) 7 (λ n. refl) chunks)
        no_activity
        ((7, 1) ∷ []) in
    (run.outputs
      ≡ started 7 ∷ delivered json (λ n. true) 7 (λ n. refl) (all_events json frames)
        ++ warning 7 ∷ stopped 7 ∷ [])
    × (run.end ≡ finished)
    × (run.slots ≡ remove 7 ((7, 1) ∷ []))
    × (count 7 run.activity.logs ≡ count 7 no_activity.logs)
run_reader-frames_example =
    run_reader-frames json (λ n. true) 7 (λ n. refl) frames chunks no_activity ((7, 1) ∷ []) 7
      frames-AreFrames refl (record { distinct = tt; counted = tt })
