-- ===== src/Opnsense/Logs/Reading.antt =====
-- Frames that are written as the format says are read back.
use mathlib.Core.List.{append_assoc, append-nil}
use verkkokyyla.Opnsense.Logs.Chunks.{
  concat, feed_chunks, feed_chunks-feed, after_events, feed_cons, feed-Splits, after_events-nil,
}
use verkkokyyla.Opnsense.Logs.{
  Json, LogEvent, SseParser, new_parser, max_frame_bytes, strip_cr, joined, end_frame,
  handle_stripped, handle_line, push_byte, feed_byte, feed, decode,
}
use verkkokyyla.Prelude.Results.{ok}
use verkkokyyla.Prelude.Text.{codes}
use verkkokyyla.Prelude.{
  ◌≡◌, ◌≤◌, ◌+◌, refl, ap, sym, ℕ, Bool, true, false, List, [], ◌∷◌, ◌++◌, ◌∙◌, arith, length,
  length-append, ◌==◌, Bool-cases, inl, inr,
}
use verkkokyyla.Opnsense.Logs.Frames.{
  FrameLine, content, write_lines, write_frames, is_line, IsLine, AreLines, AreFrames, data_lines,
  more_lines, frame_events, all_events, data_line, comment,
}

abbrev within : Bool → List ℕ → SseParser
within has_data payload = record { line = []; payload = payload; has_data = has_data }

-- A frame so far, and the rest of its data lines.
abbrev rest_events : Json → Bool → List ℕ → List (List ℕ) → List LogEvent
rest_events json true payload ls = decode json (payload ++ more_lines ls)
rest_events json false payload ls = frame_events json ls

module _ (json : Json) where
  feed_byte-plain :
      (s : SseParser) (c : ℕ)
      → (c == 10) ≡ false
      → length s.line + 1 + length s.payload ≤ max_frame_bytes
      → feed_byte json s c ≡ ok ([], record s { line = s.line ++ c ∷ [] })
  unfolding feed_byte push_byte
  feed_byte-plain s c h b = ground (arith, h, b, length-append s.line (c ∷ []))

  feed-line :
      (l : List ℕ) (s : SseParser)
      → is_line l ≡ true
      → length s.line + length l + length s.payload ≤ max_frame_bytes
      → feed json s l ≡ ok ([], record s { line = s.line ++ l })
  unfolding feed
  feed-line [] s h b = ap (λ l. ok ([], record s { line = l })) (sym (append-nil s.line))
  feed-line (c ∷ cs) s h b = elim (Bool-cases (c == 10)) [
    | inl ends ↦ absurd (ground (arith, ends, h))
    | inr plain ↦
        rw
          (
            feed_cons json s c cs,
            feed_byte-plain s c plain (omega (arith, b)),
            feed-line cs (record s { line = s.line ++ c ∷ [] }) (ground (arith, plain, h))
                (omega (arith, b, length-append s.line (c ∷ []))),
          )
          (ap (λ l. ok ([], record s { line = l })) (append_assoc s.line (c ∷ []) cs))
  ]

  handle_line-data :
      (has_data : Bool) (payload l : List ℕ)
      → strip_cr (content (data_line l)) ≡ content (data_line l)
      → handle_line json
          (record { line = content (data_line l); payload = payload; has_data = has_data })
        ≡ ([], within true (joined has_data payload l))
  unfolding handle_line
  handle_line-data has_data payload l h =
      ap (λ line. handle_stripped json line (within has_data payload)) h

  handle_line-comment :
      (s : SseParser) (l : List ℕ)
      → strip_cr (b':' ∷ l) ≡ b':' ∷ l
      → handle_line json (record s { line = b':' ∷ l }) ≡ ([], record s { line = [] })
  unfolding handle_line
  handle_line-comment s l h = ap (λ line. handle_stripped json line (record s { line = [] })) h

  feed-newline :
      (s : SseParser) (rest : List ℕ)
      → feed json s (10 ∷ rest)
        ≡ after_events json (handle_line json s).0 (feed json (handle_line json s).1 rest)
  unfolding feed_byte
  feed-newline s rest = feed_cons json s 10 rest

  -- A line and its end.
  feed-ended :
      (l rest : List ℕ) (s : SseParser)
      → is_line l ≡ true
      → length s.line + length l + length s.payload ≤ max_frame_bytes
      → feed json s (l ++ 10 ∷ rest) ≡ (
          let now = handle_line json (record s { line = s.line ++ l }) in
          after_events json now.0 (feed json now.1 rest))
  feed-ended l rest s h b =
      let t : SseParser = record s { line = s.line ++ l } in
      rw (feed-Splits json l (10 ∷ rest) s, feed-line l s h b)
        (sym (after_events-nil json (feed json t (10 ∷ rest))) ∙ feed-newline t rest)

  abbrev after_line : Bool → List ℕ → FrameLine → SseParser
  after_line has_data payload (data_line l) = within true (joined has_data payload l)
  after_line has_data payload (comment l) = within has_data payload

  handle_line-content :
      (has_data : Bool) (payload : List ℕ) (l : FrameLine)
      → strip_cr (content l) ≡ content l
      → handle_line json (record { line = content l; payload = payload; has_data = has_data })
        ≡ ([], after_line has_data payload l)
  handle_line-content has_data payload (data_line l) h = handle_line-data has_data payload l h
  handle_line-content has_data payload (comment l) h =
      handle_line-comment (within has_data payload) l h

  feed-content :
      (l : FrameLine) (rest : List ℕ) (has_data : Bool) (payload : List ℕ)
      → IsLine (content l)
      → length payload + length (content l) ≤ max_frame_bytes
      → feed json (within has_data payload) (content l ++ 10 ∷ rest)
        ≡ feed json (after_line has_data payload l) rest
  feed-content l rest has_data payload v b =
      rw
        (
          feed-ended (content l) rest (within has_data payload) v.0 (omega (arith, b)),
          handle_line-content has_data payload l v.1,
        )
        (sym (after_events-nil json (feed json (after_line has_data payload l) rest)))

  write_lines-cons :
      (l : FrameLine) (ls : List FrameLine) (rest : List ℕ)
      → write_lines (l ∷ ls) ++ 10 ∷ rest ≡ content l ++ 10 ∷ (write_lines ls ++ 10 ∷ rest)
  write_lines-cons l ls rest = append_assoc (content l) (10 ∷ write_lines ls) (10 ∷ rest)

  write_lines-length :
      (l : FrameLine) (ls : List FrameLine)
      → length (write_lines (l ∷ ls)) ≡ length (content l) + 1 + length (write_lines ls)
  write_lines-length l ls = omega (arith, length-append (content l) (10 ∷ write_lines ls))

  feed-started :
      (f : List FrameLine) (rest payload : List ℕ)
      → AreLines f
      → length payload + length (write_lines f) ≤ max_frame_bytes
      → feed json (within true payload) (write_lines f ++ 10 ∷ rest)
        ≡ after_events json
            (decode json (payload ++ more_lines (data_lines f)))
            (feed json new_parser rest)
  unfolding handle_line end_frame
  feed-started [] rest payload v b =
      feed-newline (within true payload) rest
      ∙ ap (λ p. after_events json (decode json p) (feed json new_parser rest))
          (sym (append-nil payload))
  feed-started (data_line l ∷ ls) rest payload v b =
      let n = write_lines-length (data_line l) ls in
      rw
        (
          write_lines-cons (data_line l) ls rest,
          feed-content (data_line l) (write_lines ls ++ 10 ∷ rest) true payload v.0
              (omega (arith, b, n)),
          feed-started ls rest (payload ++ 10 ∷ l) v.1 (
              omega
                (arith, b, n, length-append payload (10 ∷ l), length-append (codes "data: ") l)),
          append_assoc payload (10 ∷ l) (more_lines (data_lines ls)),
        )
        refl
  feed-started (comment l ∷ ls) rest payload v b =
      let n = write_lines-length (comment l) ls in
      rw
        (
          write_lines-cons (comment l) ls rest,
          feed-content (comment l) (write_lines ls ++ 10 ∷ rest) true payload v.0
              (omega (arith, b, n)),
        )
        (feed-started ls rest payload v.1 (omega (arith, b, n)))

  feed-frame :
      (f : List FrameLine) (rest : List ℕ)
      → AreLines f
      → length (write_lines f) ≤ max_frame_bytes
      → feed json new_parser (write_lines f ++ 10 ∷ rest)
        ≡ after_events json (frame_events json (data_lines f)) (feed json new_parser rest)
  unfolding handle_line end_frame
  feed-frame [] rest v b = feed-newline new_parser rest
  feed-frame (data_line l ∷ ls) rest v b =
      let n = write_lines-length (data_line l) ls in
      rw
        (
          write_lines-cons (data_line l) ls rest,
          feed-content (data_line l) (write_lines ls ++ 10 ∷ rest) false [] v.0
              (omega (arith, b, n)),
        )
        (feed-started ls rest l v.1 (omega (arith, b, n, length-append (codes "data: ") l)))
  feed-frame (comment l ∷ ls) rest v b =
      let n = write_lines-length (comment l) ls in
      rw
        (
          write_lines-cons (comment l) ls rest,
          feed-content (comment l) (write_lines ls ++ 10 ∷ rest) false [] v.0 (omega (arith, b, n)),
        )
        (feed-frame ls rest v.1 (omega (arith, b, n)))

  feed-frames :
      (fs : List (List FrameLine))
      → AreFrames fs
      → feed json new_parser (write_frames fs) ≡ ok (all_events json fs, new_parser)
  unfolding feed
  feed-frames [] v = refl
  feed-frames (f ∷ fs) v = rw (feed-frame f (write_frames fs) v.0 v.1, feed-frames fs v.2) refl

  -- A stream of frames, written as data lines and comments with a blank line after each frame, is
  -- read back whatever chunks it comes in: each frame with data has the events of its data lines,
  -- put together with line feeds, in order; comments and frames of comments have none; and the
  -- parser is as new after it. A line holds no line feed and does not end with a carriage return,
  -- and no frame is longer than 256 KiB.
  pub feed_chunks-frames :
      (fs : List (List FrameLine)) (chunks : List (List ℕ))
      → AreFrames fs
      → concat json chunks ≡ write_frames fs
      → feed_chunks json new_parser chunks ≡ ok (all_events json fs, new_parser)
  feed_chunks-frames fs chunks v e =
      feed_chunks-feed json chunks new_parser ∙ ap (feed json new_parser) e ∙ feed-frames fs v
