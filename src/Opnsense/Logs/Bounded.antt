-- ===== src/Opnsense/Logs/Bounded.antt =====
-- What a stream of events can make the parser hold.
use verkkokyyla.Opnsense.Logs.Chunks.{
  concat, feed_chunks, feed_chunks-feed, after_events, feed_cons,
}
use verkkokyyla.Opnsense.Logs.{
  Json, LogEvent, ParseFailure, SseParser, new_parser, max_frame_bytes, strip_cr, strip_space,
  split_field, joined, add_field, end_frame, handle_stripped, handle_line, push_byte, no_events,
  feed_byte, feed,
}
use verkkokyyla.Prelude.Results.{Result, ok, err, ◌>>=◌}
use verkkokyyla.Prelude.Text.{Text, codes, text_eq}
use verkkokyyla.Prelude.{
  ◌≡◌, ◌≤◌, ◌+◌, refl, sym, subst, ℕ, Bool, true, false, List, [], ◌∷◌, ◌++◌, ◌∙◌, arith, length,
  length-append, ltb, ◌==◌, if◌then◌else◌, Bool-cases, inl, inr,
}

abbrev pub IsBounded : SseParser → Type 0
IsBounded s = length s.line + length s.payload ≤ max_frame_bytes

strip_cr_le : (cs : List ℕ) → length (strip_cr cs) ≤ length cs
strip_cr_le [] = omega arith
strip_cr_le (c ∷ []) = ground arith
strip_cr_le (c ∷ d ∷ cs) = let h = strip_cr_le (d ∷ cs) in ground (arith, h)

strip_space_le : (cs : List ℕ) → length (strip_space cs) ≤ length cs
strip_space_le [] = omega arith
strip_space_le (c ∷ cs) = ground arith

split_field_le : (cs : List ℕ) → length (split_field cs).0 + length (split_field cs).1 ≤ length cs
split_field_le [] = omega arith
split_field_le (c ∷ cs) = elim (Bool-cases (c == b':')) [
  | inl colon ↦ rw colon (let h = strip_space_le cs in omega (arith, h))
  | inr other ↦ rw other (let h = split_field_le cs in omega (arith, h))
]

text_eq-length : (s t : Text) → text_eq s t ≡ true → length s ≡ length t
text_eq-length [] [] e = refl
text_eq-length [] (d ∷ t) e = cc
text_eq-length (c ∷ s) [] e = cc
text_eq-length (c ∷ s) (d ∷ t) e = ground (arith, e, text_eq-length s t)

joined_le : (h : Bool) (p v : List ℕ) → length (joined h p v) ≤ length p + length v + 1
joined_le true p v = omega (arith, length-append p (10 ∷ v))
joined_le false p v = omega (arith, length-append p v)

add_field-IsBounded :
    (s : SseParser) (field : List ℕ × List ℕ)
    → length s.line + length s.payload + length field.0 + length field.1 ≤ max_frame_bytes
    → IsBounded (add_field s field)
add_field-IsBounded s (name, value) h = elim (Bool-cases (text_eq name (codes "data"))) [
  | inl data_line ↦ rw data_line (
      let l = text_eq-length name (codes "data") data_line in
      let j = joined_le s.has_data s.payload value in omega (arith, h, l, j))
  | inr other ↦ rw other (omega (arith, h))
]

module _ (json : Json) where
  choice-IsBounded :
      (b : Bool) (x y : List LogEvent × SseParser)
      → IsBounded x.1
      → IsBounded y.1
      → IsBounded (if b then x else y).1
  choice-IsBounded true x y h k = h
  choice-IsBounded false x y h k = k

  handle_stripped-IsBounded :
      (line : List ℕ) (s : SseParser)
      → length line + length s.line + length s.payload ≤ max_frame_bytes
      → IsBounded (handle_stripped json line s).1
  unfolding end_frame
  handle_stripped-IsBounded [] s h = elim (Bool-cases s.has_data) [
    | inl full ↦ rw full (omega (arith, h))
    | inr empty ↦ rw empty (omega (arith, h))
  ]
  handle_stripped-IsBounded (c ∷ cs) s h =
      choice-IsBounded (c == b':') ([], s) ([], add_field s (split_field (c ∷ cs)))
        (omega (arith, h))
        (add_field-IsBounded s (split_field (c ∷ cs))
          (let l = split_field_le (c ∷ cs) in omega (arith, h, l)))

  handle_line-IsBounded : (s : SseParser) → IsBounded s → IsBounded (handle_line json s).1
  unfolding handle_line
  handle_line-IsBounded s b =
      handle_stripped-IsBounded (strip_cr s.line) _
        (let l = strip_cr_le s.line in omega (arith, b, l))

  abbrev LeavesBounded : Result ParseFailure (List LogEvent × SseParser) → Type 0
  LeavesBounded (ok r) = IsBounded r.1
  LeavesBounded (err e) = Unit

  push_byte-LeavesBounded : (s : SseParser) (x : ℕ) → LeavesBounded (no_events (push_byte s x))
  unfolding push_byte
  push_byte-LeavesBounded s x =
      elim (Bool-cases (ltb max_frame_bytes (length (s.line ++ x ∷ []) + length s.payload))) [
        | inl over ↦ rw over tt
        | inr fits ↦ rw fits (ground (arith, fits))
      ]

  feed_byte-LeavesBounded :
      (s : SseParser) (x : ℕ) → IsBounded s → LeavesBounded (feed_byte json s x)
  unfolding feed_byte
  feed_byte-LeavesBounded s x b = elim (Bool-cases (x == 10)) [
    | inl ends ↦ rw ends (handle_line-IsBounded s b)
    | inr more ↦ rw more (push_byte-LeavesBounded s x)
  ]

  feed-LeavesBounded : (xs : List ℕ) (s : SseParser) → IsBounded s → LeavesBounded (feed json s xs)
  unfolding feed
  feed-LeavesBounded [] s b = b
  feed-LeavesBounded (x ∷ xs) s b =
      rw (feed_cons json s x xs)
        (at (feed_byte json s x) (feed_byte-LeavesBounded s x b) (feed-LeavesBounded xs))
    where
      after :
          (ev : List LogEvent) (r : Result ParseFailure (List LogEvent × SseParser))
          → LeavesBounded r
          → LeavesBounded (after_events json ev r)
      after ev (ok r) b = b
      after ev (err e) b = tt

      at :
          (r : Result ParseFailure (List LogEvent × SseParser))
          → LeavesBounded r
          → ((t : SseParser) → IsBounded t → LeavesBounded (feed json t xs))
          → LeavesBounded (r >>= (λ now. after_events json now.0 (feed json now.1 xs)))
      at (ok now) b rest = after now.0 (feed json now.1 xs) (rest now.1 b)
      at (err e) b rest = tt

  -- Whatever a firewall sends, in whatever chunks, what the parser holds after them, of the line and
  -- of the frame together, is at most 256 KiB.
  feed_chunks-bounded :
      (chunks : List (List ℕ)) (events : List LogEvent) (s : SseParser)
      → feed_chunks json new_parser chunks ≡ ok (events, s)
      → length s.line + length s.payload ≤ max_frame_bytes
  feed_chunks-bounded chunks events s e =
      subst LeavesBounded (sym (feed_chunks-feed json chunks new_parser) ∙ e)
        (feed-LeavesBounded (concat json chunks) new_parser (omega arith))
