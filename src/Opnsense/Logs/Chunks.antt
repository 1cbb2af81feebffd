-- ===== src/Opnsense/Logs/Chunks.antt =====
-- The events of a stream do not depend on where its chunks end.
use mathlib.Core.List.{append_assoc}
use verkkokyyla.Opnsense.Logs.{Json, LogEvent, ParseFailure, SseParser, feed_byte, feed}
use verkkokyyla.Prelude.Results.{Result, ok, err, ◌>>=◌}
use verkkokyyla.Prelude.{◌≡◌, refl, ap, sym, ℕ, List, [], ◌∷◌, ◌++◌}

module _ (json : Json) where
  abbrev pub followed_by :
      List LogEvent × SseParser → List ℕ → Result ParseFailure (List LogEvent × SseParser)
  followed_by now bytes = do rest ← feed json now.1 bytes; ok (now.0 ++ rest.0, rest.1)

  -- One chunk after another.
  abbrev pub feed_chunks :
      SseParser → List (List ℕ) → Result ParseFailure (List LogEvent × SseParser)
  feed_chunks s [] = ok ([], s)
  feed_chunks s (chunk ∷ chunks) = do
    now ← feed json s chunk
    rest ← feed_chunks now.1 chunks
    ok (now.0 ++ rest.0, rest.1)

  abbrev pub concat : List (List ℕ) → List ℕ
  concat [] = []
  concat (chunk ∷ chunks) = chunk ++ concat chunks

  abbrev pub Read : Type 0
  Read = Result ParseFailure (List LogEvent × SseParser)

  -- What came first, in front of what came later.
  abbrev pub after_events : List LogEvent → Read → Read
  after_events ev (ok rest) = ok (ev ++ rest.0, rest.1)
  after_events ev (err e) = err e

  followed_by-eq :
      (now : List LogEvent × SseParser) (ys : List ℕ)
      → followed_by now ys ≡ after_events now.0 (feed json now.1 ys)
  followed_by-eq now ys = at (feed json now.1 ys)
    where
      at : (r : Read) → (r >>= (λ rest. ok (now.0 ++ rest.0, rest.1))) ≡ after_events now.0 r
      at (ok rest) = refl
      at (err e) = refl

  after_events-append :
      (ev fv : List LogEvent) (r : Read)
      → after_events ev (after_events fv r) ≡ after_events (ev ++ fv) r
  after_events-append ev fv (ok rest) = ap (λ es. ok (es, rest.1)) (sym (append_assoc ev fv rest.0))
  after_events-append ev fv (err e) = refl

  pub after_events-nil : (r : Read) → r ≡ after_events [] r
  after_events-nil (ok rest) = refl
  after_events-nil (err e) = refl

  pub feed_cons :
      (s : SseParser) (x : ℕ) (xs : List ℕ)
      → feed json s (x ∷ xs)
        ≡ (feed_byte json s x >>= (λ now. after_events now.0 (feed json now.1 xs)))
  unfolding feed
  feed_cons s x xs = at (feed_byte json s x)
    where
      at :
          (r : Read)
          → (r >>= (λ now. followed_by now xs))
            ≡ (r >>= (λ now. after_events now.0 (feed json now.1 xs)))
      at (ok now) = followed_by-eq now xs
      at (err e) = refl

  abbrev pub Splits : SseParser → List ℕ → List ℕ → Type 0
  Splits s xs ys =
      feed json s (xs ++ ys) ≡ (feed json s xs >>= (λ now. after_events now.0 (feed json now.1 ys)))

  feed_cons-Splits :
      (x : ℕ) (xs ys : List ℕ)
      → ((s : SseParser) → Splits s xs ys)
      → (s : SseParser) → Splits s (x ∷ xs) ys
  feed_cons-Splits x xs ys splits s =
      rw (feed_cons s x (xs ++ ys), feed_cons s x xs) (at (feed_byte json s x))
    where
      later :
          (ev : List LogEvent) (r : Read)
          → after_events ev (r >>= (λ now. after_events now.0 (feed json now.1 ys)))
            ≡ (after_events ev r >>= (λ now. after_events now.0 (feed json now.1 ys)))
      later ev (ok now) = after_events-append ev now.0 (feed json now.1 ys)
      later ev (err e) = refl

      at :
          (r : Read)
          → (r >>= (λ now. after_events now.0 (feed json now.1 (xs ++ ys)))) ≡ (
              (r >>= (λ now. after_events now.0 (feed json now.1 xs)))
              >>= (λ now. after_events now.0 (feed json now.1 ys)))
      at (ok now) = rw (splits now.1) (later now.0 (feed json now.1 xs))
      at (err e) = refl

  pub feed-Splits : (xs ys : List ℕ) (s : SseParser) → Splits s xs ys
  unfolding feed
  feed-Splits [] ys s = after_events-nil (feed json s ys)
  feed-Splits (x ∷ xs) ys s = feed_cons-Splits x xs ys (feed-Splits xs ys) s

  -- Wherever the chunks of a stream end, also inside a frame, a line or a character, the parser
  -- finds the same events in the same order, is left in the same state, and refuses the same
  -- streams.
  pub feed_chunks-feed :
      (chunks : List (List ℕ)) (s : SseParser) → feed_chunks s chunks ≡ feed json s (concat chunks)
  unfolding feed
  feed_chunks-feed [] s = refl
  feed_chunks-feed (chunk ∷ chunks) s =
      rw (feed-Splits chunk (concat chunks) s) (at (feed json s chunk) (feed_chunks-feed chunks))
    where
      at :
          (r : Read)
          → ((t : SseParser) → feed_chunks t chunks ≡ feed json t (concat chunks))
          → (r >>= (λ now. feed_chunks now.1 chunks >>= (λ rest. ok (now.0 ++ rest.0, rest.1))))
            ≡ (r >>= (λ now. after_events now.0 (feed json now.1 (concat chunks))))
      at (ok now) same = rw (same now.1) (followed_by-eq now (concat chunks))
      at (err e) same = refl
