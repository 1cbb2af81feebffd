-- ===== src/Opnsense/Logs/Reader/Delivery.antt =====
-- What a reader delivers.
use mathlib.Core.List.{append_assoc}
use verkkokyyla.Opnsense.Activity.Counts.{
  count, IsRegistry, enter-IsRegistry, count-enter, count-exit,
}
use verkkokyyla.Opnsense.Activity.{OpnsenseActivity, log_enter, log_exit}
use verkkokyyla.Opnsense.Logs.Chunks.{concat, feed_chunks}
use verkkokyyla.Opnsense.Logs.Frames.{FrameLine, AreFrames, write_frames, all_events}
use verkkokyyla.Opnsense.Logs.Reading.{feed_chunks-frames}
use verkkokyyla.Opnsense.Logs.Reader.{
  Turn, closed, chunk, Output, started, stopped, warning, event, finished, stamp, deliver,
  read_loop, run_reader,
}
use verkkokyyla.Opnsense.Logs.{Json, LogEvent, ParseFailure, SseParser, new_parser, feed}
use verkkokyyla.Prelude.Assoc.{remove}
use verkkokyyla.Prelude.Results.{Result, ok, err, ◌>>=◌}
use verkkokyyla.Prelude.{
  ℕ, ◌+◌, ◌≡◌, refl, ap, sym, Bool, true, List, [], ◌∷◌, ◌++◌, subst, length, arith,
}

module _ (json : Json) (accepts : ℕ → Bool) (p : ℕ) (open_sink : (n : ℕ) → accepts n ≡ true) where
  abbrev pub delivered : List LogEvent → List Output
  delivered [] = []
  delivered (e ∷ es) = event (stamp p e) ∷ delivered es

  delivered-append : (xs ys : List LogEvent) → delivered (xs ++ ys) ≡ delivered xs ++ delivered ys
  delivered-append [] ys = refl
  delivered-append (x ∷ xs) ys = ap (λ r. event (stamp p x) ∷ r) (delivered-append xs ys)

  -- The chunks, and then the end of the response.
  abbrev pub chunk_turns : List (List ℕ) → List Turn
  chunk_turns [] = closed ∷ []
  chunk_turns (c ∷ cs) = chunk c ∷ chunk_turns cs

  deliver-open :
      (es : List LogEvent) (n : ℕ) → deliver accepts p n es ≡ (delivered es, (n + length es, true))
  deliver-open [] n = ap (λ m. ([], (m, true))) (omega arith)
  deliver-open (e ∷ es) n =
      rw (open_sink n, deliver-open es (n + 1))
        (ap (λ m. (event (stamp p e) ∷ delivered es, (m, true))) (omega arith))

  -- What a loop that parses all its chunks gives.
  abbrev LoopGives :
      SseParser → ℕ → List (List ℕ) → Result ParseFailure (List LogEvent × SseParser) → Type 0
  LoopGives s n chunks (ok (events, t)) =
      read_loop json accepts p s n (chunk_turns chunks)
      ≡ (delivered events ++ warning p ∷ [], finished)
  LoopGives s n chunks (err e) = Unit

  read_loop-LoopGives :
      (chunks : List (List ℕ)) (s : SseParser) (n : ℕ)
      → LoopGives s n chunks (feed_chunks json s chunks)
  unfolding read_loop
  read_loop-LoopGives [] s n = refl
  read_loop-LoopGives (c ∷ cs) s n = at (feed json s c) refl (read_loop-LoopGives cs)
    where
      now_and_later :
          (events : List LogEvent) (t : SseParser)
          (r : Result ParseFailure (List LogEvent × SseParser))
          → feed json s c ≡ ok (events, t)
          → ((m : ℕ) → LoopGives t m cs r)
          → LoopGives s n (c ∷ cs) (r >>= (λ rest. ok (events ++ rest.0, rest.1)))
      now_and_later events t (err e) f later = tt
      now_and_later events t (ok rest) f later =
          rw (f, deliver-open events n, later (n + length events), delivered-append events rest.0)
            (ap (λ o. (o, finished))
              (sym (append_assoc (delivered events) (delivered rest.0) (warning p ∷ []))))

      at :
          (r : Result ParseFailure (List LogEvent × SseParser))
          → feed json s c ≡ r
          → ((t : SseParser) (m : ℕ) → LoopGives t m cs (feed_chunks json t cs))
          → LoopGives s n
              (c ∷ cs)
              (r >>= (λ now. feed_chunks json now.1 cs >>= (λ rest. ok (now.0 ++ rest.0, rest.1))))
      at (err e) f later = tt
      at (ok (events, t)) f later = now_and_later events t (feed_chunks json t cs) f (later t)

  -- A firewall sends frames that the format allows, in whatever chunks, and closes the response; the
  -- interface keeps its channel open and does not stop the stream. Then it receives `Started`, every
  -- event of every frame, once, in order and under the profile of the stream, the warning and
  -- `Stopped`; the slot is free, and the registry counts log streams as before the stream.
  pub run_reader-frames :
      (fs : List (List FrameLine)) (chunks : List (List ℕ)) (activity : OpnsenseActivity)
      (slots : List (ℕ × ℕ)) (q : ℕ)
      → AreFrames fs
      → concat json chunks ≡ write_frames fs
      → IsRegistry activity.logs
      → let run = run_reader json accepts p true (chunk_turns chunks) activity slots in
        (run.outputs ≡ started p ∷ delivered (all_events json fs) ++ warning p ∷ stopped p ∷ [])
        × (run.end ≡ finished)
        × (run.slots ≡ remove p slots)
        × (count q run.activity.logs ≡ count q activity.logs)
  unfolding run_reader log_enter log_exit
  run_reader-frames fs chunks activity slots q v e r =
      let gives =
        subst (LoopGives new_parser 0 chunks) (feed_chunks-frames json fs chunks v e)
          (read_loop-LoopGives chunks new_parser 0) in
      rw gives (
        ap (λ o. started p ∷ o)
            (append_assoc (delivered (all_events json fs)) (warning p ∷ []) (stopped p ∷ [])),
        refl,
        refl,
        ground (
          arith,
          count-exit _ p q (enter-IsRegistry activity.logs p r),
          count-enter activity.logs p q,
        ),
      )
