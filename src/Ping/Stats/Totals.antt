-- ===== src/Ping/Stats/Totals.antt =====
-- The statistics after any outcomes, against descriptions of the whole list of them.
use verkkokyyla.Ping.Stats.Answers.{
  answers, extreme_of, welford, feed_all, feed_all-min, feed_all-max, feed_all-welford,
}
use verkkokyyla.Ping.Stats.{
  Floats, ProbeOutcome, rtt, timeout, error, ProbeRecord, StatsEngine, new_stats, next_jitter,
  feed_rtt, feed,
}
use verkkokyyla.Prelude.Machine.{bump_u64, bump_u64_fits, u64_mod}
use verkkokyyla.Prelude.Text.{Text}
use verkkokyyla.Prelude.{
  ℕ, ◌+◌, ◌<◌, ◌≡◌, refl, sym, ap, ◌∙◌, List, [], ◌∷◌, ◌++◌, Option, none, some, arith, length,
}
use mathlib.Core.List.{append_assoc, append-nil}

abbrev pub successes : List ProbeOutcome → List ProbeOutcome
successes [] = []
successes (rtt ns ∷ os) = rtt ns ∷ successes os
successes (timeout ∷ os) = successes os
successes (error message ∷ os) = successes os

abbrev pub losses : List ProbeOutcome → ℕ
losses [] = 0
losses (rtt ns ∷ os) = losses os
losses (timeout ∷ os) = losses os + 1
losses (error message ∷ os) = losses os + 1

pub length-losses : (os : List ProbeOutcome) → length (successes os) + losses os ≡ length os
length-losses [] = omega arith
length-losses (rtt ns ∷ os) = omega (arith, length-losses os)
length-losses (timeout ∷ os) = omega (arith, length-losses os)
length-losses (error message ∷ os) = omega (arith, length-losses os)

-- The records of outcomes that are numbered from the one after this.
abbrev pub records_after : (ℕ → Text) → ℕ → List ProbeOutcome → List ProbeRecord
records_after now n [] = []
records_after now n (o ∷ os) =
    record { seq = n + 1; outcome = o; recorded_at = now (n + 1) } ∷ records_after now (n + 1) os

module _ {F : Type 0} (f : Floats F) (now : ℕ → Text) where
  -- The difference of two outcomes that follow each other: none unless both are answers.
  abbrev pub gap_of : ProbeOutcome → ProbeOutcome → List F
  gap_of (rtt a) (rtt b) = f.abs (f.sub (f.ms_of b) (f.ms_of a)) ∷ []
  gap_of (rtt a) timeout = []
  gap_of (rtt a) (error message) = []
  gap_of timeout o = []
  gap_of (error message) o = []

  abbrev pub gaps : List ProbeOutcome → List F
  gaps [] = []
  gaps (o ∷ []) = []
  gaps (o ∷ p ∷ os) = gap_of o p ++ gaps (p ∷ os)

  -- RFC 3550: J + (|D| - J) / 16, from 0 on.
  abbrev pub smoothed : Option F → F → F
  smoothed none d = f.add f.zero_f (f.div (f.sub d f.zero_f) f.sixteen)
  smoothed (some j) d = f.add j (f.div (f.sub d j) f.sixteen)

  -- The estimator over a list of differences.
  abbrev pub jitter_of : Option F → List F → Option F
  jitter_of j [] = j
  jitter_of j (d ∷ ds) = jitter_of (some (smoothed j d)) ds

  next_jitter-smoothed : (j : Option F) (d : F) → next_jitter f j d ≡ smoothed j d
  next_jitter-smoothed none d = refl
  next_jitter-smoothed (some j) d = refl

  -- What the answers among the outcomes leave.
  pub record Summary (os : List ProbeOutcome) (r : StatsEngine F) : Type 0 where
    pub min_eq : r.min_ms ≡ extreme_of f f.min_f (answers f os)
    pub max_eq : r.max_ms ≡ extreme_of f f.max_f (answers f os)
    pub moments_eq : (r.mean_ms, r.m2_ms) ≡ welford f 0 f.zero_f f.zero_f (answers f os)
    pub jitter_eq : r.jitter_ms ≡ jitter_of none (gaps os)

  -- The counters and the history, from an engine on.
  pub record Counted (e : StatsEngine F) (os : List ProbeOutcome) (r : StatsEngine F) : Type 0 where
    pub count_eq : r.count ≡ e.count + length os
    pub loss_eq : r.loss_count ≡ e.loss_count + losses os
    pub rtt_eq : r.rtt_count ≡ e.rtt_count + length (successes os)
    pub history_eq : r.history ≡ e.history ++ records_after now e.count os

  losses-cons :
      (o : ProbeOutcome) (os : List ProbeOutcome) → losses (o ∷ os) ≡ losses (o ∷ []) + losses os
  losses-cons (rtt ns) os = omega arith
  losses-cons timeout os = omega arith
  losses-cons (error message) os = omega arith

  length-successes_cons :
      (o : ProbeOutcome) (os : List ProbeOutcome)
      → length (successes (o ∷ os)) ≡ length (successes (o ∷ [])) + length (successes os)
  length-successes_cons (rtt ns) os = omega arith
  length-successes_cons timeout os = omega arith
  length-successes_cons (error message) os = omega arith

  feed-Counted :
      (e : StatsEngine F) (o : ProbeOutcome)
      → e.rtt_count + e.loss_count ≡ e.count
      → e.count + 1 < u64_mod
      → Counted e (o ∷ []) (feed f now e o)
  unfolding feed feed_rtt
  feed-Counted e o sum room = at o
    where
      seq : bump_u64 e.count ≡ e.count + 1
      seq = bump_u64_fits e.count room

      answers : bump_u64 e.rtt_count ≡ e.rtt_count + 1
      answers = bump_u64_fits e.rtt_count (omega (arith, sum, room))

      lost : bump_u64 e.loss_count ≡ e.loss_count + 1
      lost = bump_u64_fits e.loss_count (omega (arith, sum, room))

      at : (o : ProbeOutcome) → Counted e (o ∷ []) (feed f now e o)
      at (rtt ns) = record {
        count_eq = seq;
        loss_eq = omega arith;
        rtt_eq = answers;
        history_eq = rw seq refl;
      }
      at timeout = record {
        count_eq = seq;
        loss_eq = lost;
        rtt_eq = omega arith;
        history_eq = rw seq refl;
      }
      at (error message) = record {
        count_eq = seq;
        loss_eq = lost;
        rtt_eq = omega arith;
        history_eq = rw seq refl;
      }

  Counted-trans :
      (e m r : StatsEngine F) (o : ProbeOutcome) (os : List ProbeOutcome)
      → Counted e (o ∷ []) m
      → Counted m os r
      → Counted e (o ∷ os) r
  Counted-trans e m r o os a b = record {
    count_eq = omega (arith, a.count_eq, b.count_eq);
    loss_eq = omega (arith, a.loss_eq, b.loss_eq, losses-cons o os);
    rtt_eq = omega (arith, a.rtt_eq, b.rtt_eq, length-successes_cons o os);
    history_eq =
        b.history_eq
        ∙ ap (λ h. h ++ records_after now m.count os) a.history_eq
        ∙ ap (λ n. (e.history ++ records_after now e.count (o ∷ [])) ++ records_after now n os)
            a.count_eq
        ∙ append_assoc e.history _ _;
  }

  one_outcome : (o : ProbeOutcome) → length (successes (o ∷ [])) + losses (o ∷ []) ≡ 1
  one_outcome o = length-losses (o ∷ [])

  feed_all-Counted :
      (e : StatsEngine F) (os : List ProbeOutcome)
      → e.rtt_count + e.loss_count ≡ e.count
      → e.count + length os < u64_mod
      → Counted e os (feed_all f now e os)
  feed_all-Counted e [] sum room = record {
    count_eq = omega arith;
    loss_eq = omega arith;
    rtt_eq = omega arith;
    history_eq = sym (append-nil _);
  }
  feed_all-Counted e (o ∷ os) sum room =
      let m = feed f now e o in
      let a = feed-Counted e o sum (omega (arith, room)) in
      Counted-trans e m (feed_all f now m os) o os a (
        feed_all-Counted m os (omega (arith, a.count_eq, a.loss_eq, a.rtt_eq, one_outcome o, sum))
          (omega (arith, a.count_eq, room)))

  -- The last answer, when the outcome is one.
  abbrev answer_of : ProbeOutcome → Option F
  answer_of (rtt ns) = some (f.ms_of ns)
  answer_of timeout = none
  answer_of (error message) = none

  feed-jitter :
      (e : StatsEngine F) (o p : ProbeOutcome)
      → e.last_rtt_ms ≡ answer_of o
      → (feed f now e p).jitter_ms ≡ jitter_of e.jitter_ms (gap_of o p)
  unfolding feed feed_rtt
  feed-jitter e (rtt a) (rtt b) h = rw h (ap (λ j. some j) (next_jitter-smoothed e.jitter_ms _))
  feed-jitter e (rtt a) timeout h = refl
  feed-jitter e (rtt a) (error message) h = refl
  feed-jitter e timeout (rtt b) h = rw h refl
  feed-jitter e timeout timeout h = refl
  feed-jitter e timeout (error message) h = refl
  feed-jitter e (error m) (rtt b) h = rw h refl
  feed-jitter e (error m) timeout h = refl
  feed-jitter e (error m) (error message) h = refl

  feed-last : (e : StatsEngine F) (o : ProbeOutcome) → (feed f now e o).last_rtt_ms ≡ answer_of o
  unfolding feed feed_rtt
  feed-last e (rtt ns) = refl
  feed-last e timeout = refl
  feed-last e (error message) = refl

  jitter_of-append :
      (j : Option F) (ds es : List F) → jitter_of j (ds ++ es) ≡ jitter_of (jitter_of j ds) es
  jitter_of-append j [] es = refl
  jitter_of-append j (d ∷ ds) es = jitter_of-append (some (smoothed j d)) ds es

  feed_all-jitter :
      (e : StatsEngine F) (o : ProbeOutcome) (os : List ProbeOutcome)
      → e.last_rtt_ms ≡ answer_of o
      → (feed_all f now e os).jitter_ms ≡ jitter_of e.jitter_ms (gaps (o ∷ os))
  feed_all-jitter e o [] h = refl
  feed_all-jitter e o (p ∷ os) h =
      feed_all-jitter (feed f now e p) p os (feed-last e p)
      ∙ ap (λ j. jitter_of j (gaps (p ∷ os))) (feed-jitter e o p h)
      ∙ sym (jitter_of-append e.jitter_ms (gap_of o p) (gaps (p ∷ os)))

  first_jitter :
      (os : List ProbeOutcome)
      → (feed_all f now (new_stats f) os).jitter_ms ≡ jitter_of none (gaps os)
  first_jitter [] = refl
  first_jitter (o ∷ os) =
      feed_all-jitter (feed f now (new_stats f) o) o os (feed-last (new_stats f) o)
      ∙ ap (λ j. jitter_of j (gaps (o ∷ os))) (feed-jitter (new_stats f) timeout o refl)

  -- After fewer than 2^64 outcomes: the counts are the numbers of outcomes, of losses and of answers;
  -- the history is the outcomes, numbered from 1; the least and the greatest time are those of the
  -- whole list of answers, and there is none without an answer; the mean and the sum of squares follow
  -- Welford's recurrences over the answers; the jitter is the RFC 3550 estimator over the differences
  -- of the answers that follow each other with no loss in between.
  pub feed_all_totals :
      (os : List ProbeOutcome)
      → length os < u64_mod
      → Counted (new_stats f) os (feed_all f now (new_stats f) os)
        × Summary os (feed_all f now (new_stats f) os)
  feed_all_totals os room = (
    feed_all-Counted (new_stats f) os (omega arith) (omega (arith, room)),
    record {
      min_eq = feed_all-min f now (new_stats f) os;
      max_eq = feed_all-max f now (new_stats f) os;
      moments_eq = feed_all-welford f now (new_stats f) os (omega (arith, room));
      jitter_eq = first_jitter os;
    },
  )
