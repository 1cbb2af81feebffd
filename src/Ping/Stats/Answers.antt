-- ===== src/Ping/Stats/Answers.antt =====
-- The extremes and the moments after any outcomes, as folds over the answers among them.
use verkkokyyla.Ping.Stats.{
  Floats, ProbeOutcome, rtt, timeout, error, StatsEngine, new_stats, feed_rtt, feed,
}
use verkkokyyla.Prelude.Machine.{bump_u64_fits, u64_mod}
use verkkokyyla.Prelude.Text.{Text}
use verkkokyyla.Prelude.{
  ℕ, ◌+◌, ◌<◌, ◌≡◌, refl, ◌∙◌, List, [], ◌∷◌, Option, none, some, arith, length,
}

module _ {F : Type 0} (f : Floats F) where
  -- The times of the answers, in milliseconds.
  abbrev pub answers : List ProbeOutcome → List F
  answers [] = []
  answers (rtt ns ∷ os) = f.ms_of ns ∷ answers os
  answers (timeout ∷ os) = answers os
  answers (error message ∷ os) = answers os

  abbrev pub foldl : (F → F → F) → F → List F → F
  foldl pick m [] = m
  foldl pick m (x ∷ xs) = foldl pick (pick m x) xs

  -- The extreme value of a list by this choice between two; an empty list has none.
  abbrev pub extreme_of : (F → F → F) → List F → Option F
  extreme_of pick [] = none
  extreme_of pick (m ∷ ms) = some (foldl pick m ms)

  -- Welford's recurrences for the mean and the sum of squares, after n values.
  abbrev pub welford : ℕ → F → F → List F → F × F
  welford n mean m2 [] = (mean, m2)
  welford n mean m2 (x ∷ xs) =
      let next = f.add mean (f.div (f.sub x mean) (f.of_nat (n + 1))) in
      welford (n + 1) next (f.add m2 (f.mul (f.sub x mean) (f.sub x next))) xs

module _ {F : Type 0} (f : Floats F) (now : ℕ → Text) where
  abbrev pub feed_all : StatsEngine F → List ProbeOutcome → StatsEngine F
  feed_all e [] = e
  feed_all e (o ∷ os) = feed_all (feed f now e o) os

  -- The extremes from an engine on that has had an answer, or has had none.
  abbrev extreme_from : (F → F → F) → Option F → List F → Option F
  extreme_from pick none ms = extreme_of f pick ms
  extreme_from pick (some m) ms = some (foldl f pick m ms)

  extreme_from-nil : (pick : F → F → F) (o : Option F) → o ≡ extreme_from pick o []
  extreme_from-nil pick none = refl
  extreme_from-nil pick (some m) = refl

  answer-min :
      (e : StatsEngine F) (ns : ℕ) (ms : List F)
      → extreme_from f.min_f (feed f now e (rtt ns)).min_ms ms
        ≡ extreme_from f.min_f e.min_ms (f.ms_of ns ∷ ms)
  unfolding feed feed_rtt
  answer-min e ns ms = at e.min_ms
    where
      at :
          (o : Option F)
          → extreme_from f.min_f (verkkokyyla.Ping.Stats.extreme f f.min_f o (f.ms_of ns)) ms
            ≡ extreme_from f.min_f o (f.ms_of ns ∷ ms)
      at none = refl
      at (some m) = refl

  answer-max :
      (e : StatsEngine F) (ns : ℕ) (ms : List F)
      → extreme_from f.max_f (feed f now e (rtt ns)).max_ms ms
        ≡ extreme_from f.max_f e.max_ms (f.ms_of ns ∷ ms)
  unfolding feed feed_rtt
  answer-max e ns ms = at e.max_ms
    where
      at :
          (o : Option F)
          → extreme_from f.max_f (verkkokyyla.Ping.Stats.extreme f f.max_f o (f.ms_of ns)) ms
            ≡ extreme_from f.max_f o (f.ms_of ns ∷ ms)
      at none = refl
      at (some m) = refl

  pub feed_all-min :
      (e : StatsEngine F) (os : List ProbeOutcome)
      → (feed_all e os).min_ms ≡ extreme_from f.min_f e.min_ms (answers f os)
  unfolding feed
  feed_all-min e [] = extreme_from-nil f.min_f e.min_ms
  feed_all-min e (rtt ns ∷ os) =
      feed_all-min (feed f now e (rtt ns)) os ∙ answer-min e ns (answers f os)
  feed_all-min e (timeout ∷ os) = feed_all-min (feed f now e timeout) os
  feed_all-min e (error message ∷ os) = feed_all-min (feed f now e (error message)) os

  pub feed_all-max :
      (e : StatsEngine F) (os : List ProbeOutcome)
      → (feed_all e os).max_ms ≡ extreme_from f.max_f e.max_ms (answers f os)
  unfolding feed
  feed_all-max e [] = extreme_from-nil f.max_f e.max_ms
  feed_all-max e (rtt ns ∷ os) =
      feed_all-max (feed f now e (rtt ns)) os ∙ answer-max e ns (answers f os)
  feed_all-max e (timeout ∷ os) = feed_all-max (feed f now e timeout) os
  feed_all-max e (error message ∷ os) = feed_all-max (feed f now e (error message)) os

  answer-welford :
      (e : StatsEngine F) (ns : ℕ) (ms : List F)
      → e.rtt_count + 1 < u64_mod
      → let fed = feed f now e (rtt ns) in
        welford f fed.rtt_count fed.mean_ms fed.m2_ms ms
        ≡ welford f e.rtt_count e.mean_ms e.m2_ms (f.ms_of ns ∷ ms)
  unfolding feed feed_rtt
  answer-welford e ns ms room = rw (bump_u64_fits e.rtt_count room) refl

  answer-count :
      (e : StatsEngine F) (ns : ℕ)
      → e.rtt_count + 1 < u64_mod
      → (feed f now e (rtt ns)).rtt_count ≡ e.rtt_count + 1
  unfolding feed feed_rtt
  answer-count e ns room = bump_u64_fits e.rtt_count room

  pub feed_all-welford :
      (e : StatsEngine F) (os : List ProbeOutcome)
      → e.rtt_count + length os < u64_mod
      → ((feed_all e os).mean_ms, (feed_all e os).m2_ms)
        ≡ welford f e.rtt_count e.mean_ms e.m2_ms (answers f os)
  unfolding feed
  feed_all-welford e [] room = refl
  feed_all-welford e (rtt ns ∷ os) room =
      let one : e.rtt_count + 1 < u64_mod = omega (arith, room) in
      feed_all-welford (feed f now e (rtt ns)) os (omega (arith, room, answer-count e ns one))
      ∙ answer-welford e ns (answers f os) one
  feed_all-welford e (timeout ∷ os) room =
      feed_all-welford (feed f now e timeout) os (omega (arith, room))
  feed_all-welford e (error message ∷ os) room =
      feed_all-welford (feed f now e (error message)) os (omega (arith, room))
