-- ===== src/Ping/Consumer/Outcomes.antt =====
-- The statistics that the consumer leaves.
use verkkokyyla.Ping.Consumer.{
  ProbeRow, Input, received, ticked, Consumer, outcome_of, map_probe, flush_batch_size, take,
  take_all, consume_probes,
}
use verkkokyyla.Ping.Consumer.Batches.{probes_of}
use verkkokyyla.Ping.Loop.{LoopProbe}
use verkkokyyla.Ping.Stats.Answers.{feed_all}
use verkkokyyla.Ping.Stats.{Floats, ProbeOutcome, StatsEngine}
use verkkokyyla.Prelude.Text.{Text}
use verkkokyyla.Prelude.{
  ℕ, ◌≡◌, refl, ap, ◌∙◌, Bool, List, [], ◌∷◌, length, leb, Bool-cases, inl, inr, ◌++◌,
}

abbrev pub outcomes_of : List LoopProbe → List ProbeOutcome
outcomes_of [] = []
outcomes_of (p ∷ ps) = outcome_of p.result ∷ outcomes_of ps

module _ {F : Type 0} (f : Floats F) (stamp now : ℕ → Text)
    (insert_ok : List (ProbeRow F) → Bool) where
  take-stats :
      (c : Consumer F) (i : Input)
      → (take f stamp now insert_ok c i).0.stats
        ≡ feed_all f stamp c.stats (outcomes_of (probes_of (i ∷ [])))
  unfolding take map_probe
  take-stats c ticked = refl
  take-stats c (received p) =
      elim (Bool-cases (
        leb flush_batch_size (length (c.batch ++ (map_probe f stamp now p.seq p.result).1 ∷ [])))) [
          | inl full ↦ rw full refl
          | inr free ↦ rw free refl
        ]

  take_all-stats :
      (c : Consumer F) (is : List Input)
      → (take_all f stamp now insert_ok c is).0.stats
        ≡ feed_all f stamp c.stats (outcomes_of (probes_of is))
  unfolding take_all
  take_all-stats c [] = refl
  take_all-stats c (received p ∷ is) =
      take_all-stats (take f stamp now insert_ok c (received p)).0 is
      ∙ ap (λ e. feed_all f stamp e (outcomes_of (probes_of is))) (take-stats c (received p))
  take_all-stats c (ticked ∷ is) =
      take_all-stats (take f stamp now insert_ok c ticked).0 is
      ∙ ap (λ e. feed_all f stamp e (outcomes_of (probes_of is))) (take-stats c ticked)

  pub consume_probes-stats :
      (stats : StatsEngine F) (is : List Input)
      → (consume_probes f stamp now insert_ok stats is).0
        ≡ feed_all f stamp stats (outcomes_of (probes_of is))
  unfolding consume_probes
  consume_probes-stats stats is = take_all-stats (record { batch = []; stats = stats }) is
