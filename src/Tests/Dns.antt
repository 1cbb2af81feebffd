-- ===== src/Tests/Dns.antt =====
-- Benchmarks of five queries, with a ring for three samples.
use verkkokyyla.Dns.Error.{timeout}
use verkkokyyla.Dns.Scheduler.Limits.{EndsWithin, run-EndsWithin}
use verkkokyyla.Dns.Scheduler.Runs.{final_cell, run-latest}
use verkkokyyla.Dns.Scheduler.{
  SchedulerConfig, SampleCell, Completion, World, answered, failed, default_sample_cap, effective,
  run, run_loop, start_queries, fill, join_one, push_sample,
}
use verkkokyyla.Prelude.Machine.{clamp}
use verkkokyyla.Prelude.Text.{codes}
use verkkokyyla.Prelude.{
  ℕ, ◌≤◌, ◌<◌, ◌≡◌, refl, false, List, some, none, arith, ◌==◌, if◌then◌else◌, length,
}

abbrev config : SchedulerConfig
config = record { endpoint_name = codes "quad9"; concurrency = 2; sample_cap = 3 }

abbrev done : ℕ → Completion ℕ
done k = if k == 3 then failed k timeout else answered k

abbrev world : World ℕ
world = record {
  no_latency = 0;
  is_cancelled = λ _ _. false;
  join_next = λ k. some (done k);
  snapshot_due = λ k. k == 1;
}

-- A task panics after two that came back.
abbrev broken : World ℕ
broken = record world { join_next = λ k. if k == 2 then none else some (done k) }

abbrev kept_of : SchedulerConfig → World ℕ → ℕ
kept_of c w = at (run 6 w c 5)
  where
    at : verkkokyyla.Dns.Scheduler.CellRun ℕ → ℕ
    at none = 99
    at (some out) = length out.1.samples

kept : (kept_of config world ≡ 3) × (kept_of config broken ≡ 2)
unfolding run run_loop start_queries fill join_one push_sample effective clamp
kept = (refl, refl)

run-latest_example :
    (cells : List (SampleCell ℕ)) × (run 6 world config 5
      ≡ some (cells, final_cell (effective config) world done 5))
run-latest_example = run-latest config world done 5 (λ _ _. refl) (λ _. refl) (omega arith)

run-EndsWithin_example :
    EndsWithin (effective config).sample_cap (run 6 broken config 5)
    × (0 < (effective config).sample_cap)
    × ((effective config).sample_cap ≤ default_sample_cap)
run-EndsWithin_example = run-EndsWithin config broken 5
