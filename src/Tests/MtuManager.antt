-- ===== src/Tests/MtuManager.antt =====
-- MTU runs that start, are told to stop and end.
use verkkokyyla.Mtu.Manager.Slot.{
  Reached, OthersStop, at_first, after, starts, stops, has_task, running, step, Reached-one_running,
}
use verkkokyyla.Mtu.Manager.{MtuManager, Task, Answers, start, stop, config_for, parse_method}
use verkkokyyla.Mtu.Runtime.{Env}
use verkkokyyla.Mtu.Types.{timeout}
use verkkokyyla.Prelude.Results.{ok}
use verkkokyyla.Prelude.Text.{codes}
use verkkokyyla.Prelude.{ℕ, ◌≤◌, ◌≡◌, refl, true, false, [], ◌∷◌, none, some, arith}

abbrev answers : Answers
answers = record { resolved = true; engine_built = true; created = some 7 }

abbrev idle : MtuManager
idle = record { active = none; tasks = [] }

abbrev task : Task
task = record { run_id = 7; config = config_for 9000; stopping = false }

abbrev busy : MtuManager
busy = record { active = some 7; tasks = task ∷ [] }

started : start idle (codes "icmp") 9000 answers ≡ ok (task, busy)
unfolding start parse_method
started = refl

-- An engine that never hears an answer.
abbrev silent : Env ℕ
silent = record {
  engine = λ seq size. timeout;
  stop = λ seq. false;
  now = λ seq. codes "now";
  as_ms = λ rtt. rtt;
  finish_stored = true;
}

-- A run is told to stop, and another one starts before it ends.
abbrev again : Answers
again = record answers { created = some 8 }

abbrev overlapping : MtuManager
overlapping =
    step (step (step idle (starts (codes "icmp") 9000 answers)) stops)
      (starts (codes "tcp") 1500 again)

overlap :
    (overlapping.active ≡ some 8)
    × (running overlapping.tasks ≡ 1)
    × (has_task 7 overlapping.tasks ≡ true)
unfolding step start parse_method stop
overlap = (refl, refl, refl)

overlapping-Reached : Reached overlapping
unfolding step start parse_method stop
overlapping-Reached =
    after (after (after at_first (starts (codes "icmp") 9000 answers) (λ id e. refl)) stops tt)
      (starts (codes "tcp") 1500 again) (λ id e. ground (arith, e))

Reached-one_running_example :
    (running overlapping.tasks ≤ 1) × OthersStop overlapping.active overlapping.tasks
Reached-one_running_example = Reached-one_running overlapping-Reached
