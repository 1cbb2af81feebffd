-- ===== src/Tests/Monitor.antt =====
-- A monitor is stopped and started again before its first task has ended.
use verkkokyyla.Opnsense.Activity.Counts.{count}
use verkkokyyla.Opnsense.Activity.{monitor_enter, enter}
use verkkokyyla.Opnsense.Monitor.Owners.{owners}
use verkkokyyla.Opnsense.Monitor.Invariant.{has_slot}
use verkkokyyla.Opnsense.Monitor.Steps.{
  World, nobody, Steps, claims, stops, ends_told, done, then_step,
}
use verkkokyyla.Opnsense.Monitor.{
  max_monitors, monitor_guard, claim_monitor, take_monitor, is_task, exit_task,
}
use verkkokyyla.Prelude.Assoc.{get}
use verkkokyyla.Prelude.{◌+◌, ◌≤◌, ◌≡◌, refl, [], ◌∷◌, length, ◌==◌, if◌then◌else◌}

abbrev restarted : World
restarted = record {
  inner = (3, 21) ∷ [];
  activity = record { monitors = (3, 2) ∷ []; logs = []; terminals = [] };
  running = (21, 3) ∷ [];
  told = [];
  leaving = λ p. if 3 == p then 1 else 0;
}

restarts : Steps nobody restarted
unfolding monitor_guard claim_monitor take_monitor exit_task monitor_enter enter
restarts =
    then_step
      (then_step (then_step (then_step done (claims 3 20 _ refl refl refl)) (stops 3 _ refl))
        (claims 3 21 _ refl refl refl))
      (ends_told 3 20 refl)

owners_example :
    (length restarted.inner ≤ max_monitors)
    × (is_task (get 3 restarted.inner) 21 ≡ is_task (get 21 restarted.running) 3)
    × (count 3 restarted.activity.monitors ≡ has_slot 3 restarted.inner + restarted.leaving 3)
owners_example = owners 3 21 restarts
