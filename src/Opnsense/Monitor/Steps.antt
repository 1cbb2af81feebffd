-- ===== src/Opnsense/Monitor/Steps.antt =====
-- The steps of the calls and tasks that share the slots of monitors and the activity registry.
use verkkokyyla.Opnsense.Activity.{OpnsenseActivity, no_activity, monitor_exit}
use verkkokyyla.Opnsense.Monitor.{Monitors, claim_monitor, take_monitor, exit_task}
use verkkokyyla.Prelude.Assoc.{get, contains_key, insert, remove}
use verkkokyyla.Prelude.Results.{ok}
use verkkokyyla.Prelude.{ℕ, ◌+◌, ◌-◌, ◌≤◌, ◌≡◌, false, List, [], some, ◌==◌, if◌then◌else◌}

-- The profiles of the tasks that live: of those that nobody told to stop, and of those that were;
-- and, for each profile, how many removals of a slot have their mark still to take back.
pub record World : Type 0 where
  pub inner : Monitors
  pub activity : OpnsenseActivity
  pub running : List (ℕ × ℕ)
  pub told : List (ℕ × ℕ)
  pub leaving : ℕ → ℕ

abbrev pub nobody : World
nobody = record { inner = []; activity = no_activity; running = []; told = []; leaving = λ p. 0 }

abbrev pub one_more : ℕ → (ℕ → ℕ) → ℕ → ℕ
one_more profile_id leaving p = if profile_id == p then leaving p + 1 else leaving p

-- A start makes a task that is none of the living ones; a stop takes the slot of its profile; a task
-- that was told to stop ends, or one that was not does; a mark is taken back.
pub data Step : World → World → Type 0 where
  claims :
      {w : World}
      → (profile_id task : ℕ) (after : Monitors × OpnsenseActivity)
      → claim_monitor w.inner w.activity profile_id task ≡ ok after
      → contains_key task w.running ≡ false
      → contains_key task w.told ≡ false
      → Step w (record w {
        inner = after.0;
        activity = after.1;
        running = insert task profile_id w.running;
      })
  stops :
      {w : World}
      → (profile_id : ℕ) (taken : ℕ × Monitors) → take_monitor w.inner profile_id ≡ ok taken
      → Step w (record w {
        inner = taken.1;
        running = remove taken.0 w.running;
        told = insert taken.0 profile_id w.told;
        leaving = one_more profile_id w.leaving;
      })
  ends_told :
      {w : World}
      → (profile_id task : ℕ) → get task w.told ≡ some profile_id
      → Step w (record w {
        inner = (exit_task w.inner profile_id task).1;
        told = remove task w.told;
        leaving =
            if (exit_task w.inner profile_id task).0
            then one_more profile_id w.leaving
            else w.leaving;
      })
  ends_running :
      {w : World}
      → (profile_id task : ℕ) → get task w.running ≡ some profile_id
      → Step w (record w {
        inner = (exit_task w.inner profile_id task).1;
        running = remove task w.running;
        leaving =
            if (exit_task w.inner profile_id task).0
            then one_more profile_id w.leaving
            else w.leaving;
      })
  unmarks :
      {w : World}
      → (profile_id : ℕ) → 1 ≤ w.leaving profile_id
      → Step w (record w {
        activity = monitor_exit w.activity profile_id;
        leaving = λ p. if profile_id == p then w.leaving p - 1 else w.leaving p;
      })

pub data Steps : World → World → Type 0 where
  done : {w : World} → Steps w w
  then_step : {u v w : World} → Steps u v → Step v w → Steps u w
