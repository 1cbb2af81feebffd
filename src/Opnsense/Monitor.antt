-- ===== src/Opnsense/Monitor.antt =====
-- opnsense/monitor.rs: one monitor for each profile, at most eight. A task is known by its stop
-- channel, whose address no other task has while it lives: a natural number here. Each function
-- runs under the lifecycle lock.
pub mod Steps
pub mod Invariant
pub mod Owners
use verkkokyyla.Opnsense.Activity.{OpnsenseActivity, monitor_enter, monitor_exit}
use verkkokyyla.Prelude.Assoc.{get, contains_key, insert, remove}
use verkkokyyla.Prelude.Results.{Result, ok, err, ◌>>=◌}
use verkkokyyla.Prelude.{
  ℕ, Bool, true, false, List, Option, none, some, length, leb, ◌==◌, if◌then◌else◌,
}

abbrev pub max_monitors : ℕ
max_monitors = 8

pub data MonitorError : Type 0 where
  already_monitoring : ℕ → MonitorError
  too_many_sessions : MonitorError
  no_active_monitor : MonitorError

-- The slots: the task of each profile.
abbrev pub Monitors : Type 0
Monitors = List (ℕ × ℕ)

-- The tests that a start makes before its connection and again after it.
unfoldable pub monitor_guard : Monitors → ℕ → Result MonitorError (Unit {0})
monitor_guard inner profile_id =
    if contains_key profile_id inner
    then err (already_monitoring profile_id)
    else if leb max_monitors (length inner)
    then err too_many_sessions
    else ok tt

-- The second half of a start.
unfoldable pub claim_monitor :
    Monitors → OpnsenseActivity → ℕ → ℕ → Result MonitorError (Monitors × OpnsenseActivity)
claim_monitor inner activity profile_id task = do
  free ← monitor_guard inner profile_id
  ok (insert profile_id task inner, monitor_enter activity profile_id)

taken : Option ℕ → Monitors → ℕ → Result MonitorError (ℕ × Monitors)
taken (some task) inner profile_id = ok (task, remove profile_id inner)
taken none inner profile_id = err no_active_monitor

-- A stop up to its wait for the task: the task that is told to stop, and the slots. After the wait
-- it takes the mark back.
unfoldable pub take_monitor : Monitors → ℕ → Result MonitorError (ℕ × Monitors)
unfolding taken
take_monitor inner profile_id = taken (get profile_id inner) inner profile_id

abbrev pub is_task : Option ℕ → ℕ → Bool
is_task (some other) task = other == task
is_task none task = false

-- The end of a task: whether the slot is still its own, and the slots. The mark goes if it was.
unfoldable pub exit_task : Monitors → ℕ → ℕ → Bool × Monitors
exit_task inner profile_id task =
    if is_task (get profile_id inner) task then (true, remove profile_id inner) else (false, inner)
