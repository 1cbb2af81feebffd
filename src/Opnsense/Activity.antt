-- ===== src/Opnsense/Activity.antt =====
-- opnsense/manager.rs: the registry of live monitors, log streams and terminals. Each kind has a map
-- from profiles to counts; the counts are usize values, of which no run reaches the end.
pub mod Counts
pub mod History
use verkkokyyla.Prelude.Assoc.{get, contains_key, insert, remove}
use verkkokyyla.Prelude.{ℕ, ◌+◌, ◌-◌, Bool, ◌||◌, List, [], Option, none, some, ◌==◌, if◌then◌else◌}
use mathlib.Core.Option

abbrev pub Sessions : Type 0
Sessions = List (ℕ × ℕ)

pub record OpnsenseActivity : Type 0 where
  pub monitors : Sessions
  pub logs : Sessions
  pub terminals : Sessions

-- `OpnsenseActivity::default`.
abbrev pub no_activity : OpnsenseActivity
no_activity = record { monitors = []; logs = []; terminals = [] }

unfoldable pub is_active : OpnsenseActivity → ℕ → Bool
is_active a profile_id =
    contains_key profile_id a.monitors
    || contains_key profile_id a.logs
    || contains_key profile_id a.terminals

unfoldable pub enter : Sessions → ℕ → Sessions
enter sessions profile_id =
    insert profile_id (Option.get_or (get profile_id sessions) 0 + 1) sessions

exit_at : Sessions → ℕ → Option ℕ → Sessions
exit_at sessions profile_id (some count) =
    if (count - 1) == 0 then remove profile_id sessions else insert profile_id (count - 1) sessions
exit_at sessions profile_id none = sessions

-- A count in the map is at least 1, so `*count -= 1` does not go below 0.
unfoldable pub exit : Sessions → ℕ → Sessions
unfolding exit_at
exit sessions profile_id = exit_at sessions profile_id (get profile_id sessions)

unfoldable pub monitor_enter : OpnsenseActivity → ℕ → OpnsenseActivity
monitor_enter a profile_id = record a { monitors = enter a.monitors profile_id }

unfoldable pub monitor_exit : OpnsenseActivity → ℕ → OpnsenseActivity
monitor_exit a profile_id = record a { monitors = exit a.monitors profile_id }

unfoldable pub log_enter : OpnsenseActivity → ℕ → OpnsenseActivity
log_enter a profile_id = record a { logs = enter a.logs profile_id }

unfoldable pub log_exit : OpnsenseActivity → ℕ → OpnsenseActivity
log_exit a profile_id = record a { logs = exit a.logs profile_id }

unfoldable pub terminal_enter : OpnsenseActivity → ℕ → OpnsenseActivity
terminal_enter a profile_id = record a { terminals = enter a.terminals profile_id }

unfoldable pub terminal_exit : OpnsenseActivity → ℕ → OpnsenseActivity
terminal_exit a profile_id = record a { terminals = exit a.terminals profile_id }
