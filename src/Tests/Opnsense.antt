-- ===== src/Tests/Opnsense.antt =====
-- Sessions of a firewall that begin and end.
use verkkokyyla.Opnsense.Activity.History.{
  Event, monitor, terminal, log, enters, exits, live, run, step, run-is_active,
}
use verkkokyyla.Opnsense.Activity.{
  no_activity, is_active, monitor_enter, monitor_exit, terminal_enter, enter, exit,
}
use verkkokyyla.Prelude.{◌≡◌, refl, true, false, List, [], ◌∷◌, ltb, ◌||◌}

abbrev day : List Event
day =
    enters monitor 1 ∷ enters monitor 1 ∷ exits monitor 1 ∷ enters terminal 2 ∷ exits monitor 1 ∷ []

monitor_over : is_active (run no_activity day) 1 ≡ false
unfolding is_active run step monitor_enter monitor_exit terminal_enter enter exit
monitor_over = refl

terminal_open : is_active (run no_activity day) 2 ≡ true
unfolding is_active run step monitor_enter monitor_exit terminal_enter enter exit
terminal_open = refl

run-is_active_example :
    is_active (run no_activity day) 2
    ≡ (ltb 0 (live monitor 2 0 day) || ltb 0 (live log 2 0 day) || ltb 0 (live terminal 2 0 day))
run-is_active_example = run-is_active 2 day
