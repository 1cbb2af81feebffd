-- ===== src/Tests/Mikrotik.antt =====
-- Monitoring sessions that start, stop, exit and are deleted.
use verkkokyyla.Mikrotik.Manager.Capacity.{
  Call, claims, exits, run, IsSound, step, run-empty-IsSound,
}
use verkkokyyla.Mikrotik.Manager.Identity.{
  Event, System, starts, deletes, has_row, IsIdentified, step-IsIdentified,
}
use verkkokyyla.Mikrotik.Manager.{
  Outside, start, Active, ActiveSession, max_concurrent_sessions, no_active_session, claim,
  find_session, stop, start_guard, clear_active, is_active_session, is_profile_active,
  active_version_target,
}
use verkkokyyla.Prelude.Results.{ok}
use verkkokyyla.Prelude.{ℕ, ◌+◌, ◌≤◌, ◌≡◌, refl, true, false, List, [], ◌∷◌, some, arith, max}

-- Two starts race for a profile, one of another profile comes between, and a task exits.
abbrev race : List Call
race = claims 1 (some 10) ∷ claims 2 (some 11) ∷ claims 1 (some 12) ∷ exits 11 ∷ []

abbrev first : ActiveSession
first = record { session_id = 10; profile_id = 1 }

race_left : run [] race ≡ (1, first) ∷ []
unfolding run step claim start_guard clear_active
race_left = refl

run-empty-IsSound_example : IsSound (run [] race)
run-empty-IsSound_example = run-empty-IsSound race

abbrev third : ActiveSession
third = record { session_id = 12; profile_id = 3 }

abbrev two : Active
two = (1, first) ∷ (3, third) ∷ []

-- The ids are those of a table that takes one more than its largest.
abbrev next_after : List ℕ → ℕ
next_after [] = 1
next_after (r ∷ rows) = max (r + 1) (next_after rows)

has_row_above : (rows : List ℕ) (id : ℕ) → next_after rows ≤ id → has_row id rows ≡ false
has_row_above [] id h = refl
has_row_above (r ∷ rows) id h = ground (arith, has_row_above rows id)

next_after-fresh : (rows : List ℕ) → has_row (next_after rows) rows ≡ false
next_after-fresh rows = has_row_above rows (next_after rows) (omega arith)

abbrev running : System
running = record { active = (1, first) ∷ []; rows = 10 ∷ 9 ∷ [] }

abbrev started : System
started = record { active = two; rows = 11 ∷ 10 ∷ 9 ∷ [] }

running-IsIdentified : IsIdentified running.active running.rows
unfolding is_active_session
running-IsIdentified = (refl, refl, tt)

step-IsIdentified_example :
    IsIdentified
      (verkkokyyla.Mikrotik.Manager.Identity.step next_after running (starts 3)).active
      (verkkokyyla.Mikrotik.Manager.Identity.step next_after running (starts 3)).rows
step-IsIdentified_example =
    step-IsIdentified next_after next_after-fresh running (starts 3) tt running-IsIdentified

two-IsIdentified : IsIdentified two (12 ∷ 10 ∷ [])
unfolding is_active_session
two-IsIdentified = (refl, refl, (refl, refl, tt))

-- A session starts between the two locks of another start.
abbrev outside : Outside
outside = record { profile_found = true; credentials = true; connected = true }

third_claimed : start [] outside ((1, first) ∷ []) 3 (some 12) ≡ ok (third, two)
unfolding start claim start_guard
third_claimed = refl
