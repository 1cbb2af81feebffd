-- ===== src/Tests/Session.antt =====
-- A router that answers once, fails three times and is not asked again; its snapshot is a number.
use verkkokyyla.Mikrotik.Manager.{Active, is_active_session}
use verkkokyyla.Mikrotik.Session.Ends.{
  verdict, samples, run_end, picked, shown_of, saved_of, run_session-ends,
}
use verkkokyyla.Mikrotik.Session.Leaks.{SlotAfter, run_session-SlotAfter}
use verkkokyyla.Mikrotik.Session.{
  Answers, Turn, sampled, core_failed, first_state, failed, poll_loop, run_session, slots_after,
}
use verkkokyyla.Prelude.Text.{codes}
use verkkokyyla.Prelude.{ℕ, ◌≡◌, refl, true, false, List, [], ◌∷◌, none, some}

abbrev willing : Answers
willing = record { identity_set = true; inserted = λ n. true; completed = true }

abbrev full : Answers
full = record { identity_set = true; inserted = λ n. false; completed = true }

abbrev turns : List (Turn ℕ)
turns =
    sampled 11
    ∷ core_failed (some (codes "timeout")) none
    ∷ core_failed none (some (codes "timeout"))
    ∷ core_failed (some (codes "reset")) (some (codes "reset"))
    ∷ sampled 12
    ∷ []

run_session-ends_example :
    ((run_session willing turns).1 ≡ run_end (verdict turns))
    × (picked shown_of (run_session willing turns).0 ≡ samples 0 turns)
    × (picked saved_of (run_session willing turns).0 ≡ samples 0 turns)
run_session-ends_example = run_session-ends willing refl (λ n. refl) refl turns

one_sample : samples 0 turns ≡ 11 ∷ []
one_sample = refl

abbrev live : Active
live = (3, record { session_id = 9; profile_id = 3 }) ∷ []

leaked :
    ((run_session full turns).1 ≡ failed)
    × (is_active_session (slots_after 9 live (run_session full turns).0) 9 ≡ true)
unfolding run_session poll_loop slots_after is_active_session
leaked = (refl, refl)

run_session-SlotAfter_example :
    SlotAfter 9 live
      (slots_after 9 live (run_session full turns).0)
      (run_session full turns).1
      (poll_loop full first_state turns).1
run_session-SlotAfter_example = run_session-SlotAfter 9 full turns live
