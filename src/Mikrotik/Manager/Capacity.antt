-- ===== src/Mikrotik/Manager/Capacity.antt =====
-- One session for each profile and eight in all, in every interleaving of the calls.
use verkkokyyla.Mikrotik.Manager.{
  Active, ActiveSession, ManagerError, max_concurrent_sessions, start_guard, claim, find_session,
  stop, clear_active, is_profile_active, remove_found,
}
use verkkokyyla.Prelude.Assoc.{
  get, insert, remove, retain, HasDistinctKeys, insert-HasDistinctKeys, remove-HasDistinctKeys,
  retain-HasDistinctKeys, length-insert_absent, length-remove_le, length-retain_le, get-insert,
}
use verkkokyyla.Prelude.Results.{Result, ok, err}
use verkkokyyla.Prelude.{
  ℕ, ◌+◌, ◌≤◌, ◌<◌, ◌≡◌, refl, Bool, false, not, List, [], ◌∷◌, Option, none, some, arith, length,
  ◌==◌, if◌then◌else◌,
}

-- A step of the manager under its lock: the second half of a start, with what the database
-- answered; a stop; the exit of a session's task. A call that fails changes nothing.
pub data Call : Type 0 where
  claims : ℕ → Option ℕ → Call
  stops : ℕ → Call
  exits : ℕ → Call

abbrev pub after_claim : Active → Result ManagerError (ActiveSession × Active) → Active
after_claim active (ok (session, next)) = next
after_claim active (err e) = active

abbrev pub after_stop : Active → Result ManagerError Active → Active
after_stop active (ok next) = next
after_stop active (err e) = active

unfoldable pub step : Active → Call → Active
step active (claims profile_id created) = after_claim active (claim active profile_id created)
step active (stops session_id) = after_stop active (stop active session_id)
step active (exits session_id) = clear_active active session_id

unfoldable pub run : Active → List Call → Active
run active [] = active
run active (c ∷ cs) = run (step active c) cs

-- Every entry stands under its own profile.
abbrev pub IsKeyed : Active → Type 0
IsKeyed [] = Unit
IsKeyed ((k, a) ∷ rest) = (k ≡ a.profile_id) × IsKeyed rest

pub record IsSound (active : Active) : Type 0 where
  pub distinct : HasDistinctKeys active
  pub keyed : IsKeyed active
  pub within : length active ≤ max_concurrent_sessions

insert-IsKeyed :
    (session : ActiveSession) (m : Active)
    → IsKeyed m
    → IsKeyed (insert session.profile_id session m)
insert-IsKeyed a [] k = (refl, tt)
insert-IsKeyed a ((j, b) ∷ m) k = ground (arith, insert-IsKeyed a m k.1)

remove-IsKeyed : (key : ℕ) (m : Active) → IsKeyed m → IsKeyed (remove key m)
remove-IsKeyed key [] k = tt
remove-IsKeyed key ((j, b) ∷ m) k = ground (arith, remove-IsKeyed key m k.1)

retain-IsKeyed : (keep : ActiveSession → Bool) (m : Active) → IsKeyed m → IsKeyed (retain keep m)
retain-IsKeyed keep [] k = tt
retain-IsKeyed keep ((j, b) ∷ m) k = ground (arith, retain-IsKeyed keep m k.1)

claim-IsSound :
    (active : Active) (profile_id : ℕ) (created : Option ℕ)
    → IsSound active
    → IsSound (after_claim active (claim active profile_id created))
unfolding claim start_guard
claim-IsSound m p none v = ground arith
claim-IsSound m p (some id) v =
    let session : ActiveSession = record { session_id = id; profile_id = p } in
    ground (
      arith,
      insert-HasDistinctKeys p session m,
      insert-IsKeyed session m,
      length-insert_absent p session m,
    )

stop-IsSound :
    (active : Active) (session_id : ℕ)
    → IsSound active
    → IsSound (after_stop active (stop active session_id))
unfolding stop
stop-IsSound m id v = at (find_session id m)
  where
    at : (found : Option ℕ) → IsSound (after_stop m (remove_found m found))
    at none = v
    at (some k) = record {
      distinct = remove-HasDistinctKeys k m v.distinct;
      keyed = remove-IsKeyed k m v.keyed;
      within = omega (arith, length-remove_le k m, v.within);
    }

clear_active-IsSound :
    (active : Active) (session_id : ℕ) → IsSound active → IsSound (clear_active active session_id)
unfolding clear_active
clear_active-IsSound m id v = record {
  distinct = retain-HasDistinctKeys _ m v.distinct;
  keyed = retain-IsKeyed _ m v.keyed;
  within =
      omega (arith, length-retain_le (λ (a : ActiveSession). not (a.session_id == id)) m, v.within);
}

pub step-IsSound : (active : Active) (c : Call) → IsSound active → IsSound (step active c)
unfolding step
step-IsSound m (claims p created) v = claim-IsSound m p created v
step-IsSound m (stops id) v = stop-IsSound m id v
step-IsSound m (exits id) v = clear_active-IsSound m id v

run-IsSound : (active : Active) (cs : List Call) → IsSound active → IsSound (run active cs)
unfolding run
run-IsSound m [] v = v
run-IsSound m (c ∷ cs) v = run-IsSound (step m c) cs (step-IsSound m c v)

-- In every order of the calls, whatever ids the database hands out, at most eight sessions are live,
-- each stands under its own profile, and no profile has two.
pub run-empty-IsSound : (cs : List Call) → IsSound (run [] cs)
run-empty-IsSound cs =
    run-IsSound [] cs (record { distinct = tt; keyed = tt; within = omega arith })

-- The second half of a start succeeds exactly if the profile has no session, fewer than eight are
-- live and the database gave an id. It then adds that session, and no other profile's changes.
pub claim-ok :
    (active : Active) (p q : ℕ) (created : Option ℕ) {session : ActiveSession} {next : Active}
    → claim active p created ≡ ok (session, next)
    → (is_profile_active active p ≡ false)
      × (length active < max_concurrent_sessions)
      × (created ≡ some session.session_id)
      × (session.profile_id ≡ p)
      × (get q next ≡ (if p == q then some session else get q active))
      × (length next ≡ length active + 1)
unfolding claim start_guard is_profile_active
claim-ok m p q none e = ground arith
claim-ok m p q (some id) {session} {next} e =
    let new_session : ActiveSession = record { session_id = id; profile_id = p } in
    ground (arith, get-insert p q new_session m, length-insert_absent p new_session m)
