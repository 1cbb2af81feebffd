-- ===== src/Mikrotik/Manager.antt =====
-- mikrotik/manager.rs: one monitoring session for each profile, at most eight in all. The lifecycle
-- lock makes each function below one step; a start takes two of them, with the connection in
-- between, so other calls may come between the two.
pub mod Capacity
pub mod Identity
pub mod Reuse
pub mod Stops
pub mod Starts
use verkkokyyla.Prelude.Assoc.{get, contains_key, insert, remove, retain}
use verkkokyyla.Prelude.Results.{Result, ok, err, ◌>>=◌}
use verkkokyyla.Prelude.{
  ℕ, ◌+◌, Bool, true, false, not, List, [], ◌∷◌, map, Option, none, some, length, ltb, leb, ◌==◌,
  if◌then◌else◌,
}
use mathlib.Core.Option

abbrev pub max_concurrent_sessions : ℕ
max_concurrent_sessions = 8

pub record ActiveSession : Type 0 where
  pub session_id : ℕ
  pub profile_id : ℕ

-- The map `MikrotikInner::active`, by profile.
abbrev pub Active : Type 0
Active = List (ℕ × ActiveSession)

pub data ManagerError : Type 0 where
  already_running_for_profile : ℕ → ManagerError
  too_many_sessions : ManagerError
  no_active_session : ManagerError
  profile_in_use : ℕ → ManagerError
  profile_not_found : ℕ → ManagerError
  secret_error : ManagerError
  api_error : ManagerError
  db_error : ManagerError

unfoldable pub is_profile_active : Active → ℕ → Bool
is_profile_active active profile_id = contains_key profile_id active

-- The two tests that `start` makes under the lock, before the connection and again after it.
unfoldable pub start_guard : Active → ℕ → Result ManagerError (Unit {0})
start_guard active profile_id =
    if contains_key profile_id active
    then err (already_running_for_profile profile_id)
    else if leb max_concurrent_sessions (length active)
    then err too_many_sessions
    else ok tt

insert_created : Active → ℕ → Option ℕ → Result ManagerError (ActiveSession × Active)
insert_created active profile_id none = err db_error
insert_created active profile_id (some session_id) =
    let session : ActiveSession = record { session_id = session_id; profile_id = profile_id } in
    ok (session, insert profile_id session active)

-- The second half of `start`, from the lock on. `created` is what `create_mikrotik_session` answers.
unfoldable pub claim : Active → ℕ → Option ℕ → Result ManagerError (ActiveSession × Active)
unfolding insert_created
claim active profile_id created = do
  free ← start_guard active profile_id
  insert_created active profile_id created

abbrev pub check : Bool → ManagerError → Result ManagerError (Unit {0})
check true e = ok tt
check false e = err e

-- What a start meets between its two locks: whether the profile is in the database, whether its
-- password and its port can be had, and whether the connection succeeds.
pub record Outside : Type 0 where
  pub profile_found : Bool
  pub credentials : Bool
  pub connected : Bool

-- The whole of `start`: the sessions at its first lock and, later, at its second one.
unfoldable pub start :
    Active → Outside → Active → ℕ → Option ℕ → Result ManagerError (ActiveSession × Active)
start before outside active profile_id created = do
  free ← start_guard before profile_id
  profile ← check outside.profile_found (profile_not_found profile_id)
  conn ← check outside.credentials secret_error
  api ← check outside.connected api_error
  claim active profile_id created

-- The key of the first entry with this session, in the order of the map.
unfoldable pub find_session : ℕ → Active → Option ℕ
find_session session_id [] = none
find_session session_id ((k, a) ∷ rest) =
    if a.session_id == session_id then some k else find_session session_id rest

remove_found : Active → Option ℕ → Result ManagerError Active
remove_found active (some key) = ok (remove key active)
remove_found active none = err no_active_session

-- `stop` up to the point where it awaits the task that it took out.
unfoldable pub stop : Active → ℕ → Result ManagerError Active
unfolding remove_found
stop active session_id = remove_found active (find_session session_id active)

unfoldable pub clear_active : Active → ℕ → Active
clear_active active session_id = retain (λ a. not (a.session_id == session_id)) active

unfoldable pub is_active_session : Active → ℕ → Bool
is_active_session [] session_id = false
is_active_session ((k, a) ∷ rest) session_id =
    if a.session_id == session_id then true else is_active_session rest session_id

unfoldable pub list_active : Active → List ActiveSession
list_active = map (λ entry. entry.1)

unfoldable pub active_version_target : Active → ℕ → Option ℕ
active_version_target active profile_id = Option.map (λ a. a.session_id) (get profile_id active)
