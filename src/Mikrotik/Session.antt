-- ===== src/Mikrotik/Session.antt =====
-- mikrotik/runtime.rs, `run_mikrotik_session`: the task that polls a router. What one tick makes of
-- the router's answers, its snapshot, is a value of a type `P` here; the order of ticks and stops,
-- the router's answers and the database's are input.
pub mod Ends
pub mod Leaks
use verkkokyyla.Mikrotik.Manager.{Active, clear_active}
use verkkokyyla.Prelude.Results.{Result, ok, err}
use verkkokyyla.Prelude.Text.{Text, codes}
use verkkokyyla.Prelude.{
  ℕ, ◌+◌, Bool, true, false, List, [], ◌∷◌, ◌++◌, Option, none, some, leb, if◌then◌else◌,
}

abbrev pub max_core_failures : ℕ
max_core_failures = 3

-- The core fetches of a tick: both succeed, or what `core_failure_message` reports.
abbrev pub core_failure_message : Option Text → Option Text → Text
core_failure_message (some a) (some b) = codes "resource: " ++ a ++ codes "; interfaces: " ++ b
core_failure_message (some a) none = codes "resource fetch failed: " ++ a
core_failure_message none (some b) = codes "interface fetch failed: " ++ b
core_failure_message none none = codes "core fetch failed"

-- The statuses, the events and the writes of a run, and the release of its slot. The version probe,
-- a task of its own with statuses of its own, is left out.
pub data Effect (P : Type 0) : Type 0 where
  started : Effect P
  warning : Text → Effect P
  error : Text → Effect P
  cancelled : ℕ → Effect P
  snapshot_event : P → Effect P
  set_identity : P → Effect P
  insert_snapshot : P → Effect P
  complete_session : Text → Effect P
  clears_active : Effect P

-- A stop or the end of its sender; a tick with its snapshot, or with the errors of the two fetches,
-- of which one at least fails.
pub data Turn (P : Type 0) : Type 0 where
  stop_changed : Turn P
  core_failed : Option Text → Option Text → Turn P
  sampled : P → Turn P

-- What the database answers: to the identity, to the snapshot of a number, to the completion.
pub record Answers : Type 0 where
  pub identity_set : Bool
  pub inserted : ℕ → Bool
  pub completed : Bool

pub record SessionState : Type 0 where
  pub core_failures : ℕ
  pub snapshot_count : ℕ
  pub resource_identity_persisted : Bool

-- How the loop ends: not yet; by a `break`, with whether it was a stop; by a `?`.
pub data LoopEnd : Type 0 where
  polling : LoopEnd
  broke : Bool → ℕ → LoopEnd
  db_failed : LoopEnd

pub record StoppedDto : Type 0 where
  pub snapshot_count : ℕ
  pub status : Text

-- How a run ends: not yet; with its result; with the error of the database.
pub data RunEnd : Type 0 where
  running : RunEnd
  stopped : StoppedDto → RunEnd
  failed : RunEnd

abbrev pub Looped : Type 0 → Type 0
Looped P = List (Effect P) × LoopEnd

abbrev pub before : {P : Type 0} → List (Effect P) → Looped P → Looped P
before effects rest = (effects ++ rest.0, rest.1)

abbrev pub status_of : Bool → Text
status_of true = codes "cancelled"
status_of false = codes "error"

abbrev pub announce : {P : Type 0} → Bool → ℕ → List (Effect P)
announce true count = cancelled count ∷ []
announce false count = []

abbrev pub first_state : SessionState
first_state = record { core_failures = 0; snapshot_count = 0; resource_identity_persisted = false }

module _ {P : Type 0} (db : Answers) where
  -- The write of the identity, at the first sample.
  abbrev pub persist_identity : Bool → P → Looped P → Looped P
  persist_identity true p rest = rest
  persist_identity false p rest =
      if db.identity_set
      then before (set_identity p ∷ []) rest
      else (set_identity p ∷ [], db_failed)

  abbrev pub store_snapshot : ℕ → P → Looped P → Looped P
  store_snapshot number p rest =
      if db.inserted number
      then before (insert_snapshot p ∷ snapshot_event p ∷ []) rest
      else (insert_snapshot p ∷ [], db_failed)

  unfoldable pub poll_loop : SessionState → List (Turn P) → Looped P
  poll_loop s [] = ([], polling)
  poll_loop s (stop_changed ∷ turns) = ([], broke true s.snapshot_count)
  poll_loop s (core_failed a b ∷ turns) =
      let failures = s.core_failures + 1 in
      let message = core_failure_message a b in
      let rest = poll_loop (record s { core_failures = failures }) turns in
      if leb max_core_failures failures
      then (warning message ∷ clears_active ∷ error message ∷ [], broke false s.snapshot_count)
      else before (warning message ∷ []) rest
  poll_loop s (sampled p ∷ turns) =
      let next : SessionState = record {
        core_failures = 0;
        snapshot_count = s.snapshot_count + 1;
        resource_identity_persisted = true;
      } in
      let rest = poll_loop next turns in
      persist_identity s.resource_identity_persisted p (store_snapshot s.snapshot_count p rest)

  -- What follows the loop.
  abbrev pub finish_session : LoopEnd → List (Effect P) × RunEnd
  finish_session polling = ([], running)
  finish_session db_failed = ([], failed)
  finish_session (broke stop count) =
      if db.completed
      then (
        complete_session (status_of stop) ∷ announce stop count ++ clears_active ∷ [],
        stopped (record { snapshot_count = count; status = status_of stop }),
      )
      else (complete_session (status_of stop) ∷ [], failed)

  unfoldable pub run_session : List (Turn P) → List (Effect P) × RunEnd
  run_session turns =
      let looped = poll_loop first_state turns in
      let finished = finish_session looped.1 in (started ∷ looped.0 ++ finished.0, finished.1)

abbrev pub releases : {P : Type 0} → Effect P → Bool
releases clears_active = true
releases _ = false

-- The live sessions after the effects of a run.
unfoldable pub slots_after : {P : Type 0} → ℕ → Active → List (Effect P) → Active
slots_after session_id active [] = active
slots_after session_id active (e ∷ effects) =
    slots_after session_id (if releases e then clear_active active session_id else active) effects
