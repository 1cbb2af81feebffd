-- ===== src/Ping/Manager.antt =====
-- session.rs: the manager of ping sessions. What the resolver, the engines' constructors and the
-- database answer is given to the functions.
pub mod Starts
pub mod CleanStop
use verkkokyyla.Ping.Stats.{Floats, StatsEngine, StatsSnapshot, new_stats, snapshot}
use verkkokyyla.Prelude.Assoc.{get, insert, remove}
use verkkokyyla.Prelude.Results.{Result, ok, err, ◌>>=◌}
use verkkokyyla.Prelude.Text.{Text, codes, text_eq}
use verkkokyyla.Prelude.{
  ℕ, Bool, true, false, ◌&&◌, List, [], ◌∷◌, map, Option, none, some, if◌then◌else◌,
}

pub data EngineChoice : Type 0 where
  primary fallback : EngineChoice

-- `socket` says whether the error is that of a missing permission.
pub data EngineError : Type 0 where
  parse : EngineError
  resolve : Text → EngineError
  no_answer : Text → EngineError
  socket : Bool → EngineError
  unavailable : Text → EngineError

pub data SessionError : Type 0 where
  already_running : SessionError
  not_running : SessionError
  invalid_family : Text → SessionError
  session_not_found : ℕ → SessionError
  engine_error : EngineError → SessionError
  db_error : SessionError

pub data Family : Type 0 where
  auto v4 v6 : Family

unfoldable pub parse_family : Text → Result SessionError Family
parse_family input =
    if text_eq input (codes "auto")
    then ok auto
    else if text_eq input (codes "v4")
    then ok v4
    else if text_eq input (codes "v6")
    then ok v6
    else err (invalid_family input)

abbrev pub family_str : Family → Text
family_str auto = codes "auto"
family_str v4 = codes "v4"
family_str v6 = codes "v6"

-- On unix; Windows calls its fallback `winicmp`.
abbrev pub engine_name : EngineChoice → Text
engine_name primary = codes "surge"
engine_name fallback = codes "osping"

abbrev pub as_session_error : {A : Type 0} → Result EngineError A → Result SessionError A
as_session_error (ok a) = ok a
as_session_error (err e) = err (engine_error e)

-- The choice and its engine, for the factory's answers.
abbrev pub built :
    (EngineChoice → Result EngineError (Unit {0})) → EngineChoice → Result SessionError EngineChoice
built factory choice = do engine ← as_session_error (factory choice); ok choice

abbrev pub after_primary :
    (EngineChoice → Result EngineError (Unit {0}))
    → Result EngineError (Unit {0})
    → Result SessionError EngineChoice
after_primary factory (ok engine) = ok primary
after_primary factory (err (socket true)) = built factory fallback
after_primary factory (err (socket false)) = err (engine_error (socket false))
after_primary factory (err parse) = err (engine_error parse)
after_primary factory (err (resolve input)) = err (engine_error (resolve input))
after_primary factory (err (no_answer input)) = err (engine_error (no_answer input))
after_primary factory (err (unavailable what)) = err (engine_error (unavailable what))

unfoldable pub select_engine :
    Bool → Bool → (EngineChoice → Result EngineError (Unit {0})) → Result SessionError EngineChoice
select_engine is_ipv4 dont_fragment factory =
    if dont_fragment && is_ipv4
    then built factory fallback
    else after_primary factory (factory primary)

-- The statistics are shared with the consumer of the session.
pub record ActiveSession (F : Type 0) : Type 0 where
  pub session_id : ℕ
  pub stats : StatsEngine F

abbrev pub Active : Type 0 → Type 0
Active F = List (ℕ × ActiveSession F)

pub data StatusEvent : Type 0 where
  engine_selected : Text → Bool → StatusEvent
  session_stopped : ℕ → ℕ → ℕ → StatusEvent

pub record StartInfo : Type 0 where
  pub session_id : ℕ
  pub engine : Text
  pub fallback : Bool

-- The answers that a start gets: the resolver's (whether the address is IPv4), the factory's, and
-- the database's (the id of the new row).
pub record Answers : Type 0 where
  pub resolved : Result EngineError Bool
  pub factory : EngineChoice → Result EngineError (Unit {0})
  pub created : Option ℕ

pub record StoppedSession : Type 0 where
  pub session_id : ℕ
  pub probe_count : ℕ
  pub loss_count : ℕ

abbrev pub created_id : Option ℕ → Result SessionError ℕ
created_id (some id) = ok id
created_id none = err db_error

abbrev pub is_fallback : EngineChoice → Bool
is_fallback primary = false
is_fallback fallback = true

module _ {F : Type 0} (f : Floats F) where
  -- From the selected engine on.
  abbrev pub session_of :
      Active F
      → Result SessionError EngineChoice
      → Option ℕ
      → Result SessionError (StartInfo × List StatusEvent × Active F)
  session_of active selected created = do
    choice ← selected
    session_id ← created_id created
    let session : ActiveSession F = record { session_id = session_id; stats = new_stats f }
    ok (
      record {
        session_id = session_id;
        engine = engine_name choice;
        fallback = is_fallback choice;
      },
      engine_selected (engine_name choice) (is_fallback choice) ∷ [],
      insert session_id session active,
    )

  unfoldable pub start :
      Active F
      → Text
      → Bool
      → Answers
      → Result SessionError (StartInfo × List StatusEvent × Active F)
  start active family dont_fragment a = do
    wanted ← parse_family family
    is_ipv4 ← as_session_error a.resolved
    session_of active (select_engine is_ipv4 dont_fragment a.factory) a.created

  -- The rest of a stop, after the session was taken out and both its tasks have ended: `joined` is
  -- its statistics then, `is_stored` the success of `finish_session`.
  abbrev pub stop_taken :
      Active F
      → ℕ
      → Option (ActiveSession F)
      → StatsEngine F
      → Bool
      → Result SessionError (StoppedSession × List StatusEvent) × Active F
  stop_taken active session_id none joined is_stored = (err not_running, active)
  stop_taken active session_id (some s) joined is_stored =
      let snap = snapshot f joined in
      (
        if is_stored
            then ok (
              record {
                session_id = s.session_id;
                probe_count = snap.count;
                loss_count = snap.loss_count;
              },
              session_stopped s.session_id snap.count snap.loss_count ∷ [],
            )
            else err db_error,
        remove session_id active,
      )

  unfoldable pub stop :
      Active F
      → ℕ
      → StatsEngine F
      → Bool
      → Result SessionError (StoppedSession × List StatusEvent) × Active F
  stop active session_id joined is_stored =
      stop_taken active session_id (get session_id active) joined is_stored

  abbrev pub stats_of : Option (ActiveSession F) → StatsEngine F
  stats_of (some s) = s.stats
  stats_of none = new_stats f

  unfoldable pub session_snapshot : Active F → ℕ → StatsSnapshot F
  session_snapshot active session_id = snapshot f (stats_of (get session_id active))

  unfoldable pub active_session_ids : Active F → List ℕ
  active_session_ids = map (λ entry. entry.0)
