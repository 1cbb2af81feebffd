-- ===== src/Mtu/Manager.antt =====
-- mtu/manager.rs: the one active run. A task is what the manager spawned and has not ended. The lock
-- makes each function one step; what the resolver, the engine's constructor and the database answer
-- is the record `Answers`.
pub mod Slot
pub mod Starts
use verkkokyyla.Mtu.Types.{MtuConfig, default_config, max_ceiling_mtu}
use verkkokyyla.Prelude.Machine.{clamp}
use verkkokyyla.Prelude.Results.{Result, ok, err, ◌>>=◌}
use verkkokyyla.Prelude.Text.{Text, codes, text_eq}
use verkkokyyla.Prelude.{
  ℕ, Bool, true, false, List, [], ◌∷◌, Option, none, some, ◌==◌, if◌then◌else◌,
}

pub data MtuMethod : Type 0 where
  icmp tcp : MtuMethod

-- `MtuMethod::parse` and `MtuMethod::name`.
unfoldable pub parse_method : Text → Option MtuMethod
parse_method input =
    if text_eq input (codes "icmp")
    then some icmp
    else if text_eq input (codes "tcp")
    then some tcp
    else none

abbrev pub method_name : MtuMethod → Text
method_name icmp = codes "icmp"
method_name tcp = codes "tcp"

pub data MtuError : Type 0 where
  invalid_method : Text → MtuError
  resolve_failed : MtuError
  already_running : MtuError
  no_active_run : MtuError
  engine_failed : MtuError
  db_failed : MtuError

-- A spawned run: `stopping` is the value of its stop channel.
pub record Task : Type 0 where
  pub run_id : ℕ
  pub config : MtuConfig
  pub stopping : Bool

-- `MtuInner::active` is the id of the run in the slot.
pub record MtuManager : Type 0 where
  pub active : Option ℕ
  pub tasks : List Task

pub record Answers : Type 0 where
  pub resolved : Bool
  pub engine_built : Bool
  pub created : Option ℕ

abbrev pub config_for : ℕ → MtuConfig
unfolding clamp
config_for ceiling_mtu = record default_config {
  ceiling_mtu = clamp ceiling_mtu 1500 max_ceiling_mtu;
}

abbrev pub check : {E : Type 0} → Bool → E → Result E (Unit {0})
check true e = ok tt
check false e = err e

abbrev pub check_free : Option ℕ → Result MtuError (Unit {0})
check_free none = ok tt
check_free (some id) = err already_running

abbrev pub created_id : Option ℕ → Result MtuError ℕ
created_id (some id) = ok id
created_id none = err db_failed

abbrev pub known_method : Text → Option MtuMethod → Result MtuError MtuMethod
known_method input (some m) = ok m
known_method input none = err (invalid_method input)

-- `start` for what its calls answer, in their order.
abbrev pub start_from :
    MtuManager
    → Text
    → ℕ
    → Option MtuMethod
    → Bool
    → Option ℕ
    → Bool
    → Option ℕ
    → Result MtuError (Task × MtuManager)
start_from m method ceiling_mtu parsed resolved active built created = do
  known ← known_method method parsed
  found ← check resolved resolve_failed
  free ← check_free active
  engine ← check built engine_failed
  run_id ← created_id created
  let task : Task = record { run_id = run_id; config = config_for ceiling_mtu; stopping = false }
  ok (task, record { active = some run_id; tasks = task ∷ m.tasks })

-- The run that `start` spawns, and the manager after it.
unfoldable pub start : MtuManager → Text → ℕ → Answers → Result MtuError (Task × MtuManager)
start m method ceiling_mtu a =
    start_from m method ceiling_mtu (parse_method method) a.resolved m.active a.engine_built
      a.created

-- `stop_tx.send(true)` of the run in the slot.
abbrev pub send_stop : ℕ → List Task → List Task
send_stop run_id [] = []
send_stop run_id (t ∷ ts) =
    if t.run_id == run_id then record t { stopping = true } ∷ ts else t ∷ send_stop run_id ts

abbrev pub stop_taken : MtuManager → Option ℕ → Result MtuError MtuManager
stop_taken m none = err no_active_run
stop_taken m (some id) = ok (record { active = none; tasks = send_stop id m.tasks })

-- `stop` up to the point where it awaits the task.
unfoldable pub stop : MtuManager → Result MtuError MtuManager
stop m = stop_taken m m.active

abbrev pub cleared : ℕ → Option ℕ → Option ℕ
cleared run_id none = none
cleared run_id (some id) = if id == run_id then none else some id

unfoldable pub clear_active : MtuManager → ℕ → MtuManager
clear_active m run_id = record m { active = cleared run_id m.active }
