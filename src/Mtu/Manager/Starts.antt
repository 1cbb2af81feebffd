-- ===== src/Mtu/Manager/Starts.antt =====
-- When a start succeeds, and the run that it spawns.
use verkkokyyla.Mtu.Manager.{
  MtuManager, MtuMethod, Task, Answers, start, start_from, config_for, parse_method,
}
use verkkokyyla.Mtu.Runtime.Ends.{Ended}
use verkkokyyla.Mtu.Search.Descent.{probe_limit}
use verkkokyyla.Mtu.Runtime.Total.{HasRoom, run_mtu_total}
use verkkokyyla.Mtu.Runtime.{Env, run_mtu}
use verkkokyyla.Mtu.Types.{IsValid}
use verkkokyyla.Prelude.Machine.{clamp}
use verkkokyyla.Prelude.Results.{ok}
use verkkokyyla.Prelude.Text.{Text}
use verkkokyyla.Prelude.{ℕ, ◌≤◌, ◌≡◌, ◌≢◌, Bool, true, false, ◌∷◌, Option, none, some, arith}

config_for-IsValid : (ceiling_mtu : ℕ) → IsValid (config_for ceiling_mtu)
unfolding clamp
config_for-IsValid ceiling_mtu = ground arith

config_for-HasRoom :
    (ceiling_mtu : ℕ)
    → ceiling_mtu ≢ 1501
    → ceiling_mtu ≢ 3001
    → ceiling_mtu ≢ 6001
    → HasRoom (config_for ceiling_mtu)
unfolding clamp
config_for-HasRoom ceiling_mtu a b c = ground (arith, a, b, c)

-- A start succeeds only with the name of a method, an empty slot, and answers of the resolver, the
-- engine and the database. Its run is the one in the slot, under the database's id, not told to stop.
start_needs :
    (m : MtuManager) (method : Text) (ceiling_mtu : ℕ) (a : Answers) {task : Task}
    {next : MtuManager}
    → start m method ceiling_mtu a ≡ ok (task, next)
    → (m.active ≡ none)
      × (a.resolved ≡ true)
      × (a.engine_built ≡ true)
      × (a.created ≡ some task.run_id)
      × (task.stopping ≡ false)
      × (task.config ≡ config_for ceiling_mtu)
      × (next.active ≡ some task.run_id)
      × (next.tasks ≡ task ∷ m.tasks)
unfolding start
start_needs m method ceiling a e =
    at (parse_method method) a.resolved m.active a.engine_built a.created e
  where
    at :
        (parsed : Option MtuMethod) (resolved : Bool) (active : Option ℕ) (built : Bool)
        (created : Option ℕ)
        → {task : Task} {next : MtuManager}
        → start_from m method ceiling parsed resolved active built created ≡ ok (task, next)
        → (active ≡ none)
          × (resolved ≡ true)
          × (built ≡ true)
          × (created ≡ some task.run_id)
          × (task.stopping ≡ false)
          × (task.config ≡ config_for ceiling)
          × (next.active ≡ some task.run_id)
          × (next.tasks ≡ task ∷ m.tasks)
    at none resolved active built created e = cc
    at (some p) false active built created e = cc
    at (some p) true (some id) built created e = cc
    at (some p) true none false created e = cc
    at (some p) true none true none e = cc
    at (some p) true none true (some id) e = ground (arith, e)

-- A run that `start` spawned, whatever the ceiling asked for other than 1501, 3001 and 6001, ends
-- within `probe_limit` turns for every engine and every moment of a stop.
start-run_total :
    (m : MtuManager) (method : Text) (ceiling_mtu : ℕ) (a : Answers) {task : Task}
    {next : MtuManager}
    → start m method ceiling_mtu a ≡ ok (task, next)
    → ceiling_mtu ≢ 1501
    → ceiling_mtu ≢ 3001
    → ceiling_mtu ≢ 6001
    → {F : Type 0} (env : Env F) (fuel : ℕ) → probe_limit task.config ≤ fuel
    → Ended env (λ r. Unit) (run_mtu env fuel task.config)
start-run_total m method ceiling a e n1 n2 n3 env fuel enough =
    let (free, found, built, id, live, config, slot, tasks) = start_needs m method ceiling a e in
    run_mtu_total env _ (rw config (config_for-IsValid ceiling))
      (rw config (config_for-HasRoom ceiling n1 n2 n3)) fuel enough
