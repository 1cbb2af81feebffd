-- ===== src/Mtu/Manager/Slot.antt =====
-- The slot of the manager while runs start, are told to stop and end, in any order.
use verkkokyyla.Mtu.Manager.{
  MtuManager, MtuMethod, start_from, MtuError, Task, Answers, start, send_stop, stop, stop_taken,
  cleared, clear_active, parse_method,
}
use verkkokyyla.Prelude.Results.{Result, ok, err}
use verkkokyyla.Prelude.Text.{Text}
use verkkokyyla.Prelude.{
  ℕ, ◌+◌, ◌≤◌, ◌≡◌, ◌⊎◌, inl, inr, refl, Bool, true, false, List, [], ◌∷◌, Option, none, some,
  arith, ◌==◌, if◌then◌else◌,
}

-- `returns` is a task that ends and calls `clear_active`; `fails` is one that ends without it.
pub data Event : Type 0 where
  starts : Text → ℕ → Answers → Event
  stops : Event
  returns fails : ℕ → Event

abbrev after_start : MtuManager → Result MtuError (Task × MtuManager) → MtuManager
after_start m (ok (task, next)) = next
after_start m (err e) = m

abbrev after_stop : MtuManager → Result MtuError MtuManager → MtuManager
after_stop m (ok next) = next
after_stop m (err e) = m

abbrev pub end_task : ℕ → List Task → List Task
end_task run_id [] = []
end_task run_id (t ∷ ts) = if t.run_id == run_id then ts else t ∷ end_task run_id ts

unfoldable pub step : MtuManager → Event → MtuManager
step m (starts method ceiling_mtu answers) = after_start m (start m method ceiling_mtu answers)
step m stops = after_stop m (stop m)
step m (returns run_id) =
    let next = clear_active m run_id in record next { tasks = end_task run_id next.tasks }
step m (fails run_id) = record m { tasks = end_task run_id m.tasks }

abbrev pub has_task : ℕ → List Task → Bool
has_task id [] = false
has_task id (t ∷ ts) = if t.run_id == id then true else has_task id ts

abbrev pub AreDistinct : List Task → Type 0
AreDistinct [] = Unit
AreDistinct (t ∷ ts) = (has_task t.run_id ts ≡ false) × AreDistinct ts

-- Every task was told to stop, but the one of the run in the slot.
abbrev pub OthersStop : Option ℕ → List Task → Type 0
OthersStop active [] = Unit
OthersStop active (t ∷ ts) = ((t.stopping ≡ true) ⊎ (active ≡ some t.run_id)) × OthersStop active ts

pub record IsOrderly (m : MtuManager) : Type 0 where
  pub distinct : AreDistinct m.tasks
  pub others_stop : OthersStop m.active m.tasks

-- The database gives a run an id that no live task has.
abbrev pub IsFresh : MtuManager → Event → Type 0
IsFresh m (starts method ceiling_mtu answers) =
    (id : ℕ) → answers.created ≡ some id → has_task id m.tasks ≡ false
IsFresh m _ = Unit

all_stop : (active : Option ℕ) (ts : List Task) → OthersStop none ts → OthersStop active ts
all_stop active [] v = tt
all_stop active (t ∷ ts) (inl s, rest) = (inl s, all_stop active ts rest)
all_stop active (t ∷ ts) (inr e, rest) = cc

has_task-send_stop : (id k : ℕ) (ts : List Task) → has_task id (send_stop k ts) ≡ has_task id ts
has_task-send_stop id k [] = refl
has_task-send_stop id k (t ∷ ts) = ground (arith, has_task-send_stop id k ts)

send_stop-AreDistinct : (k : ℕ) (ts : List Task) → AreDistinct ts → AreDistinct (send_stop k ts)
send_stop-AreDistinct k [] d = tt
send_stop-AreDistinct k (t ∷ ts) d =
    ground (arith, send_stop-AreDistinct k ts, has_task-send_stop t.run_id k ts)

absent_stop :
    (k : ℕ) (ts : List Task) → has_task k ts ≡ false → OthersStop (some k) ts → OthersStop none ts
absent_stop k [] h v = tt
absent_stop k (t ∷ ts) h v = ground (arith, absent_stop k ts)

send_stop-OthersStop :
    (k : ℕ) (ts : List Task)
    → AreDistinct ts
    → OthersStop (some k) ts
    → OthersStop none (send_stop k ts)
send_stop-OthersStop k [] d v = tt
send_stop-OthersStop k (t ∷ ts) d v = ground (arith, send_stop-OthersStop k ts, absent_stop k ts)

has_task-end_task :
    (id k : ℕ) (ts : List Task) → has_task id ts ≡ false → has_task id (end_task k ts) ≡ false
has_task-end_task id k [] h = refl
has_task-end_task id k (t ∷ ts) h = ground (arith, has_task-end_task id k ts)

end_task-AreDistinct : (k : ℕ) (ts : List Task) → AreDistinct ts → AreDistinct (end_task k ts)
end_task-AreDistinct k [] d = tt
end_task-AreDistinct k (t ∷ ts) d =
    ground (arith, end_task-AreDistinct k ts, has_task-end_task t.run_id k ts)

end_task-OthersStop :
    (k : ℕ) (active : Option ℕ) (ts : List Task)
    → OthersStop active ts
    → OthersStop active (end_task k ts)
end_task-OthersStop k active [] v = tt
end_task-OthersStop k active (t ∷ ts) v = ground (arith, end_task-OthersStop k active ts)

end_task-has_none : (k : ℕ) (ts : List Task) → AreDistinct ts → has_task k (end_task k ts) ≡ false
end_task-has_none k [] d = refl
end_task-has_none k (t ∷ ts) d = ground (arith, end_task-has_none k ts)

cleared-OthersStop :
    (k : ℕ) (active : Option ℕ) (ts : List Task)
    → AreDistinct ts
    → OthersStop active ts
    → OthersStop (cleared k active) (end_task k ts)
cleared-OthersStop k none ts d v = end_task-OthersStop k none ts v
cleared-OthersStop k (some id) ts d v = ground (
  arith,
  absent_stop k (end_task k ts) (end_task-has_none k ts d),
  end_task-OthersStop k (some id) ts v,
)

stop-IsOrderly :
    (m : MtuManager) (active : Option ℕ)
    → OthersStop active m.tasks
    → IsOrderly m
    → IsOrderly (after_stop m (stop_taken m active))
stop-IsOrderly m none others v = v
stop-IsOrderly m (some id) others v = record {
  distinct = send_stop-AreDistinct id m.tasks v.distinct;
  others_stop = send_stop-OthersStop id m.tasks v.distinct others;
}

start-IsOrderly :
    (m : MtuManager) (method : Text) (ceiling_mtu : ℕ) (a : Answers)
    → ((id : ℕ) → a.created ≡ some id → has_task id m.tasks ≡ false)
    → IsOrderly m
    → IsOrderly (after_start m (start m method ceiling_mtu a))
unfolding start
start-IsOrderly m method ceiling a fresh v =
    at (parse_method method) a.resolved m.active a.engine_built a.created fresh v.others_stop
  where
    at :
        (parsed : Option MtuMethod) (resolved : Bool) (active : Option ℕ) (built : Bool)
        (created : Option ℕ)
        → ((id : ℕ) → created ≡ some id → has_task id m.tasks ≡ false)
        → OthersStop active m.tasks
        → IsOrderly
            (after_start m (start_from m method ceiling parsed resolved active built created))
    at none resolved active built created f o = v
    at (some p) false active built created f o = v
    at (some p) true (some id) built created f o = v
    at (some p) true none false created f o = v
    at (some p) true none true none f o = v
    at (some p) true none true (some id) f o = record {
      distinct = (f id refl, v.distinct);
      others_stop = (inr refl, all_stop (some id) m.tasks o);
    }

step-IsOrderly : (m : MtuManager) (e : Event) → IsFresh m e → IsOrderly m → IsOrderly (step m e)
unfolding step stop clear_active
step-IsOrderly m (starts method ceiling a) fresh v = start-IsOrderly m method ceiling a fresh v
step-IsOrderly m stops fresh v = stop-IsOrderly m m.active v.others_stop v
step-IsOrderly m (returns id) fresh v = record {
  distinct = end_task-AreDistinct id m.tasks v.distinct;
  others_stop = cleared-OthersStop id m.active m.tasks v.distinct v.others_stop;
}
step-IsOrderly m (fails id) fresh v = record {
  distinct = end_task-AreDistinct id m.tasks v.distinct;
  others_stop = end_task-OthersStop id m.active m.tasks v.others_stop;
}

-- The managers that calls and ends of tasks reach from a new one, with fresh ids.
pub data Reached : MtuManager → Type 0 where
  at_first : Reached (record { active = none; tasks = [] })
  after : {m : MtuManager} → Reached m → (e : Event) → IsFresh m e → Reached (step m e)

Reached-IsOrderly : {m : MtuManager} → Reached m → IsOrderly m
Reached-IsOrderly at_first = record { distinct = tt; others_stop = tt }
Reached-IsOrderly (after before e fresh) = step-IsOrderly _ e fresh (Reached-IsOrderly before)

-- How many tasks were not told to stop.
abbrev pub running : List Task → ℕ
running [] = 0
running (t ∷ ts) = if t.stopping then running ts else running ts + 1

running-none : (ts : List Task) → OthersStop none ts → running ts ≡ 0
running-none [] v = refl
running-none (t ∷ ts) (inl s, rest) = rw s (running-none ts rest)
running-none (t ∷ ts) (inr e, rest) = cc

running-some : (id : ℕ) (ts : List Task) → AreDistinct ts → OthersStop (some id) ts → running ts ≤ 1
running-some id [] d v = omega arith
running-some id (t ∷ ts) d v =
    ground (arith, running-some id ts, running-none ts, absent_stop id ts)

running_le :
    (active : Option ℕ) (ts : List Task) → AreDistinct ts → OthersStop active ts → running ts ≤ 1
running_le none ts d v = omega (arith, running-none ts v)
running_le (some id) ts d v = running-some id ts d v

-- However starts, stops and ends of tasks follow each other, with fresh ids: at most one live task
-- was not told to stop, and every live task that was not is the run in the slot.
pub Reached-one_running :
    {m : MtuManager} → Reached m → (running m.tasks ≤ 1) × OthersStop m.active m.tasks
Reached-one_running {m = m} r =
    let v = Reached-IsOrderly r in
    (running_le m.active m.tasks v.distinct v.others_stop, v.others_stop)
