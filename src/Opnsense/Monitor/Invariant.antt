-- ===== src/Opnsense/Monitor/Invariant.antt =====
-- What holds of slots, tasks and marks, and what taking or giving a slot does to it.
use verkkokyyla.Opnsense.Activity.Counts.{count, IsRegistry}
use verkkokyyla.Opnsense.Activity.{OpnsenseActivity, monitor_enter}
use verkkokyyla.Opnsense.Monitor.Steps.{World, one_more}
use verkkokyyla.Opnsense.Monitor.{
  Monitors, max_monitors, MonitorError, monitor_guard, claim_monitor, taken, take_monitor, is_task,
}
use verkkokyyla.Prelude.Assoc.{
  get, contains_key, insert, remove, HasDistinctKeys, get-insert, get-remove, get_absent,
  get_present, contains_key-remove,
}
use verkkokyyla.Prelude.Results.{Result, ok, err, ◌>>=◌}
use verkkokyyla.Prelude.{
  ℕ, ◌+◌, ◌≤◌, ◌<◌, ◌≡◌, refl, inl, inr, Bool, true, false, List, Option, none, some, arith, length,
  leb, if◌then◌else◌, Bool-cases,
}

abbrev pub has_slot : ℕ → Monitors → ℕ
has_slot p inner = if contains_key p inner then 1 else 0

abbrev pub owns : ℕ → ℕ → List (ℕ × ℕ) → Bool
owns p t m = is_task (get p m) t

pub record IsSound (w : World) : Type 0 where
  pub distinct : HasDistinctKeys w.inner
  pub running_distinct : HasDistinctKeys w.running
  pub told_distinct : HasDistinctKeys w.told
  pub apart : (t : ℕ) → contains_key t w.told ≡ true → contains_key t w.running ≡ false
  pub owned : (p t : ℕ) → owns p t w.inner ≡ owns t p w.running
  pub within : length w.inner ≤ max_monitors
  pub registry : IsRegistry w.activity.monitors
  pub counted : (p : ℕ) → count p w.activity.monitors ≡ has_slot p w.inner + w.leaving p

pub insert-owned :
    (p t : ℕ) (inner running : List (ℕ × ℕ))
    → contains_key p inner ≡ false
    → contains_key t running ≡ false
    → ((q u : ℕ) → owns q u inner ≡ owns u q running)
    → (q u : ℕ) → owns q u (insert p t inner) ≡ owns u q (insert t p running)
insert-owned p t inner running free new owned q u = ground (
  arith,
  get-insert p q t inner,
  get-insert t u p running,
  get_absent p inner free,
  get_absent t running new,
  owned q u,
)

pub remove-owned :
    (p t : ℕ) (inner running : List (ℕ × ℕ))
    → HasDistinctKeys inner
    → HasDistinctKeys running
    → get p inner ≡ some t
    → ((q u : ℕ) → owns q u inner ≡ owns u q running)
    → (q u : ℕ) → owns q u (remove p inner) ≡ owns u q (remove t running)
remove-owned p t inner running d e at_p owned q u =
    ground (arith, get-remove p q inner d, get-remove t u running e, at_p, owned q u, owned p t)

guard-free :
    (inner : Monitors) (p : ℕ) (u : Unit {0})
    → monitor_guard inner p ≡ ok u
    → (contains_key p inner ≡ false) × (length inner < max_monitors)
unfolding monitor_guard
guard-free inner p u e = elim (Bool-cases (contains_key p inner)) [
  | inl busy ↦ absurd (ground (arith, e, busy))
  | inr free ↦ elim (Bool-cases (leb max_monitors (length inner))) [
    | inl full ↦ absurd (ground (arith, e, free, full))
    | inr room ↦ (free, ground (arith, room))
  ]
]

pub claim-after :
    (inner : Monitors) (activity : OpnsenseActivity) (p t : ℕ) (after : Monitors × OpnsenseActivity)
    → claim_monitor inner activity p t ≡ ok after
    → (contains_key p inner ≡ false)
      × (length inner < max_monitors)
      × (after ≡ (insert p t inner, monitor_enter activity p))
unfolding claim_monitor
claim-after inner activity p t after e = at (monitor_guard inner p) refl e
  where
    at :
        (r : Result MonitorError (Unit {0}))
        → monitor_guard inner p ≡ r
        → (r >>= (λ free. ok (insert p t inner, monitor_enter activity p))) ≡ ok after
        → (contains_key p inner ≡ false)
          × (length inner < max_monitors)
          × (after ≡ (insert p t inner, monitor_enter activity p))
    at (ok u) f g = let (free, room) = guard-free inner p u f in (free, room, ground (arith, g))
    at (err x) f g = absurd cc

pub taken-slot :
    (inner : Monitors) (p : ℕ) (r : ℕ × Monitors)
    → take_monitor inner p ≡ ok r
    → (get p inner ≡ some r.0) × (r.1 ≡ remove p inner)
unfolding take_monitor taken
taken-slot inner p r e = at (get p inner) e
  where
    at : (o : Option ℕ) → taken o inner p ≡ ok r → (o ≡ some r.0) × (r.1 ≡ remove p inner)
    at none e = absurd cc
    at (some t) e = (ground (arith, e), ground (arith, e))

-- What a slot that is taken leaves sound, whatever becomes of its task.
pub removed-counted :
    (w : World) (p t q : ℕ)
    → IsSound w
    → get p w.inner ≡ some t
    → count q w.activity.monitors ≡ has_slot q (remove p w.inner) + one_more p w.leaving q
removed-counted w p t q v e =
    ground
      (arith, v.counted q, contains_key-remove p q w.inner v.distinct, get_present p t w.inner e)
