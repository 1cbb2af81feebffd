-- ===== src/Opnsense/Monitor/Owners.antt =====
-- Slots, tasks and marks in every interleaving.
use verkkokyyla.Opnsense.Activity.Counts.{
  count, enter-IsRegistry, exit-IsRegistry, count-enter, count-exit,
}
use verkkokyyla.Opnsense.Activity.{OpnsenseActivity, monitor_enter, monitor_exit}
use verkkokyyla.Opnsense.Monitor.Steps.{
  World, nobody, one_more, Step, claims, stops, ends_told, ends_running, unmarks, Steps, done,
  then_step,
}
use verkkokyyla.Opnsense.Monitor.{Monitors, max_monitors, claim_monitor, is_task, exit_task}
use verkkokyyla.Prelude.Assoc.{
  get, contains_key, insert, remove, insert-HasDistinctKeys, remove-HasDistinctKeys, get_absent,
  get_present, contains_key-insert, contains_key-remove, length-insert_absent, length-remove_le,
}
use verkkokyyla.Prelude.Results.{ok}
use verkkokyyla.Prelude.{
  ℕ, ◌+◌, ◌-◌, ◌≤◌, ◌≡◌, refl, true, false, Option, none, some, arith, length, ◌==◌, if◌then◌else◌,
}
use verkkokyyla.Opnsense.Monitor.Invariant.{
  has_slot, owns, IsSound, insert-owned, remove-owned, claim-after, taken-slot, removed-counted,
}

claims-IsSound :
    (w : World) (p t : ℕ) (after : Monitors × OpnsenseActivity)
    → claim_monitor w.inner w.activity p t ≡ ok after
    → contains_key t w.running ≡ false
    → contains_key t w.told ≡ false
    → IsSound w
    → IsSound (record w { inner = after.0; activity = after.1; running = insert t p w.running })
unfolding monitor_enter
claims-IsSound w p t after e new_running new_told v =
    let (free, room, at_after) = claim-after w.inner w.activity p t after e in
    rw at_after (record {
      distinct = insert-HasDistinctKeys p t w.inner v.distinct;
      running_distinct = insert-HasDistinctKeys t p w.running v.running_distinct;
      told_distinct = v.told_distinct;
      apart = λ u h. ground (arith, v.apart u h, contains_key-insert t u p w.running, new_told, h);
      owned = insert-owned p t w.inner w.running free new_running v.owned;
      within = ground (arith, length-insert_absent p t w.inner free, room);
      registry = enter-IsRegistry w.activity.monitors p v.registry;
      counted = λ q. ground (
        arith,
        v.counted q,
        contains_key-insert p q t w.inner,
        count-enter w.activity.monitors p q,
        free,
      );
    })

stops-IsSound :
    (w : World) (p t : ℕ)
    → get p w.inner ≡ some t
    → IsSound w
    → IsSound (record w {
      inner = remove p w.inner;
      running = remove t w.running;
      told = insert t p w.told;
      leaving = one_more p w.leaving;
    })
stops-IsSound w p t e v = record {
  distinct = remove-HasDistinctKeys p w.inner v.distinct;
  running_distinct = remove-HasDistinctKeys t w.running v.running_distinct;
  told_distinct = insert-HasDistinctKeys t p w.told v.told_distinct;
  apart = λ u h. ground (
    arith,
    v.apart u,
    contains_key-remove t u w.running v.running_distinct,
    contains_key-insert t u p w.told,
    h,
  );
  owned = remove-owned p t w.inner w.running v.distinct v.running_distinct e v.owned;
  within = ground (arith, length-remove_le p w.inner, v.within);
  registry = v.registry;
  counted = λ q. removed-counted w p t q v e;
}

-- The task of a slot is not one that was told to stop.
told-exit :
    (w : World) (p t q : ℕ)
    → get t w.told ≡ some q
    → IsSound w
    → exit_task w.inner p t ≡ (false, w.inner)
unfolding exit_task
told-exit w p t q e v =
    ground (arith, v.owned p t, get_absent t w.running (v.apart t (get_present t q w.told e)))

running-exit :
    (w : World) (p t : ℕ)
    → get t w.running ≡ some p
    → IsSound w
    → (get p w.inner ≡ some t) × (exit_task w.inner p t ≡ (true, remove p w.inner))
unfolding exit_task
running-exit w p t e v =
    let slot : get p w.inner ≡ some t = at (get p w.inner) refl (v.owned p t) in
    (slot, ground (arith, slot))
  where
    at : (o : Option ℕ) → get p w.inner ≡ o → is_task o t ≡ owns t p w.running → o ≡ some t
    at none f h = absurd (ground (arith, h, e))
    at (some u) f h = ground (arith, h, e)

ends_told-IsSound :
    (w : World) (p t : ℕ)
    → get t w.told ≡ some p
    → IsSound w
    → IsSound (record w {
      inner = (exit_task w.inner p t).1;
      told = remove t w.told;
      leaving = if (exit_task w.inner p t).0 then one_more p w.leaving else w.leaving;
    })
ends_told-IsSound w p t e v = rw (told-exit w p t p e v) (record {
  distinct = v.distinct;
  running_distinct = v.running_distinct;
  told_distinct = remove-HasDistinctKeys t w.told v.told_distinct;
  apart = λ u h. ground (arith, v.apart u, contains_key-remove t u w.told v.told_distinct, h);
  owned = v.owned;
  within = v.within;
  registry = v.registry;
  counted = v.counted;
})

ends_running-IsSound :
    (w : World) (p t : ℕ)
    → get t w.running ≡ some p
    → IsSound w
    → IsSound (record w {
      inner = (exit_task w.inner p t).1;
      running = remove t w.running;
      leaving = if (exit_task w.inner p t).0 then one_more p w.leaving else w.leaving;
    })
ends_running-IsSound w p t e v =
    let (slot, exit) = running-exit w p t e v in
    rw exit (record {
      distinct = remove-HasDistinctKeys p w.inner v.distinct;
      running_distinct = remove-HasDistinctKeys t w.running v.running_distinct;
      told_distinct = v.told_distinct;
      apart =
          λ u h. ground (arith, v.apart u h, contains_key-remove t u w.running v.running_distinct);
      owned = remove-owned p t w.inner w.running v.distinct v.running_distinct slot v.owned;
      within = ground (arith, length-remove_le p w.inner, v.within);
      registry = v.registry;
      counted = λ q. removed-counted w p t q v slot;
    })

unmarks-IsSound :
    (w : World) (p : ℕ)
    → 1 ≤ w.leaving p
    → IsSound w
    → IsSound (record w {
      activity = monitor_exit w.activity p;
      leaving = λ q. if p == q then w.leaving q - 1 else w.leaving q;
    })
unfolding monitor_exit
unmarks-IsSound w p one v = record {
  distinct = v.distinct;
  running_distinct = v.running_distinct;
  told_distinct = v.told_distinct;
  apart = v.apart;
  owned = v.owned;
  within = v.within;
  registry = exit-IsRegistry w.activity.monitors p v.registry;
  counted = λ q. ground (arith, v.counted q, count-exit w.activity.monitors p q v.registry, one);
}

Step-IsSound : {w x : World} → Step w x → IsSound w → IsSound x
Step-IsSound {w} (claims p t after e a b) v = claims-IsSound w p t after e a b v
Step-IsSound {w} (stops p r e) v =
    let (slot, rest) = taken-slot w.inner p r e in rw rest (stops-IsSound w p r.0 slot v)
Step-IsSound {w} (ends_told p t e) v = ends_told-IsSound w p t e v
Step-IsSound {w} (ends_running p t e) v = ends_running-IsSound w p t e v
Step-IsSound {w} (unmarks p one) v = unmarks-IsSound w p one v

nobody-IsSound : IsSound nobody
nobody-IsSound = record {
  distinct = tt;
  running_distinct = tt;
  told_distinct = tt;
  apart = λ t h. refl;
  owned = λ p t. refl;
  within = omega arith;
  registry = record { distinct = tt; counted = tt };
  counted = λ p. omega arith;
}

reached-IsSound : {w : World} → Steps nobody w → IsSound w
reached-IsSound done = nobody-IsSound
reached-IsSound (then_step s t) = Step-IsSound t (reached-IsSound s)

-- In every state that the calls and tasks can reach, in any interleaving: at most eight monitors
-- have a slot; a task has the slot of a profile exactly if it monitors that profile and nobody told
-- it to stop, so the end of a stopped task never takes the slot of a later one; and the registry
-- counts for each profile its slot and the slots whose mark is still to take back.
pub owners :
    {w : World} (p t : ℕ)
    → Steps nobody w
    → (length w.inner ≤ max_monitors)
      × (is_task (get p w.inner) t ≡ is_task (get t w.running) p)
      × (count p w.activity.monitors ≡ has_slot p w.inner + w.leaving p)
owners p t s = let v = reached-IsSound s in (v.within, v.owned p t, v.counted p)
