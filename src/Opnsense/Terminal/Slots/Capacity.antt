-- ===== src/Opnsense/Terminal/Slots/Capacity.antt =====
-- The table of terminals and the activity registry in every interleaving of the calls.
use verkkokyyla.Opnsense.Activity.Counts.{
  count, IsRegistry, enter-IsRegistry, exit-IsRegistry, count-enter, count-exit,
}
use verkkokyyla.Opnsense.Activity.{OpnsenseActivity, terminal_enter, terminal_exit}
use verkkokyyla.Opnsense.Terminal.Slots.{
  TerminalInner, max_terminals, reserve, release, insert_terminal, take_terminal, remove_dead,
  removed_at, close, close_at,
}
use verkkokyyla.Opnsense.Terminal.{TerminalError}
use verkkokyyla.Prelude.Assoc.{
  get, contains_key, insert, remove, length-insert_absent, HasDistinctKeys, insert-HasDistinctKeys,
  remove-HasDistinctKeys, length-remove_le,
}
use verkkokyyla.Prelude.Results.{Result, ok, err}
use verkkokyyla.Prelude.{
  ℕ, ◌+◌, ◌-◌, ◌≤◌, ◌<◌, ◌≡◌, refl, inl, inr, false, some, arith, length, ◌==◌, if◌then◌else◌, leb,
  Bool-cases, Option-cases,
}
use verkkokyyla.Opnsense.Terminal.Slots.Steps.{
  World, idle, Step, begins, fails, inserts, marks, ends, takes, unmarks, Steps, done, then_step,
  live, live-insert, live-remove, length-remove, IsWithin, live_within, insert-IsWithin,
  remove-IsWithin, taken-IsWithin, absent_within,
}

pub record IsSound (w : World) : Type 0 where
  pub distinct : HasDistinctKeys w.inner.active
  pub marking_distinct : HasDistinctKeys w.marking
  pub within : IsWithin w.marking w.inner.active
  pub reserved : w.inner.starting ≡ w.connecting + length w.marking + w.releasing
  pub bounded : length w.inner.active + w.connecting ≤ max_terminals
  pub registry : IsRegistry w.activity.terminals
  pub counted :
      (p : ℕ)
      → count p w.activity.terminals + live p w.marking ≡ live p w.inner.active + w.leaving p

reserve-fits :
    (inner next : TerminalInner)
    → reserve inner ≡ ok next
    → (length inner.active + inner.starting < max_terminals)
      × (next ≡ record inner { starting = inner.starting + 1 })
unfolding reserve
reserve-fits inner next e =
    elim (Bool-cases (leb max_terminals (length inner.active + inner.starting))) [
      | inl full ↦ absurd (ground (arith, e, full))
      | inr free ↦ (ground (arith, free), ground (arith, e, free))
    ]

inserts-IsSound :
    (w : World) (k q : ℕ)
    → 1 ≤ w.connecting
    → contains_key k w.inner.active ≡ false
    → IsSound w
    → IsSound (record w {
      inner = insert_terminal w.inner k q;
      connecting = w.connecting - 1;
      marking = insert k q w.marking;
    })
unfolding insert_terminal
inserts-IsSound w k q one new v =
    let new_mark = absent_within k w.marking w.inner.active v.within new in
    record {
      distinct = insert-HasDistinctKeys k q w.inner.active v.distinct;
      marking_distinct = insert-HasDistinctKeys k q w.marking v.marking_distinct;
      within = insert-IsWithin k q w.marking w.inner.active v.within;
      reserved = ground (arith, v.reserved, length-insert_absent k q w.marking new_mark);
      bounded = ground (arith, v.bounded, length-insert_absent k q w.inner.active new);
      registry = v.registry;
      counted = λ p. ground (
        arith,
        v.counted p,
        live-insert p k q w.marking new_mark,
        live-insert p k q w.inner.active new,
      );
    }

marks-IsSound :
    (w : World) (k q : ℕ)
    → get k w.marking ≡ some q
    → IsSound w
    → IsSound (record w {
      activity = terminal_enter w.activity q;
      marking = remove k w.marking;
      releasing = w.releasing + 1;
    })
unfolding terminal_enter
marks-IsSound w k q e v = record {
  distinct = v.distinct;
  marking_distinct = remove-HasDistinctKeys k w.marking v.marking_distinct;
  within = remove-IsWithin k w.marking w.inner.active v.marking_distinct v.within;
  reserved = ground (arith, v.reserved, length-remove k q w.marking e);
  bounded = v.bounded;
  registry = enter-IsRegistry w.activity.terminals q v.registry;
  counted = λ p.
      ground
        (arith, v.counted p, live-remove p k q w.marking e, count-enter w.activity.terminals q p);
}

takes-IsSound :
    (w : World) (k q : ℕ)
    → get k w.inner.active ≡ some q
    → contains_key k w.marking ≡ false
    → IsSound w
    → IsSound (record w {
      inner = take_terminal w.inner k;
      leaving = λ p. if q == p then w.leaving p + 1 else w.leaving p;
    })
unfolding take_terminal
takes-IsSound w k q e absent v = record {
  distinct = remove-HasDistinctKeys k w.inner.active v.distinct;
  marking_distinct = v.marking_distinct;
  within = taken-IsWithin k w.marking w.inner.active v.distinct absent v.within;
  reserved = v.reserved;
  bounded = ground (arith, v.bounded, length-remove_le k w.inner.active);
  registry = v.registry;
  counted = λ p. ground (arith, v.counted p, live-remove p k q w.inner.active e);
}

unmarks-IsSound :
    (w : World) (q : ℕ)
    → 1 ≤ w.leaving q
    → IsSound w
    → IsSound (record w {
      activity = terminal_exit w.activity q;
      leaving = λ p. if q == p then w.leaving p - 1 else w.leaving p;
    })
unfolding terminal_exit
unmarks-IsSound w q one v = record {
  distinct = v.distinct;
  marking_distinct = v.marking_distinct;
  within = v.within;
  reserved = v.reserved;
  bounded = v.bounded;
  registry = exit-IsRegistry w.activity.terminals q v.registry;
  counted = λ p. ground (
    arith,
    v.counted p,
    count-exit w.activity.terminals q p v.registry,
    live_within p w.marking w.inner.active v.marking_distinct v.distinct v.within,
    one,
  );
}

begins-IsSound :
    (w : World) (next : TerminalInner)
    → reserve w.inner ≡ ok next
    → IsSound w
    → IsSound (record w { inner = next; connecting = w.connecting + 1 })
begins-IsSound w next e v =
    let (free, at_next) = reserve-fits w.inner next e in
    rw at_next (record {
      distinct = v.distinct;
      marking_distinct = v.marking_distinct;
      within = v.within;
      reserved = ground (arith, v.reserved);
      bounded = ground (arith, v.reserved, free);
      registry = v.registry;
      counted = v.counted;
    })

Step-IsSound : {w x : World} → Step w x → IsSound w → IsSound x
unfolding release
Step-IsSound {w} (begins next e) v = begins-IsSound w next e v
Step-IsSound {w} (fails one) v = record {
  distinct = v.distinct;
  marking_distinct = v.marking_distinct;
  within = v.within;
  reserved = ground (arith, v.reserved, one);
  bounded = ground (arith, v.bounded);
  registry = v.registry;
  counted = v.counted;
}
Step-IsSound {w} (inserts k q one new) v = inserts-IsSound w k q one new v
Step-IsSound {w} (marks k q e) v = marks-IsSound w k q e v
Step-IsSound {w} (ends one) v = record {
  distinct = v.distinct;
  marking_distinct = v.marking_distinct;
  within = v.within;
  reserved = ground (arith, v.reserved, one);
  bounded = v.bounded;
  registry = v.registry;
  counted = v.counted;
}
Step-IsSound {w} (takes k q e absent) v = takes-IsSound w k q e absent v
Step-IsSound {w} (unmarks q one) v = unmarks-IsSound w q one v

idle-IsSound : IsSound idle
idle-IsSound = record {
  distinct = tt;
  marking_distinct = tt;
  within = λ k q e. absurd cc;
  reserved = omega arith;
  bounded = omega arith;
  registry = record { distinct = tt; counted = tt };
  counted = λ p. omega arith;
}

reached-IsSound : {w : World} → Steps idle w → IsSound w
reached-IsSound done = idle-IsSound
reached-IsSound (then_step s t) = Step-IsSound t (reached-IsSound s)

-- In every state that the calls can reach, in any interleaving: at most eight terminals are in the
-- table, the opens that are still at their connection included; the reserved places are those of
-- the opens that have not released theirs; and the registry counts, for each profile, its terminals
-- in the table, less those not marked yet, and those taken out whose mark is still to take back.
pub capacity :
    {w : World} (p : ℕ)
    → Steps idle w
    → (length w.inner.active + w.connecting ≤ max_terminals)
      × (w.inner.starting ≡ w.connecting + length w.marking + w.releasing)
      × (count p w.activity.terminals + live p w.marking ≡ live p w.inner.active + w.leaving p)
capacity p s = let v = reached-IsSound s in (v.bounded, v.reserved, v.counted p)

abbrev after_close :
    World
    → Result TerminalError (TerminalInner × OpnsenseActivity)
    → TerminalInner × OpnsenseActivity
after_close w (ok after) = after
after_close w (err e) = (w.inner, w.activity)

removal-Steps :
    (w : World) (k q : ℕ)
    → get k w.inner.active ≡ some q
    → contains_key k w.marking ≡ false
    → (x : World) × (Steps w x
        × (x.inner ≡ take_terminal w.inner k)
        × (x.activity ≡ terminal_exit w.activity q))
removal-Steps w k q found absent = (
  _,
  (then_step (then_step done (takes k q found absent)) (unmarks q (ground arith)), refl, refl),
)

-- Both ways of taking a terminal out, a close and the removal of a dead one, are runs of the steps
-- above: whatever they do to the table and to the registry, steps that can be interleaved do.
removals-Steps :
    (w : World) (k : ℕ)
    → contains_key k w.marking ≡ false
    → ((x : World) × (Steps w x × ((x.inner, x.activity) ≡ remove_dead w.inner w.activity k)))
      × ((x : World) × (Steps w x
            × ((x.inner, x.activity) ≡ after_close w (close w.inner w.activity k))))
unfolding remove_dead removed_at close close_at
removals-Steps w k absent = elim (Option-cases (get k w.inner.active)) [
  | inl missing ↦ rw missing ((w, (done, refl)), (w, (done, refl)))
  | inr (q, found) ↦
      let (x, (s, i, a)) = removal-Steps w k q found absent in
      rw found ((x, (s, (ground (arith, i, a)))), (x, (s, (ground (arith, i, a)))))
]
