-- ===== src/Mikrotik/Session/Leaks.antt =====
-- What a run leaves of its slot in the table of sessions.
use verkkokyyla.Mikrotik.Manager.{Active, clear_active, is_active_session}
use verkkokyyla.Mikrotik.Session.{
  Effect, Turn, stop_changed, core_failed, sampled, Answers, SessionState, LoopEnd, polling, broke,
  db_failed, RunEnd, running, stopped, failed, max_core_failures, persist_identity, store_snapshot,
  poll_loop, finish_session, first_state, run_session, releases, slots_after, Looped,
}
use verkkokyyla.Prelude.{
  Bool-cases, inl, inr, ℕ, ◌+◌, ◌≡◌, refl, Bool, true, false, List, [], ◌∷◌, ◌++◌, arith, leb,
  if◌then◌else◌,
}

is_active_session-clear_active :
    (id : ℕ) (active : Active) → is_active_session (clear_active active id) id ≡ false
unfolding clear_active is_active_session
is_active_session-clear_active id [] = refl
is_active_session-clear_active id ((k, a) ∷ active) =
    ground (arith, is_active_session-clear_active id active)

-- The slots at the end of the loop: it releases its own only after the third failure.
abbrev at_end : ℕ → Active → LoopEnd → Active
at_end id active polling = active
at_end id active db_failed = active
at_end id active (broke true n) = active
at_end id active (broke false n) = clear_active active id

abbrev pub SlotAfter : ℕ → Active → Active → RunEnd → LoopEnd → Type 0
SlotAfter id active later (stopped dto) end = is_active_session later id ≡ false
SlotAfter id active later running end = later ≡ active
SlotAfter id active later failed db_failed = later ≡ active
SlotAfter id active later failed (broke stop n) = Unit
SlotAfter id active later failed polling = Unit

finish-SlotAfter :
    (P : Type 0) (id : ℕ) (db : Answers) (active : Active) (end : LoopEnd)
    → SlotAfter id active
        (slots_after id (at_end id active end) (finish_session {P = P} db end).0)
        (finish_session {P = P} db end).1
        end
unfolding slots_after
finish-SlotAfter P id db active polling = refl
finish-SlotAfter P id db active db_failed = refl
finish-SlotAfter P id db active (broke true n) = elim (Bool-cases db.completed) [
  | inl completed ↦ rw completed (is_active_session-clear_active id active)
  | inr incomplete ↦ rw incomplete tt
]
finish-SlotAfter P id db active (broke false n) = elim (Bool-cases db.completed) [
  | inl completed ↦ rw completed (is_active_session-clear_active id (clear_active active id))
  | inr incomplete ↦ rw incomplete tt
]

module _ {P : Type 0} (id : ℕ) where
  slots_after-append :
      (active : Active) (xs ys : List (Effect P))
      → slots_after id active (xs ++ ys) ≡ slots_after id (slots_after id active xs) ys
  unfolding slots_after
  slots_after-append active [] ys = refl
  slots_after-append active (x ∷ xs) ys =
      slots_after-append (if releases x then clear_active active id else active) xs ys

  module _ (db : Answers) where
    sampled-slots :
        (active : Active) (known : Bool) (count : ℕ) (p : P) (rest : Looped P)
        → slots_after id active rest.0 ≡ at_end id active rest.1
        → slots_after id active (persist_identity db known p (store_snapshot db count p rest)).0
          ≡ at_end id active (persist_identity db known p (store_snapshot db count p rest)).1
    unfolding slots_after
    sampled-slots active true count p rest h = elim (Bool-cases (db.inserted count)) [
      | inl stored ↦ rw stored h
      | inr refused ↦ rw refused refl
    ]
    sampled-slots active false count p rest h = elim (Bool-cases db.identity_set) [
      | inl known ↦ rw known (elim (Bool-cases (db.inserted count)) [
        | inl stored ↦ rw stored h
        | inr refused ↦ rw refused refl
      ])
      | inr unknown ↦ rw unknown refl
    ]

    poll_loop-slots :
        (turns : List (Turn P)) (active : Active) (s : SessionState)
        → slots_after id active (poll_loop db s turns).0 ≡ at_end id active (poll_loop db s turns).1
    unfolding poll_loop slots_after
    poll_loop-slots [] active s = refl
    poll_loop-slots (stop_changed ∷ turns) active s = refl
    poll_loop-slots (sampled p ∷ turns) active s =
        sampled-slots active s.resource_identity_persisted s.snapshot_count p _ (
          poll_loop-slots turns active (record {
            core_failures = 0;
            snapshot_count = s.snapshot_count + 1;
            resource_identity_persisted = true;
          }))
    poll_loop-slots (core_failed a b ∷ turns) active s =
        elim (Bool-cases (leb max_core_failures (s.core_failures + 1))) [
          | inl last ↦ rw last refl
          | inr more ↦
              rw more
                (poll_loop-slots turns active (record s { core_failures = s.core_failures + 1 }))
        ]

    -- A run that ends with a result leaves its session out of the table. One that is ended by an error
    -- of the database in its loop leaves the table as it was: the session stays in it although no
    -- task polls it any more. A run that goes on has released nothing.
    pub run_session-SlotAfter :
        (turns : List (Turn P)) (active : Active)
        → SlotAfter id active
            (slots_after id active (run_session db turns).0)
            (run_session db turns).1
            (poll_loop db first_state turns).1
    unfolding run_session slots_after
    run_session-SlotAfter turns active =
        let looped = poll_loop db first_state turns in
        rw
          (
            slots_after-append active looped.0 (finish_session db looped.1).0,
            poll_loop-slots turns active first_state,
          )
          (finish-SlotAfter P id db active looped.1)
