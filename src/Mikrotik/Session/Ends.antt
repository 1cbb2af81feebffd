-- ===== src/Mikrotik/Session/Ends.antt =====
-- When and how a polling session ends while the database takes its writes.
use mathlib.Core.List.{append_assoc, append-nil}
use verkkokyyla.Mikrotik.Session.{
  Effect, snapshot_event, insert_snapshot, Turn, stop_changed, core_failed, sampled, Answers,
  LoopEnd, polling, broke, db_failed, RunEnd, running, stopped, max_core_failures, persist_identity,
  store_snapshot, poll_loop, finish_session, first_state, run_session, Looped,
}
use verkkokyyla.Prelude.Text.{Text, codes}
use verkkokyyla.Prelude.{
  Bool-cases, inl, inr, ℕ, ◌+◌, ◌≡◌, ◌∙◌, refl, ap, sym, Bool, true, false, List, [], ◌∷◌, ◌++◌,
  Option, none, arith, leb, if◌then◌else◌,
}

-- The specification of the end: the first stop, or the first three failed ticks next to each other;
-- with the number of samples before it.
pub data Verdict : Type 0 where
  goes_on : Verdict
  ends : Bool → ℕ → Verdict

abbrev pub after_sample : Verdict → Verdict
after_sample goes_on = goes_on
after_sample (ends stop n) = ends stop (n + 1)

module _ {P : Type 0} where
  abbrev pub two_failures : List (Turn P) → Bool
  two_failures (core_failed a b ∷ core_failed c d ∷ turns) = true
  two_failures _ = false

  abbrev pub verdict : List (Turn P) → Verdict
  verdict [] = goes_on
  verdict (stop_changed ∷ turns) = ends true 0
  verdict (sampled p ∷ turns) = after_sample (verdict turns)
  verdict (core_failed a b ∷ turns) = if two_failures turns then ends false 0 else verdict turns

  -- The snapshots before the end.
  abbrev pub samples : ℕ → List (Turn P) → List P
  samples streak [] = []
  samples streak (stop_changed ∷ turns) = []
  samples streak (sampled p ∷ turns) = p ∷ samples 0 turns
  samples streak (core_failed a b ∷ turns) =
      let rest = samples (streak + 1) turns in
      if leb max_core_failures (streak + 1) then [] else rest

  -- The snapshots that the interface receives, and those that are stored.
  abbrev pub shown_of : Effect P → List P
  shown_of (snapshot_event p) = p ∷ []
  shown_of _ = []

  abbrev pub saved_of : Effect P → List P
  saved_of (insert_snapshot p) = p ∷ []
  saved_of _ = []

  abbrev pub picked : (Effect P → List P) → List (Effect P) → List P
  picked pick [] = []
  picked pick (e ∷ effects) = pick e ++ picked pick effects

  picked-append :
      (pick : Effect P → List P) (xs ys : List (Effect P))
      → picked pick (xs ++ ys) ≡ picked pick xs ++ picked pick ys
  picked-append pick [] ys = refl
  picked-append pick (x ∷ xs) ys =
      rw (picked-append pick xs ys) (sym (append_assoc (pick x) (picked pick xs) (picked pick ys)))

-- Whether a session is live after a verdict.
abbrev pub live_after : Verdict → Bool → Bool
live_after goes_on live = live
live_after (ends stop n) live = false

-- The loop's end for a verdict, after some samples.
abbrev loop_end : ℕ → Verdict → LoopEnd
loop_end count goes_on = polling
loop_end count (ends stop n) = broke stop (count + n)

loop_end-after_sample :
    (count : ℕ) (v : Verdict) → loop_end (count + 1) v ≡ loop_end count (after_sample v)
loop_end-after_sample count goes_on = refl
loop_end-after_sample count (ends stop n) = ap (broke stop) (omega arith)

-- How a run ends for a verdict.
abbrev pub run_end : Verdict → RunEnd
run_end goes_on = running
run_end (ends stop n) =
    stopped
      (record { snapshot_count = n; status = if stop then codes "cancelled" else codes "error" })

finish-end :
    (P : Type 0) (db : Answers) (v : Verdict)
    → db.completed ≡ true
    → (finish_session {P = P} db (loop_end 0 v)).1 ≡ run_end v
finish-end P db goes_on complete_ok = refl
finish-end P db (ends true n) complete_ok =
    rw complete_ok
      (ap (λ m. stopped (record { snapshot_count = m; status = codes "cancelled" })) (omega arith))
finish-end P db (ends false n) complete_ok =
    rw complete_ok
      (ap (λ m. stopped (record { snapshot_count = m; status = codes "error" })) (omega arith))

module _ {P : Type 0} (db : Answers) (identity_ok : db.identity_set ≡ true)
    (insert_ok : (n : ℕ) → db.inserted n ≡ true) (complete_ok : db.completed ≡ true) where
  abbrev loop_at : Bool → ℕ → ℕ → List (Turn P) → Looped P
  loop_at known count failures turns =
      poll_loop db
        (record {
          core_failures = failures;
          snapshot_count = count;
          resource_identity_persisted = known;
        })
        turns

  -- With no failure, one failure and two failures behind it.
  abbrev EndsRight : List (Turn P) → Type 0
  EndsRight turns =
      (known : Bool) (count : ℕ) (a b c d : Option Text)
      → ((loop_at known count 0 turns).1 ≡ loop_end count (verdict turns))
        × ((loop_at known count 1 turns).1 ≡ loop_end count (verdict (core_failed a b ∷ turns)))
        × ((loop_at known count 2 turns).1
            ≡ loop_end count (verdict (core_failed c d ∷ core_failed a b ∷ turns)))

  sampled-end :
      (known : Bool) (count : ℕ) (p : P) (rest : Looped P)
      → (persist_identity db known p (store_snapshot db count p rest)).1 ≡ rest.1
  sampled-end true count p rest = rw (insert_ok count) refl
  sampled-end false count p rest = rw (identity_ok, insert_ok count) refl

  poll_loop-EndsRight : (turns : List (Turn P)) → EndsRight turns
  unfolding poll_loop
  poll_loop-EndsRight [] known count a b c d = (refl, refl, refl)
  poll_loop-EndsRight (stop_changed ∷ turns) known count a b c d =
      let e : broke true count ≡ broke true (count + 0) = ap (broke true) (omega arith) in (e, e, e)
  poll_loop-EndsRight (sampled p ∷ turns) known count a b c d =
      let h =
        sampled-end known count p (loop_at true (count + 1) 0 turns)
        ∙ (poll_loop-EndsRight turns true (count + 1) a b c d).0
        ∙ loop_end-after_sample count (verdict turns) in
      (h, h, h)
  poll_loop-EndsRight (core_failed e f ∷ turns) known count a b c d =
      let (x, y, z) = poll_loop-EndsRight turns known count e f a b in
      (y, z, ap (broke false) (omega arith))

  sampled-picked :
      (known : Bool) (count : ℕ) (p : P) (rest : Looped P)
      → (picked shown_of (persist_identity db known p (store_snapshot db count p rest)).0
          ≡ p ∷ picked shown_of rest.0)
        × (picked saved_of (persist_identity db known p (store_snapshot db count p rest)).0
            ≡ p ∷ picked saved_of rest.0)
  sampled-picked true count p rest = rw (insert_ok count) (refl, refl)
  sampled-picked false count p rest = rw (identity_ok, insert_ok count) (refl, refl)

  poll_loop-samples :
      (turns : List (Turn P)) (known : Bool) (count failures : ℕ)
      → (picked shown_of (loop_at known count failures turns).0 ≡ samples failures turns)
        × (picked saved_of (loop_at known count failures turns).0 ≡ samples failures turns)
  unfolding poll_loop
  poll_loop-samples [] known count failures = (refl, refl)
  poll_loop-samples (stop_changed ∷ turns) known count failures = (refl, refl)
  poll_loop-samples (sampled p ∷ turns) known count failures =
      let (e, r) = sampled-picked known count p (loop_at true (count + 1) 0 turns) in
      let (f, q) = poll_loop-samples turns true (count + 1) 0 in
      (e ∙ ap (λ ps. p ∷ ps) f, r ∙ ap (λ ps. p ∷ ps) q)
  poll_loop-samples (core_failed a b ∷ turns) known count failures =
      elim (Bool-cases (leb max_core_failures (failures + 1))) [
        | inl last ↦ rw last (refl, refl)
        | inr more ↦ rw more (poll_loop-samples turns known count (failures + 1))
      ]

  finish-picked :
      (end : LoopEnd)
      → (picked shown_of (finish_session {P = P} db end).0 ≡ [])
        × (picked saved_of (finish_session {P = P} db end).0 ≡ [])
  finish-picked polling = (refl, refl)
  finish-picked db_failed = (refl, refl)
  finish-picked (broke true n) = rw complete_ok (refl, refl)
  finish-picked (broke false n) = rw complete_ok (refl, refl)

  -- With a database that takes every write, a session runs until its first stop or the first three
  -- failed ticks next to each other, whichever comes first. It then ends with a result, cancelled or
  -- error, and with the number of its samples; the interface received, and the database stored, the
  -- snapshots of all samples up to the end, each once and in order.
  pub run_session-ends :
      (turns : List (Turn P))
      → ((run_session db turns).1 ≡ run_end (verdict turns))
        × (picked shown_of (run_session db turns).0 ≡ samples 0 turns)
        × (picked saved_of (run_session db turns).0 ≡ samples 0 turns)
  unfolding run_session
  run_session-ends turns =
      let looped = poll_loop db first_state turns in
      let end = (poll_loop-EndsRight turns false 0 none none none none).0 in
      let (e, r) = poll_loop-samples turns false 0 0 in
      let (f, q) = finish-picked looped.1 in
      (
        ap (λ x. (finish_session {P = P} db x).1) end ∙ finish-end P db (verdict turns) complete_ok,
        rw (picked-append shown_of looped.0 (finish_session db looped.1).0, e, f)
            (append-nil (samples 0 turns)),
        rw (picked-append saved_of looped.0 (finish_session db looped.1).0, r, q)
            (append-nil (samples 0 turns)),
      )
