-- ===== src/Mikrotik/Logs/Streaks.antt =====
-- When a stream of logs ends.
use verkkokyyla.Mikrotik.Logs.{
  LogEntry, fresh_entries, backlog_of, max_id, Output, started, entries, warning, error, stopped,
  End, running, finished, failed, Turn, stop_changed, polled, emit, log_loop, run_inner,
  max_log_failures,
}
use verkkokyyla.Prelude.Results.{ok, err}
use verkkokyyla.Prelude.Text.{Text}
use verkkokyyla.Prelude.{
  Bool-cases, inl, inr, ℕ, ◌+◌, ◌≡◌, ◌∙◌, refl, ap, List, [], ◌∷◌, ◌++◌, Option, none, some, leb,
}

abbrev two_failures : List Turn → Option Text
two_failures (polled (err b) ∷ polled (err c) ∷ turns) = some c
two_failures _ = none

abbrev or_else : Option Text → End → End
or_else (some e) end = failed e
or_else none end = end

-- The specification: the first stop, or the first three failures next to each other.
abbrev pub ends_at : List Turn → End
ends_at [] = running
ends_at (stop_changed ∷ turns) = finished
ends_at (polled (ok answer) ∷ turns) = ends_at turns
ends_at (polled (err a) ∷ turns) = or_else (two_failures turns) (ends_at turns)

-- The outputs after which the interface expects nothing more.
abbrev pub closing : List Output → List Output
closing [] = []
closing (started p ∷ outputs) = closing outputs
closing (entries es ∷ outputs) = closing outputs
closing (warning n e ∷ outputs) = closing outputs
closing (error e ∷ outputs) = error e ∷ closing outputs
closing (stopped ∷ outputs) = stopped ∷ closing outputs

abbrev pub closing_of : End → List Output
closing_of running = []
closing_of finished = stopped ∷ []
closing_of (failed e) = error e ∷ []

closing-emit :
    (es : List LogEntry) (outputs : List Output) → closing (emit es ++ outputs) ≡ closing outputs
closing-emit [] outputs = refl
closing-emit (e ∷ es) outputs = refl

abbrev loop_at : Option ℕ → ℕ → List Turn → List Output × End
loop_at last_id failures turns = log_loop (record { last_id = last_id; failures = failures }) turns

-- With no failure, one failure and two failures behind it.
abbrev EndsRight : List Turn → Type 0
EndsRight turns =
    (last_id : Option ℕ) (x y : Text)
    → ((loop_at last_id 0 turns).1 ≡ ends_at turns)
      × ((loop_at last_id 1 turns).1 ≡ ends_at (polled (err x) ∷ turns))
      × ((loop_at last_id 2 turns).1 ≡ ends_at (polled (err y) ∷ polled (err x) ∷ turns))

log_loop-EndsRight : (turns : List Turn) → EndsRight turns
unfolding log_loop
log_loop-EndsRight [] last_id x y = (refl, refl, refl)
log_loop-EndsRight (stop_changed ∷ turns) last_id x y = (refl, refl, refl)
log_loop-EndsRight (polled (ok answer) ∷ turns) last_id x y =
    let h = (log_loop-EndsRight turns (fresh_entries answer last_id).1 x y).0 in (h, h, h)
log_loop-EndsRight (polled (err e) ∷ turns) last_id x y =
    let (a, b, c) = log_loop-EndsRight turns last_id e x in (b, c, refl)

log_loop-closing :
    (last_id : Option ℕ) (failures : ℕ) (turns : List Turn)
    → closing (loop_at last_id failures turns).0 ≡ closing_of (loop_at last_id failures turns).1
unfolding log_loop
log_loop-closing last_id failures [] = refl
log_loop-closing last_id failures (stop_changed ∷ turns) = refl
log_loop-closing last_id failures (polled (ok answer) ∷ turns) =
    let fresh = fresh_entries answer last_id in
    closing-emit fresh.0 _ ∙ log_loop-closing fresh.1 0 turns
log_loop-closing last_id failures (polled (err e) ∷ turns) =
    elim (Bool-cases (leb max_log_failures (failures + 1))) [
      | inl last ↦ rw last refl
      | inr more ↦ rw more (log_loop-closing last_id (failures + 1) turns)
    ]

-- A stream whose backlog came ends at its first stop or at the first three polls in a row that
-- fail, whichever is first, and runs on as long as neither comes; and the interface receives a
-- closing status exactly when it ends, once, `Stopped` for a stop and `Error` for the failures.
pub run_inner-ends_at :
    (profile_id : ℕ) (answer : List LogEntry) (turns : List Turn)
    → ((run_inner profile_id (ok answer) turns).1 ≡ ends_at turns)
      × (closing (run_inner profile_id (ok answer) turns).0 ≡ closing_of (ends_at turns))
unfolding run_inner
run_inner-ends_at profile_id answer turns =
    let backlog = backlog_of answer in
    let right = (log_loop-EndsRight turns (max_id backlog) [] []).0 in
    (
      right,
      closing-emit backlog _ ∙ log_loop-closing (max_id backlog) 0 turns ∙ ap closing_of right,
    )
