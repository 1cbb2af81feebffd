-- ===== src/Mikrotik/Logs/Cursor.antt =====
-- The cursor stands for everything that was shown.
use verkkokyyla.Mikrotik.Logs.{
  LogEntry, log_id_number, backlog_of, later, max_id, is_newer, advanced, fresh_entries, Output,
  started, entries, warning, error, stopped, Turn, stop_changed, polled, emit, log_loop, run_inner,
  max_log_failures,
}
use verkkokyyla.Prelude.Results.{ok, err}
use verkkokyyla.Prelude.{
  ℕ, ◌+◌, ◌≡◌, refl, ap, Bool, true, false, ◌&&◌, List, [], ◌∷◌, ◌++◌, Option, none, some, arith,
  all, filter, filter_same, inl, inr, leb, ltb, if◌then◌else◌, Bool-cases,
}

-- An id below a number, or no number at all.
abbrev pub is_older : ℕ → Option ℕ → Bool
is_older n none = true
is_older n (some m) = ltb m n

abbrev pub older_than : List LogEntry → Option ℕ → Bool
older_than shown none = false
older_than shown (some n) = all (λ x. is_older n (log_id_number x.id)) shown

-- The entry has a number, above that of everything that was shown.
abbrev pub is_new : List LogEntry → LogEntry → Bool
is_new shown entry = older_than shown (log_id_number entry.id)

-- The specification: of each answer, what is new after all that was shown before it.
abbrev pub unseen : List LogEntry → List (List LogEntry) → List (List LogEntry)
unseen shown [] = []
unseen shown (answer ∷ answers) =
    let new = filter (is_new shown) answer in new ∷ unseen (shown ++ new) answers

abbrev pub not_empty : List (List LogEntry) → List (List LogEntry)
not_empty [] = []
not_empty ([] ∷ batches) = not_empty batches
not_empty ((e ∷ es) ∷ batches) = (e ∷ es) ∷ not_empty batches

-- The answers of the polls that succeed, up to a stop or a third failure in a row.
abbrev pub answers_of : ℕ → List Turn → List (List LogEntry)
answers_of streak [] = []
answers_of streak (stop_changed ∷ turns) = []
answers_of streak (polled (ok answer) ∷ turns) = answer ∷ answers_of 0 turns
answers_of streak (polled (err e) ∷ turns) =
    let rest = answers_of (streak + 1) turns in
    if leb max_log_failures (streak + 1) then [] else rest

-- The batches that the interface receives.
abbrev pub batches_of : List Output → List (List LogEntry)
batches_of [] = []
batches_of (started p ∷ outputs) = batches_of outputs
batches_of (entries es ∷ outputs) = es ∷ batches_of outputs
batches_of (warning n e ∷ outputs) = batches_of outputs
batches_of (error e ∷ outputs) = batches_of outputs
batches_of (stopped ∷ outputs) = batches_of outputs

newer_than_max :
    (o : Option ℕ) (shown : List LogEntry) → is_newer o (max_id shown) ≡ older_than shown o
unfolding max_id
newer_than_max none shown = refl
newer_than_max (some n) [] = refl
newer_than_max (some n) (x ∷ xs) = at (log_id_number x.id) (max_id xs) (newer_than_max (some n) xs)
  where
    at :
        (a b : Option ℕ)
        → is_newer (some n) b ≡ older_than xs (some n)
        → is_newer (some n) (later a b) ≡ (is_older n a && older_than xs (some n))
    at none b h = h
    at (some i) none h = ground (arith, h)
    at (some i) (some j) h = rw (← h) (ground arith)

max_id-append : (xs ys : List LogEntry) → max_id (xs ++ ys) ≡ later (max_id xs) (max_id ys)
unfolding max_id
max_id-append [] ys = refl
max_id-append (x ∷ xs) ys =
    rw (max_id-append xs ys) (at (log_id_number x.id) (max_id xs) (max_id ys))
  where
    at : (a b c : Option ℕ) → later a (later b c) ≡ later (later a b) c
    at none b c = refl
    at (some i) none c = refl
    at (some i) (some j) none = refl
    at (some i) (some j) (some k) = ground arith

abbrev is_above : Option ℕ → Option ℕ → Bool
is_above last none = true
is_above none (some m) = true
is_above (some l) (some m) = ltb l m

abbrev newer : Option ℕ → List LogEntry → List LogEntry
newer last es = filter (λ e. is_newer (log_id_number e.id) last) es

max_id-newer :
    (last : Option ℕ) (es : List LogEntry) → is_above last (max_id (newer last es)) ≡ true
unfolding max_id
max_id-newer last [] = refl
max_id-newer last (e ∷ es) = elim (Bool-cases (is_newer (log_id_number e.id) last)) [
  | inl new ↦
      rw new (at (log_id_number e.id) (max_id (newer last es)) last new (max_id-newer last es))
  | inr old ↦ rw old (max_id-newer last es)
]
  where
    at :
        (a b l : Option ℕ)
        → is_newer a l ≡ true
        → is_above l b ≡ true
        → is_above l (later a b) ≡ true
    at none b l n h = cc
    at (some i) none none n h = refl
    at (some i) (some j) none n h = refl
    at (some i) none (some k) n h = n
    at (some i) (some j) (some k) n h = ground (arith, n, h)

advanced-later : (m last : Option ℕ) → is_above last m ≡ true → advanced m last ≡ later last m
advanced-later none none h = refl
advanced-later none (some l) h = refl
advanced-later (some m) none h = refl
advanced-later (some m) (some l) h = ground (arith, h)

-- The cursor that stands for what was shown finds what is new, and stands for it too after that.
fresh_entries-unseen :
    (shown answer : List LogEntry)
    → fresh_entries answer (max_id shown)
      ≡ (filter (is_new shown) answer, max_id (shown ++ filter (is_new shown) answer))
unfolding fresh_entries
fresh_entries-unseen shown answer =
    rw
      (
        ← filter_same (λ e. is_newer (log_id_number e.id) (max_id shown)) (is_new shown)
            (λ e. newer_than_max (log_id_number e.id) shown) answer,
        max_id-append shown (newer (max_id shown) answer),
        advanced-later (max_id (newer (max_id shown) answer)) (max_id shown)
            (max_id-newer (max_id shown) answer),
      )
      refl

batches_of-emit :
    (es : List LogEntry) (outputs : List Output) (batches : List (List LogEntry))
    → batches_of outputs ≡ not_empty batches
    → batches_of (emit es ++ outputs) ≡ not_empty (es ∷ batches)
batches_of-emit [] outputs batches h = h
batches_of-emit (e ∷ es) outputs batches h = ap (λ rest. (e ∷ es) ∷ rest) h

log_loop-unseen :
    (shown : List LogEntry) (failures : ℕ) (turns : List Turn)
    → batches_of (log_loop (record { last_id = max_id shown; failures = failures }) turns).0
      ≡ not_empty (unseen shown (answers_of failures turns))
unfolding log_loop
log_loop-unseen shown failures [] = refl
log_loop-unseen shown failures (stop_changed ∷ turns) = refl
log_loop-unseen shown failures (polled (ok answer) ∷ turns) =
    let new = filter (is_new shown) answer in
    rw (fresh_entries-unseen shown answer)
      (batches_of-emit new _ _ (log_loop-unseen (shown ++ new) 0 turns))
log_loop-unseen shown failures (polled (err e) ∷ turns) =
    elim (Bool-cases (leb max_log_failures (failures + 1))) [
      | inl last ↦ rw last refl
      | inr more ↦ rw more (log_loop-unseen shown (failures + 1) turns)
    ]

-- What a stream sends to the interface is the backlog and then, of the answer of each poll that
-- succeeds before the stream ends, the entries whose number is above that of everything sent
-- before: nothing newer is left out, and no entry of an earlier batch comes again. A batch with no
-- entry is not sent.
pub run_inner-unseen :
    (profile_id : ℕ) (answer : List LogEntry) (turns : List Turn)
    → batches_of (run_inner profile_id (ok answer) turns).0
      ≡ not_empty (backlog_of answer ∷ unseen (backlog_of answer) (answers_of 0 turns))
unfolding run_inner
run_inner-unseen profile_id answer turns =
    batches_of-emit (backlog_of answer) _ _ (log_loop-unseen (backlog_of answer) 0 turns)
