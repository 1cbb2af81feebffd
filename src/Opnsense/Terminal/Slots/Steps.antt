-- ===== src/Opnsense/Terminal/Slots/Steps.antt =====
-- The steps of the tasks that share the table of terminals and the activity registry.
use verkkokyyla.Opnsense.Activity.{OpnsenseActivity, no_activity, terminal_enter, terminal_exit}
use verkkokyyla.Opnsense.Terminal.Slots.{
  Terminals, TerminalInner, reserve, release, insert_terminal, take_terminal,
}
use verkkokyyla.Prelude.Assoc.{
  get, contains_key, insert, remove, HasDistinctKeys, remove-HasDistinctKeys, get-insert,
  get-remove, get_absent,
}
use verkkokyyla.Prelude.Results.{ok}
use verkkokyyla.Prelude.{
  ℕ, ◌+◌, ◌-◌, ◌≤◌, ◌≡◌, refl, inl, inr, false, [], ◌∷◌, none, some, arith, length, ◌==◌,
  if◌then◌else◌, Option-cases,
}

-- The table and the registry, with what the tasks under way are about: how many opens are at their
-- connection; the terminals that are in the table and not yet marked in the registry; how many
-- opens have marked theirs and not yet released their place; and, for each profile, how many
-- terminals are out of the table with their mark still to take back.
pub record World : Type 0 where
  pub inner : TerminalInner
  pub activity : OpnsenseActivity
  pub connecting : ℕ
  pub marking : Terminals
  pub releasing : ℕ
  pub leaving : ℕ → ℕ

abbrev pub idle : World
idle = record {
  inner = record { active = []; starting = 0 };
  activity = no_activity;
  connecting = 0;
  marking = [];
  releasing = 0;
  leaving = λ p. 0;
}

-- What a task does under one lock. An id is new when its terminal is inserted; until the mark is
-- made the caller does not know the id and the reader waits, so nobody else removes the terminal.
pub data Step : World → World → Type 0 where
  begins :
      {w : World}
      → (next : TerminalInner) → reserve w.inner ≡ ok next
      → Step w (record w { inner = next; connecting = w.connecting + 1 })
  fails :
      {w : World}
      → 1 ≤ w.connecting
      → Step w (record w { inner = release w.inner; connecting = w.connecting - 1 })
  inserts :
      {w : World}
      → (terminal_id profile_id : ℕ) → 1 ≤ w.connecting
      → contains_key terminal_id w.inner.active ≡ false
      → Step w (record w {
        inner = insert_terminal w.inner terminal_id profile_id;
        connecting = w.connecting - 1;
        marking = insert terminal_id profile_id w.marking;
      })
  marks :
      {w : World}
      → (terminal_id profile_id : ℕ) → get terminal_id w.marking ≡ some profile_id
      → Step w (record w {
        activity = terminal_enter w.activity profile_id;
        marking = remove terminal_id w.marking;
        releasing = w.releasing + 1;
      })
  ends :
      {w : World}
      → 1 ≤ w.releasing
      → Step w (record w { inner = release w.inner; releasing = w.releasing - 1 })
  takes :
      {w : World}
      → (terminal_id profile_id : ℕ) → get terminal_id w.inner.active ≡ some profile_id
      → contains_key terminal_id w.marking ≡ false
      → Step w (record w {
        inner = take_terminal w.inner terminal_id;
        leaving = λ p. if profile_id == p then w.leaving p + 1 else w.leaving p;
      })
  unmarks :
      {w : World}
      → (profile_id : ℕ) → 1 ≤ w.leaving profile_id
      → Step w (record w {
        activity = terminal_exit w.activity profile_id;
        leaving = λ p. if profile_id == p then w.leaving p - 1 else w.leaving p;
      })

pub data Steps : World → World → Type 0 where
  done : {w : World} → Steps w w
  then_step : {u v w : World} → Steps u v → Step v w → Steps u w

-- How many terminals of the table are of a profile.
abbrev pub live : ℕ → Terminals → ℕ
live p [] = 0
live p ((k, q) ∷ m) = if q == p then live p m + 1 else live p m

pub live-insert :
    (p k q : ℕ) (m : Terminals)
    → contains_key k m ≡ false
    → live p (insert k q m) ≡ (if q == p then live p m + 1 else live p m)
live-insert p k q [] h = ground arith
live-insert p k q ((j, i) ∷ m) h = ground (arith, live-insert p k q m)

pub live-remove :
    (p k q : ℕ) (m : Terminals)
    → get k m ≡ some q
    → live p m ≡ (if q == p then live p (remove k m) + 1 else live p (remove k m))
live-remove p k q [] h = cc
live-remove p k q ((j, i) ∷ m) h = ground (arith, live-remove p k q m)

pub length-remove :
    (k q : ℕ) (m : Terminals) → get k m ≡ some q → length m ≡ length (remove k m) + 1
length-remove k q [] h = cc
length-remove k q ((j, i) ∷ m) h = ground (arith, length-remove k q m)

-- Every entry of the one is an entry of the other.
abbrev pub IsWithin : Terminals → Terminals → Type 0
IsWithin m n = (k q : ℕ) → get k m ≡ some q → get k n ≡ some q

rest-IsWithin :
    (k q : ℕ) (m n : Terminals)
    → HasDistinctKeys ((k, q) ∷ m)
    → HasDistinctKeys n
    → IsWithin ((k, q) ∷ m) n
    → IsWithin m (remove k n)
rest-IsWithin k q m n d dn within j i e =
    ground (arith, within j i, get-remove k j n dn, get_absent k m d.0, e)

pub live_within :
    (p : ℕ) (m n : Terminals)
    → HasDistinctKeys m
    → HasDistinctKeys n
    → IsWithin m n
    → live p m ≤ live p n
live_within p [] n d dn within = omega arith
live_within p ((k, q) ∷ m) n d dn within =
    let at_k : get k n ≡ some q = within k q (ground arith) in
    let rest =
      live_within p m (remove k n) d.1 (remove-HasDistinctKeys k n dn)
        (rest-IsWithin k q m n d dn within) in
    ground (arith, rest, live-remove p k q n at_k)

pub insert-IsWithin :
    (k q : ℕ) (m n : Terminals) → IsWithin m n → IsWithin (insert k q m) (insert k q n)
insert-IsWithin k q m n within j i e =
    ground (arith, get-insert k j q m, get-insert k j q n, within j i, e)

pub remove-IsWithin :
    (k : ℕ) (m n : Terminals) → HasDistinctKeys m → IsWithin m n → IsWithin (remove k m) n
remove-IsWithin k m n d within j i e = ground (arith, get-remove k j m d, within j i, e)

pub taken-IsWithin :
    (k : ℕ) (m n : Terminals)
    → HasDistinctKeys n
    → contains_key k m ≡ false
    → IsWithin m n
    → IsWithin m (remove k n)
taken-IsWithin k m n d absent within j i e =
    ground (arith, get-remove k j n d, within j i, get_absent k m absent, e)

absent_of : (k : ℕ) (m : Terminals) → get k m ≡ none → contains_key k m ≡ false
absent_of k [] e = refl
absent_of k ((j, q) ∷ m) e = ground (arith, absent_of k m)

pub absent_within :
    (k : ℕ) (m n : Terminals) → IsWithin m n → contains_key k n ≡ false → contains_key k m ≡ false
absent_within k m n within absent = elim (Option-cases (get k m)) [
  | inl missing ↦ absent_of k m missing
  | inr (q, e) ↦ absurd (let x = within k q e in let y = get_absent k n absent in cc)
]
