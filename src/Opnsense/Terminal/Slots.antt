-- ===== src/Opnsense/Terminal/Slots.antt =====
-- opnsense/terminal.rs: the table of terminals, at most eight with the ones that are being opened.
-- Each function here runs under one lock. The id of a terminal is a random text that is never used
-- again, and is only ever compared: a natural number here.
pub mod Capacity
pub mod Steps
use verkkokyyla.Opnsense.Activity.{OpnsenseActivity, terminal_enter, terminal_exit}
use verkkokyyla.Opnsense.Terminal.{
  TerminalError, too_many_terminals, terminal_not_found, connect_error,
}
use verkkokyyla.Prelude.Assoc.{get, contains_key, insert, remove}
use verkkokyyla.Prelude.Results.{Result, ok, err, ◌>>=◌}
use verkkokyyla.Prelude.{
  ℕ, ◌+◌, ◌-◌, Bool, true, false, List, Option, none, some, length, leb, ltb, if◌then◌else◌,
}

abbrev pub max_terminals : ℕ
max_terminals = 8

-- 64 KiB.
abbrev pub max_write_bytes : ℕ
max_write_bytes = 65536

-- Of an `ActiveTerminal`, the profile: the rest are handles of the connection.
abbrev pub Terminals : Type 0
Terminals = List (ℕ × ℕ)

pub record TerminalInner : Type 0 where
  pub active : Terminals
  pub starting : ℕ

-- `open` up to the connection: the place that it reserves.
unfoldable pub reserve : TerminalInner → Result TerminalError TerminalInner
reserve inner =
    if leb max_terminals (length inner.active + inner.starting)
    then err too_many_terminals
    else ok (record inner { starting = inner.starting + 1 })

-- `open` after the connection, whatever came of it.
unfoldable pub release : TerminalInner → TerminalInner
release inner = record inner { starting = inner.starting - 1 }

-- The end of `connect_terminal`.
unfoldable pub insert_terminal : TerminalInner → ℕ → ℕ → TerminalInner
insert_terminal inner terminal_id profile_id = record inner {
  active = insert terminal_id profile_id inner.active;
}

unfoldable pub take_terminal : TerminalInner → ℕ → TerminalInner
take_terminal inner terminal_id = record inner { active = remove terminal_id inner.active }

removed_at : Option ℕ → TerminalInner → ℕ → OpnsenseActivity → TerminalInner × OpnsenseActivity
removed_at (some profile_id) inner terminal_id activity =
    (take_terminal inner terminal_id, terminal_exit activity profile_id)
removed_at none inner terminal_id activity = (inner, activity)

-- `remove`, for a reader that ends and for a connection that is found dead.
unfoldable pub remove_dead : TerminalInner → OpnsenseActivity → ℕ → TerminalInner × OpnsenseActivity
unfolding removed_at
remove_dead inner activity terminal_id =
    removed_at (get terminal_id inner.active) inner terminal_id activity

close_at :
    Option ℕ
    → TerminalInner
    → OpnsenseActivity
    → ℕ
    → Result TerminalError (TerminalInner × OpnsenseActivity)
close_at (some profile_id) inner activity terminal_id =
    ok (take_terminal inner terminal_id, terminal_exit activity profile_id)
close_at none inner activity terminal_id = err (terminal_not_found terminal_id)

unfoldable pub close :
    TerminalInner → OpnsenseActivity → ℕ → Result TerminalError (TerminalInner × OpnsenseActivity)
unfolding close_at
close inner activity terminal_id =
    close_at (get terminal_id inner.active) inner activity terminal_id

abbrev pub write_half_for : TerminalInner → ℕ → Result TerminalError (Unit {0})
write_half_for inner terminal_id =
    if contains_key terminal_id inner.active then ok tt else err (terminal_not_found terminal_id)

-- The size that a write may have; `decoded` is the length of the decoded bytes, none if the text is
-- not base64.
abbrev pub check_bytes : Option ℕ → Result TerminalError (Unit {0})
check_bytes none = err connect_error
check_bytes (some n) = if ltb max_write_bytes n then err connect_error else ok tt

-- The tests of a write before anything is sent.
unfoldable pub write_guard : TerminalInner → ℕ → Option ℕ → Result TerminalError (Unit {0})
write_guard inner terminal_id decoded = do
  fits ← check_bytes decoded
  write_half_for inner terminal_id

-- What follows a send that did or did not succeed, of `write` and of `resize`.
unfoldable pub after_send :
    Bool
    → TerminalInner
    → OpnsenseActivity
    → ℕ
    → Result TerminalError (Unit {0}) × (TerminalInner × OpnsenseActivity)
after_send true inner activity terminal_id = (ok tt, (inner, activity))
after_send false inner activity terminal_id =
    (err connect_error, remove_dead inner activity terminal_id)
