-- ===== src/Mikrotik/Manager/Reuse.antt =====
-- What happens when a live session is deleted from the history.
use verkkokyyla.Mikrotik.Manager.Identity.{System, starts, deletes, has_row, delete_row, step}
use verkkokyyla.Mikrotik.Manager.{
  start_guard, claim, clear_active, is_profile_active, active_version_target,
}
use verkkokyyla.Prelude.{ℕ, ◌≡◌, ◌≢◌, refl, true, false, List, [], ◌∷◌, arith, ◌==◌}

-- The history: start `p`, delete its session while it is live, start `q`. `next_rowid` is the
-- database's choice of an id.
abbrev pub reuse : (List ℕ → ℕ) → ℕ → ℕ → List ℕ → System
reuse next_rowid p q rows =
    let id = next_rowid rows in
    let started = step next_rowid (record { active = []; rows = rows }) (starts p) in
    step next_rowid (step next_rowid started (deletes id)) (starts q)

module _ (next_rowid : List ℕ → ℕ)
    (fresh : (rows : List ℕ) → has_row (next_rowid rows) rows ≡ false) where
  delete_row_absent : (rows : List ℕ) (id : ℕ) → has_row id rows ≡ false → delete_row id rows ≡ rows
  delete_row_absent [] id h = refl
  delete_row_absent (r ∷ rows) id h = ground (arith, delete_row_absent rows id)

  -- After a live session is deleted from the history, the next start gets the same id: two live
  -- sessions of different profiles then share it, and the exit of either task drops both.
  reuse_shares_id :
      (p q : ℕ) (rows : List ℕ)
      → p ≢ q
      → (is_profile_active (reuse next_rowid p q rows).active p ≡ true)
        × (is_profile_active (reuse next_rowid p q rows).active q ≡ true)
        × (active_version_target (reuse next_rowid p q rows).active p
            ≡ active_version_target (reuse next_rowid p q rows).active q)
        × (clear_active (reuse next_rowid p q rows).active (next_rowid rows) ≡ [])
  unfolding step claim start_guard is_profile_active clear_active active_version_target
  reuse_shares_id p q rows h =
      let back = delete_row_absent rows (next_rowid rows) (fresh rows) in
      let self : (next_rowid rows == next_rowid rows) ≡ true = ground arith in
      let apart : (p == q) ≡ false = ground arith in
      rw (self, back, apart) (ground arith, ground arith, ground arith, ground arith)
