-- ===== src/Mikrotik/Manager/Identity.antt =====
-- The ids of live sessions, which are row ids of the table `mikrotik_sessions`. The table has no
-- AUTOINCREMENT, so the database picks an id by the ids in use.
use verkkokyyla.Mikrotik.Manager.{
  Active, ActiveSession, ManagerError, start_guard, claim, find_session, stop, clear_active,
  is_active_session, remove_found,
}
use verkkokyyla.Mikrotik.Manager.Capacity.{after_stop}
use verkkokyyla.Prelude.Assoc.{contains_key, insert, remove, retain}
use verkkokyyla.Prelude.Results.{Result, ok, err}
use verkkokyyla.Prelude.{
  ℕ, ◌≡◌, ◌≢◌, refl, Bool, true, false, List, [], ◌∷◌, Option, none, some, arith, ◌==◌,
  if◌then◌else◌,
}

abbrev pub has_row : ℕ → List ℕ → Bool
has_row id [] = false
has_row id (r ∷ rows) = if r == id then true else has_row id rows

-- `DELETE FROM mikrotik_sessions WHERE id = ?`.
abbrev pub delete_row : ℕ → List ℕ → List ℕ
delete_row id [] = []
delete_row id (r ∷ rows) = if r == id then delete_row id rows else r ∷ delete_row id rows

pub record System : Type 0 where
  pub active : Active
  pub rows : List ℕ

-- `deletes` is `delete_session`, which does not look at the live sessions.
pub data Event : Type 0 where
  starts stops exits deletes : ℕ → Event

abbrev pub IsSessionFree : ℕ → Active → Type 0
IsSessionFree id active = is_active_session active id ≡ false

-- The live sessions have different ids, all of them in the table.
abbrev pub IsIdentified : Active → List ℕ → Type 0
IsIdentified [] rows = Unit
IsIdentified ((k, a) ∷ rest) rows =
    IsSessionFree a.session_id rest × (has_row a.session_id rows ≡ true) × IsIdentified rest rows

-- `next_rowid` is the database's choice of an id for a table with these ids.
module _ (next_rowid : List ℕ → ℕ) where
  -- A row is inserted only when the tests under the lock pass.
  unfoldable pub start_session : System → ℕ → Result ManagerError (ActiveSession × Active) → System
  start_session s id (ok (session, next)) = record { active = next; rows = id ∷ s.rows }
  start_session s id (err e) = s

  unfoldable pub step : System → Event → System
  unfolding start_session
  step s (starts p) =
      start_session s (next_rowid s.rows) (claim s.active p (some (next_rowid s.rows)))
  step s (stops id) = record s { active = after_stop s.active (stop s.active id) }
  step s (exits id) = record s { active = clear_active s.active id }
  step s (deletes id) = record s { rows = delete_row id s.rows }

-- Deletions of sessions that are not live.
abbrev pub IsCareful : System → Event → Type 0
IsCareful s (deletes id) = IsSessionFree id s.active
IsCareful s _ = Unit

unlisted :
    (m : Active) (rows : List ℕ) (id : ℕ)
    → IsIdentified m rows
    → has_row id rows ≡ false
    → IsSessionFree id m
unfolding is_active_session
unlisted [] rows id v h = refl
unlisted ((k, a) ∷ m) rows id v h = ground (arith, unlisted m rows id v.2)

IsIdentified-cons :
    (m : Active) (rows : List ℕ) (id : ℕ) → IsIdentified m rows → IsIdentified m (id ∷ rows)
IsIdentified-cons [] rows id v = tt
IsIdentified-cons ((k, a) ∷ m) rows id v = (v.0, ground arith, IsIdentified-cons m rows id v.2)

is_active_session-insert :
    (session : ActiveSession) (m : Active) (id : ℕ)
    → contains_key session.profile_id m ≡ false
    → is_active_session (insert session.profile_id session m) id
      ≡ (if session.session_id == id then true else is_active_session m id)
unfolding is_active_session
is_active_session-insert a [] id h = refl
is_active_session-insert a ((k, b) ∷ m) id h = ground (arith, is_active_session-insert a m id)

insert-IsIdentified :
    (session : ActiveSession) (m : Active) (rows : List ℕ)
    → contains_key session.profile_id m ≡ false
    → IsSessionFree session.session_id m
    → has_row session.session_id rows ≡ true
    → IsIdentified m rows
    → IsIdentified (insert session.profile_id session m) rows
unfolding is_active_session
insert-IsIdentified a [] rows h f r v = (refl, r, tt)
insert-IsIdentified a ((k, b) ∷ m) rows h f r v =
    ground (arith, insert-IsIdentified a m rows, is_active_session-insert a m b.session_id)

remove_free : (m : Active) (key id : ℕ) → IsSessionFree id m → IsSessionFree id (remove key m)
unfolding is_active_session
remove_free [] key id h = refl
remove_free ((k, a) ∷ m) key id h = ground (arith, remove_free m key id)

remove-IsIdentified :
    (m : Active) (rows : List ℕ) (key : ℕ) → IsIdentified m rows → IsIdentified (remove key m) rows
remove-IsIdentified [] rows key v = tt
remove-IsIdentified ((k, a) ∷ m) rows key v =
    ground (arith, remove-IsIdentified m rows key v.2, remove_free m key a.session_id v.0)

retain_free :
    (m : Active) (keep : ActiveSession → Bool) (id : ℕ)
    → IsSessionFree id m
    → IsSessionFree id (retain keep m)
unfolding is_active_session
retain_free [] keep id h = refl
retain_free ((k, a) ∷ m) keep id h = ground (arith, retain_free m keep id)

retain-IsIdentified :
    (m : Active) (rows : List ℕ) (keep : ActiveSession → Bool)
    → IsIdentified m rows
    → IsIdentified (retain keep m) rows
retain-IsIdentified [] rows keep v = tt
retain-IsIdentified ((k, a) ∷ m) rows keep v =
    ground (arith, retain-IsIdentified m rows keep v.2, retain_free m keep a.session_id v.0)

delete_row_other :
    (rows : List ℕ) (id other : ℕ)
    → other ≢ id
    → has_row other (delete_row id rows) ≡ has_row other rows
delete_row_other [] id other h = refl
delete_row_other (r ∷ rows) id other h = ground (arith, delete_row_other rows id other h)

delete-IsIdentified :
    (m : Active) (rows : List ℕ) (id : ℕ)
    → IsSessionFree id m
    → IsIdentified m rows
    → IsIdentified m (delete_row id rows)
unfolding is_active_session
delete-IsIdentified [] rows id f v = tt
delete-IsIdentified ((k, a) ∷ m) rows id f v =
    ground (arith, delete-IsIdentified m rows id, delete_row_other rows id a.session_id)

module _ (next_rowid : List ℕ → ℕ)
    (fresh : (rows : List ℕ) → has_row (next_rowid rows) rows ≡ false) where
  start_session-IsIdentified :
      (s : System) (p : ℕ)
      → IsIdentified s.active s.rows
      → IsIdentified (step next_rowid s (starts p)).active (step next_rowid s (starts p)).rows
  unfolding step claim start_guard
  start_session-IsIdentified s p v =
      let id = next_rowid s.rows in
      let session : ActiveSession = record { session_id = id; profile_id = p } in
      ground (
        arith,
        insert-IsIdentified session s.active (id ∷ s.rows),
        unlisted s.active s.rows id v (fresh s.rows),
        IsIdentified-cons s.active s.rows id v,
      )

  stop-IsIdentified :
      (s : System) (id : ℕ)
      → IsIdentified s.active s.rows
      → IsIdentified (after_stop s.active (stop s.active id)) s.rows
  unfolding stop
  stop-IsIdentified s id v = at (find_session id s.active)
    where
      at :
          (found : Option ℕ)
          → IsIdentified (after_stop s.active (remove_found s.active found)) s.rows
      at none = v
      at (some k) = remove-IsIdentified s.active s.rows k v

  -- For a database whose new ids are not in use, the ids of the live sessions stay different and in
  -- the table, as long as no live session is deleted.
  pub step-IsIdentified :
      (s : System) (e : Event)
      → IsCareful s e
      → IsIdentified s.active s.rows
      → IsIdentified (step next_rowid s e).active (step next_rowid s e).rows
  unfolding step clear_active
  step-IsIdentified s (starts p) c v = start_session-IsIdentified s p v
  step-IsIdentified s (stops id) c v = stop-IsIdentified s id v
  step-IsIdentified s (exits id) c v = retain-IsIdentified s.active s.rows _ v
  step-IsIdentified s (deletes id) c v = delete-IsIdentified s.active s.rows id c v
