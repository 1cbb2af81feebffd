-- ===== src/Mikrotik/Manager/Stops.antt =====
-- What a stop takes out.
use verkkokyyla.Mikrotik.Manager.{
  Active, no_active_session, find_session, stop, is_active_session, remove_found,
}
use verkkokyyla.Prelude.Assoc.{contains_key, remove, HasDistinctKeys}
use verkkokyyla.Prelude.Results.{ok, err}
use verkkokyyla.Prelude.{
  ℕ, ◌≡◌, refl, true, false, List, [], ◌∷◌, none, some, arith, ◌==◌, if◌then◌else◌, Option-cases,
  inl, inr, ◌⊎◌,
}
use verkkokyyla.Mikrotik.Manager.Identity.{IsIdentified}

found_key : (m : Active) (id k : ℕ) → find_session id m ≡ some k → contains_key k m ≡ true
unfolding find_session
found_key [] id k h = cc
found_key ((j, a) ∷ m) id k h = ground (arith, found_key m id k)

found_active : (m : Active) (id k : ℕ) → find_session id m ≡ some k → is_active_session m id ≡ true
unfolding find_session is_active_session
found_active [] id k h = cc
found_active ((j, a) ∷ m) id k h = ground (arith, found_active m id k)

not_found : (m : Active) (id : ℕ) → find_session id m ≡ none → is_active_session m id ≡ false
unfolding find_session is_active_session
not_found [] id h = refl
not_found ((j, a) ∷ m) id h = ground (arith, not_found m id)

remove_found-free :
    (m : Active) (rows : List ℕ) (id k other : ℕ)
    → IsIdentified m rows
    → HasDistinctKeys m
    → find_session id m ≡ some k
    → is_active_session (remove k m) other
      ≡ (if id == other then false else is_active_session m other)
unfolding find_session is_active_session
remove_found-free [] rows id k other v d h = cc
remove_found-free ((j, a) ∷ m) rows id k other v d h =
    ground (arith, remove_found-free m rows id k other v.2 d.1, found_key m id k)

-- With different session ids, a stop succeeds exactly if the session is live, and then takes out
-- that session and no other.
stop-iff_active :
    (m : Active) (rows : List ℕ) (id : ℕ)
    → IsIdentified m rows
    → HasDistinctKeys m
    → ((is_active_session m id ≡ false) × (stop m id ≡ err no_active_session))
      ⊎ ((is_active_session m id ≡ true)
          × ((next : Active) × (stop m id ≡ ok next)
              × ((other : ℕ)
                  → is_active_session next other
                    ≡ (if id == other then false else is_active_session m other))))
unfolding stop
stop-iff_active m rows id v d = elim (Option-cases (find_session id m)) [
  | inl e ↦ inl (not_found m id e, rw (e, remove_found))
  | inr (k, e) ↦ inr (
    found_active m id k e,
    (remove k m, rw (e, remove_found), λ other. remove_found-free m rows id k other v d e),
  )
]
