-- ===== src/Mikrotik/Manager/Starts.antt =====
-- A start as a whole.
use verkkokyyla.Mikrotik.Manager.Capacity.{claim-ok}
use verkkokyyla.Mikrotik.Manager.{
  Active, ActiveSession, Outside, ManagerError, already_running_for_profile, too_many_sessions,
  max_concurrent_sessions, start_guard, start, is_profile_active,
}
use verkkokyyla.Prelude.Assoc.{get, contains_key}
use verkkokyyla.Prelude.Results.{ok, err}
use verkkokyyla.Prelude.{
  ℕ, ◌+◌, ◌<◌, ◌≡◌, refl, true, false, Option, some, arith, length, leb, ◌==◌, if◌then◌else◌,
  Bool-cases, ◌⊎◌, inl, inr,
}

-- The first lock lets a start pass only with a free profile and a free slot.
start_guard-ok :
    (active : Active) (p : ℕ)
    → ((is_profile_active active p ≡ false)
        × (length active < max_concurrent_sessions)
        × (start_guard active p ≡ ok tt))
      ⊎ ((e : ManagerError) × (start_guard active p ≡ err e))
unfolding start_guard is_profile_active
start_guard-ok active p = elim (Bool-cases (contains_key p active)) [
  | inl e ↦ inr (already_running_for_profile p, rw e refl)
  | inr e ↦ elim (Bool-cases (leb max_concurrent_sessions (length active))) [
    | inl f ↦ inr (too_many_sessions, rw (e, f) refl)
    | inr f ↦ inl (e, ground (arith, f), rw (e, f) refl)
  ]
]

-- A start succeeds only if at both of its locks the profile had no session and fewer than eight were
-- live, and everything between them succeeded; it then adds one session under its profile and
-- leaves the others, whatever happened between the locks.
start-ok :
    (before active : Active) (outside : Outside) (p q : ℕ) (created : Option ℕ)
    {session : ActiveSession} {next : Active}
    → start before outside active p created ≡ ok (session, next)
    → (is_profile_active before p ≡ false)
      × (length before < max_concurrent_sessions)
      × (outside.profile_found ≡ true)
      × (outside.connected ≡ true)
      × (is_profile_active active p ≡ false)
      × (length next ≡ length active + 1)
      × (length next < max_concurrent_sessions + 1)
      × (get q next ≡ (if p == q then some session else get q active))
unfolding start
start-ok before active outside p q created e = elim (start_guard-ok before p) [
  | inr (er, f) ↦ let h = rw f at e in cc
  | inl (free, slot, f) ↦ elim (Bool-cases outside.profile_found) [
    | inr a ↦ let h = rw (f, a) at e in cc
    | inl a ↦ elim (Bool-cases outside.credentials) [
      | inr b ↦ let h = rw (f, a, b) at e in cc
      | inl b ↦ elim (Bool-cases outside.connected) [
        | inr c ↦ let h = rw (f, a, b, c) at e in cc
        | inl c ↦
            let k = claim-ok active p q created (rw (f, a, b, c) at e) in
            (free, slot, a, c, k.0, k.5, omega (arith, k.1, k.5), k.4)
      ]
    ]
  ]
]
