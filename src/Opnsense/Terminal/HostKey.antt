-- ===== src/Opnsense/Terminal/HostKey.antt =====
-- What leaves the application before the server's key is trusted: nothing.
use verkkokyyla.Opnsense.Terminal.{
  TerminalError, connect_error, HostKeyOutcome, accepted, unknown, mismatch, check_server_key,
  accepted_fingerprint, port_of, Profile, Auth, auth_error, rejected, success, Answers, Effect,
  send_password, set_ssh_host_key, Attempt, ◌>>=◌, quiet, require, after_key, handshake_with,
  authenticate, store_pin, pin_first, connect,
}
use verkkokyyla.Prelude.Results.{Result, ok, err}
use verkkokyyla.Prelude.Text.{Text, text_eq, text_eq-eq}
use verkkokyyla.Prelude.{
  ◌≡◌, ◌⊎◌, inl, inr, refl, ap, subst, ◌∙◌, Bool, true, false, List, [], ◌∷◌, ◌++◌, Option, none,
  some, if◌then◌else◌, Bool-cases,
}

-- The server's key is the pinned one, or the one that the user confirmed when there is no pin.
abbrev pub IsTrusted : Option Text → Option Text → Option Text → Type 0
IsTrusted pinned confirmed presented =
    (fingerprint : Text) × (presented ≡ some fingerprint)
    × ((pinned ≡ some fingerprint) ⊎ ((pinned ≡ none) × (confirmed ≡ some fingerprint)))

module _ (confirmed : Option Text) (a : Answers) (profile : Profile) where
  -- When an effect may happen.
  abbrev pub IsAllowed : Effect → Type 0
  IsAllowed send_password = IsTrusted profile.ssh_host_key confirmed a.presented
  IsAllowed (set_ssh_host_key fingerprint) =
      (profile.ssh_host_key ≡ none)
      × (confirmed ≡ some fingerprint)
      × (a.presented ≡ some fingerprint)
      × (a.auth ≡ success)

  abbrev pub AreAllowed : List Effect → Type 0
  AreAllowed [] = Unit
  AreAllowed (e ∷ log) = IsAllowed e × AreAllowed log

  AreAllowed-append : (xs ys : List Effect) → AreAllowed xs → AreAllowed ys → AreAllowed (xs ++ ys)
  AreAllowed-append [] ys v w = w
  AreAllowed-append (x ∷ xs) ys v w = (v.0, AreAllowed-append xs ys v.1 w)

  bind-AreAllowed :
      {A B : Type 0} (m : Attempt A) (next : A → Attempt B)
      → AreAllowed m.0
      → ((x : A) → m.1 ≡ ok x → AreAllowed (next x).0)
      → AreAllowed (m >>= next).0
  bind-AreAllowed (log, ok x) next v w = AreAllowed-append log (next x).0 v (w x refl)
  bind-AreAllowed (log, err e) next v w = v

  -- What a handshake that succeeds has recorded.
  abbrev Vouches : Option HostKeyOutcome → Type 0
  Vouches outcome =
      IsTrusted profile.ssh_host_key confirmed a.presented
      × ((fingerprint : Text)
          → accepted_fingerprint outcome ≡ some fingerprint
          → profile.ssh_host_key ≡ none
          → (confirmed ≡ some fingerprint) × (a.presented ≡ some fingerprint))

  vouch_pinned :
      (p fp : Text)
      → profile.ssh_host_key ≡ some p
      → a.presented ≡ some fp
      → text_eq p fp ≡ true
      → Vouches (some (accepted fp))
  vouch_pinned p fp e s h = ((fp, s, inl (e ∙ ap some (text_eq-eq p fp h))), λ q f none_pinned. cc)

  vouch_confirmed :
      (c fp : Text)
      → profile.ssh_host_key ≡ none
      → confirmed ≡ some c
      → a.presented ≡ some fp
      → text_eq c fp ≡ true
      → Vouches (some (accepted fp))
  vouch_confirmed c fp e k s h =
      let agreed : confirmed ≡ some fp = k ∙ ap some (text_eq-eq c fp h) in
      ((fp, s, inr (e, agreed)), λ q f none_pinned. (agreed ∙ f, s ∙ f))

  -- What a handshake leaves: an outcome that vouches, or an error.
  abbrev IsVouched : Result TerminalError (Option HostKeyOutcome) → Type 0
  IsVouched (ok outcome) = Vouches outcome
  IsVouched (err e) = Unit

  after_key-IsVouched :
      (checked : Bool) (fp : Text) (refused : HostKeyOutcome)
      → (checked ≡ true → Vouches (some (accepted fp)))
      → IsVouched
          (after_key a.handshake (if checked then (true, accepted fp) else (false, refused)))
  after_key-IsVouched false fp refused v = tt
  after_key-IsVouched true fp refused v = elim (Bool-cases a.handshake) [
    | inl h ↦ rw h (v refl)
    | inr h ↦ rw h tt
  ]

  handshake_with-IsVouched :
      (pinned k presented : Option Text)
      → profile.ssh_host_key ≡ pinned
      → confirmed ≡ k
      → a.presented ≡ presented
      → IsVouched (handshake_with pinned k presented a.handshake)
  unfolding handshake_with check_server_key
  handshake_with-IsVouched pinned k none e f s = tt
  handshake_with-IsVouched (some p) k (some fp) e f s =
      after_key-IsVouched (text_eq p fp) fp (mismatch p fp) (vouch_pinned p fp e s)
  handshake_with-IsVouched none none (some fp) e f s = tt
  handshake_with-IsVouched none (some c) (some fp) e f s =
      after_key-IsVouched (text_eq c fp) fp (unknown fp) (vouch_confirmed c fp e f s)

  authenticate-AreAllowed :
      (auth : Auth)
      → IsTrusted profile.ssh_host_key confirmed a.presented
      → AreAllowed (authenticate auth).0
  unfolding authenticate
  authenticate-AreAllowed auth_error t = (t, tt)
  authenticate-AreAllowed rejected t = (t, tt)
  authenticate-AreAllowed success t = (t, tt)

  authenticate-ok : (auth : Auth) (u : Unit {0}) → (authenticate auth).1 ≡ ok u → auth ≡ success
  unfolding authenticate
  authenticate-ok auth_error u e = cc
  authenticate-ok rejected u e = cc
  authenticate-ok success u e = refl

  pin_first-AreAllowed :
      (pinned : Option Text) (outcome : Option HostKeyOutcome)
      → profile.ssh_host_key ≡ pinned
      → Vouches outcome
      → a.auth ≡ success
      → AreAllowed (pin_first pinned outcome a.pin_stored).0
  unfolding pin_first
  pin_first-AreAllowed (some p) outcome e v s = tt
  pin_first-AreAllowed none outcome e v s = at (accepted_fingerprint outcome) refl
    where
      at :
          (o : Option Text)
          → accepted_fingerprint outcome ≡ o
          → AreAllowed (store_pin o a.pin_stored).0
      at none f = tt
      at (some fp) f = let (k, q) = v.1 fp f e in ((e, k, q, s), tt)

  -- The steps from the key on.
  session_of-AreAllowed :
      (outcome : Option HostKeyOutcome)
      → Vouches outcome
      → AreAllowed
          (authenticate a.auth >>= (λ u.
            pin_first profile.ssh_host_key outcome a.pin_stored >>= (λ v.
              quiet (require a.channel_opened connect_error) >>= (λ w.
                quiet (require a.pty_granted connect_error)
                >>= (λ x. quiet (require a.shell_granted connect_error)))))).0
  session_of-AreAllowed outcome v =
      bind-AreAllowed (authenticate a.auth) _ (authenticate-AreAllowed a.auth v.0) (λ u e.
        bind-AreAllowed (pin_first profile.ssh_host_key outcome a.pin_stored) _
          (pin_first-AreAllowed profile.ssh_host_key outcome refl v (authenticate-ok a.auth u e))
          (λ u2 e2. bind-AreAllowed (quiet (require a.channel_opened connect_error)) _ tt (λ u3 e3.
            bind-AreAllowed (quiet (require a.pty_granted connect_error)) _ tt (λ u4 e4. tt))))

  -- Whatever the server and the database answer: the password is sent only to a server whose key is
  -- the pinned one or, when there is no pin, the one that the user confirmed; and a pin is written
  -- only where there was none, for the confirmed and presented key, after a login that succeeded.
  pub connect-AreAllowed : a.profile ≡ some profile → AreAllowed (connect confirmed a).0
  unfolding connect
  connect-AreAllowed e = rw e (
      bind-AreAllowed (quiet (port_of profile.ssh_port)) _ tt (λ port p.
        bind-AreAllowed
          (quiet (handshake_with profile.ssh_host_key confirmed a.presented a.handshake)) _ tt
          (λ outcome o. session_of-AreAllowed outcome (
            subst IsVouched o (
              handshake_with-IsVouched profile.ssh_host_key confirmed a.presented refl refl
                refl)))))
