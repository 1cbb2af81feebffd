-- ===== src/Mikrotik/Version/Polls.antt =====
-- The probes of a router's versions end, after a bounded number of requests.
use verkkokyyla.Mikrotik.Error.{MikrotikError}
use verkkokyyla.Mikrotik.Version.Probe.{
  Probe, is_terminal, update_result, pause, poll_updates, probe_update, probe_firmware, or_unknown,
  probe_once,
}
use verkkokyyla.Mikrotik.Version.{
  UpdateStatusDto, UpdateStatusResultDto, VersionFirmwareResultDto, Probed, VersionCall, checked,
  polled, slept, asked_board, stored, sent, update_poll, update_poll_limit, known, unknown_update,
}
use verkkokyyla.Prelude.Effects.{ret, call, proceed, ◌>>=◌, All, All-append}
use verkkokyyla.Prelude.Results.{Result, ok, err}
use verkkokyyla.Prelude.{
  ℕ, zero, suc, ◌+◌, ◌*◌, ◌≤◌, ◌≡◌, refl, List, [], ◌∷◌, ◌++◌, Option, some, none, arith, length,
  length-append, if◌then◌else◌, Bool-cases, inl, inr,
}

-- A question to the router, or a pause.
abbrev pub IsQuestion : VersionCall → Type 0
IsQuestion (checked r) = Unit
IsQuestion (polled r) = Unit
IsQuestion (slept d) = d ≡ 2_000
IsQuestion (asked_board r) = Unit
IsQuestion (stored id u f r) = ⊥
IsQuestion (sent id r) = ⊥

-- There is a result, after questions only, and no more of them than this.
pub record IsBounded {A : Type 0} (n : ℕ) (o : Option (Result MikrotikError A))
    (calls : List VersionCall) : Type 0 where
  pub result : Result MikrotikError A
  pub ends : o ≡ some result
  pub questions : All IsQuestion calls
  pub bounded : length calls ≤ n

module _ {W : Type 0} (probed : Probed W) where
  then-IsBounded :
      {A B : Type 0} (n k : ℕ) (m : Probe probed A) (f : A → Probe probed B) (w : W)
      → IsBounded n (m w).result (m w).calls
      → ((a : A) (w : W) → IsBounded k (f a w).result (f a w).calls)
      → IsBounded (n + k) ((m >>= f) w).result ((m >>= f) w).calls
  unfolding ◌>>=◌
  then-IsBounded {A} n k m f w h g = at (m w).result (m w).world h
    where
      at :
          (o : Option (Result MikrotikError A)) (w1 : W)
          → IsBounded n o (m w).calls
          → IsBounded (n + k) (proceed o f w1).result ((m w).calls ++ (proceed o f w1).calls)
      at none w1 h = absurd (cc (h.ends))
      at (some (err e)) w1 h = record {
        result = err e;
        ends = refl;
        questions = All-append IsQuestion (m w).calls [] h.questions tt;
        bounded = omega (arith, h.bounded, length-append (m w).calls []);
      }
      at (some (ok a)) w1 h =
          let r = g a w1 in
          record {
            result = r.result;
            ends = r.ends;
            questions = All-append IsQuestion (m w).calls (f a w1).calls h.questions r.questions;
            bounded = omega (arith, h.bounded, r.bounded, length-append (m w).calls (f a w1).calls);
          }

  IsBounded-mono :
      {A : Type 0} {o : Option (Result MikrotikError A)} {calls : List VersionCall} (n m : ℕ)
      → n ≤ m
      → IsBounded n o calls
      → IsBounded m o calls
  IsBounded-mono n m h b = record {
    result = b.result;
    ends = b.ends;
    questions = b.questions;
    bounded = omega (arith, h, b.bounded);
  }

  one_call :
      {A : Type 0} (c : VersionCall) (r : Result MikrotikError A)
      → IsQuestion c
      → IsBounded 1 (some r) (c ∷ [])
  one_call c r q = record { result = r; ends = refl; questions = (q, tt); bounded = omega arith }

  no_call : {A : Type 0} (a : A) (n : ℕ) → IsBounded {A = A} n (some (ok a)) []
  no_call a n = record { result = ok a; ends = refl; questions = tt; bounded = omega arith }

  poll_updates-IsBounded :
      (turns : ℕ) (current : UpdateStatusDto) (w : W)
      → IsBounded
          (2 * turns)
          (poll_updates probed turns current w).result
          (poll_updates probed turns current w).calls
  unfolding poll_updates
  poll_updates-IsBounded zero current w = no_call current 0
  poll_updates-IsBounded (suc turns) current w =
      IsBounded-mono (1 + (1 + 2 * turns)) (2 * suc turns) (omega arith) (
        then-IsBounded 1 (1 + 2 * turns) (pause probed update_poll) _ w
          (one_call (slept 2_000) (ok tt) refl)
          (λ u w1.
            then-IsBounded 1 (2 * turns) (call polled probed.get_update_status) _ w1
              (one_call (polled (probed.get_update_status w1).0) _ tt)
              (λ next w2. elim (Bool-cases (is_terminal probed next.status)) [
                | inl y ↦ rw y (no_call next (2 * turns))
                | inr n ↦ rw n (poll_updates-IsBounded turns next w2)
              ])))

  probe_update-IsBounded :
      (w : W) → IsBounded 31 (probe_update probed w).result (probe_update probed w).calls
  unfolding probe_update
  probe_update-IsBounded w =
      then-IsBounded 1 30 (call checked probed.check_for_updates) _ w
        (one_call (checked (probed.check_for_updates w).0) _ tt)
        (λ first w1.
          then-IsBounded 30 0
            (if is_terminal probed first.status
              then ret first
              else poll_updates probed update_poll_limit first)
            _ w1
            (elim (Bool-cases (is_terminal probed first.status)) [
              | inl y ↦ rw y (no_call first 30)
              | inr n ↦ rw n (poll_updates-IsBounded 15 first w1)
            ])
            (λ last w2. no_call (update_result probed last) 0))

  -- The update probe's error is replaced by an unknown update.
  or_unknown-IsBounded :
      (n : ℕ) (body : Probe probed UpdateStatusResultDto) (w : W)
      → IsBounded n (body w).result (body w).calls
      → (r : UpdateStatusResultDto) × ((or_unknown probed body w).result ≡ some (ok r))
  or_unknown-IsBounded n body w b = at (body w).result b.result b.ends
    where
      at :
          (o : Option (Result MikrotikError UpdateStatusResultDto))
          (r : Result MikrotikError UpdateStatusResultDto)
          → o ≡ some r
          → (d : UpdateStatusResultDto) × (known o ≡ some (ok d))
      at none r e = absurd (cc e)
      at (some (err x)) r e = (unknown_update, refl)
      at (some (ok d)) r e = (d, refl)

  -- A probe always ends with a result and without an error, after at most 32 questions to the router
  -- or pauses, and nothing else.
  pub probe_once-result :
      (w : W)
      → (r : VersionFirmwareResultDto) × ((probe_once probed w).result ≡ some (ok r))
        × All IsQuestion (probe_once probed w).calls
        × (length (probe_once probed w).calls ≤ 32)
  unfolding probe_once probe_firmware ◌>>=◌
  probe_once-result w =
      let b = probe_update-IsBounded w in
      let (d, e) = or_unknown-IsBounded 31 (probe_update probed) w b in
      rw e (
        _,
        refl,
        All-append IsQuestion (probe_update probed w).calls _ b.questions (tt, tt),
        omega (
          arith,
          b.bounded,
          length-append (probe_update probed w).calls
              (asked_board (probed.get_routerboard (probe_update probed w).world).0 ∷ []),
        ),
      )
