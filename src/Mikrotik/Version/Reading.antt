-- ===== src/Mikrotik/Version/Reading.antt =====
-- The result of a probe against the answers to its questions.
use mathlib.Core.List.{append-nil}
use verkkokyyla.Mikrotik.Error.{MikrotikError}
use verkkokyyla.Mikrotik.Version.Probe.{
  Probe, update_result, is_terminal, firmware_of, poll_updates, probe_update, probe_firmware,
  probe_once,
}
use verkkokyyla.Mikrotik.Version.Report.{last_status, last_board, update_for}
use verkkokyyla.Mikrotik.Version.{
  UpdateStatusDto, RouterboardDto, Probed, VersionCall, checked, polled, slept, asked_board, stored,
  sent, update_poll_limit,
}
use verkkokyyla.Prelude.Effects.{ret, proceed, ◌>>=◌}
use verkkokyyla.Prelude.Results.{Result, ok, err}
use verkkokyyla.Prelude.{
  ℕ, zero, suc, ◌≡◌, refl, ◌∙◌, List, [], ◌∷◌, ◌++◌, Option, none, some, if◌then◌else◌, Bool-cases,
  inl, inr,
}

last_status-append :
    (a : Option (Result MikrotikError UpdateStatusDto)) (cs ds : List VersionCall)
    → last_status a (cs ++ ds) ≡ last_status (last_status a cs) ds
last_status-append a [] ds = refl
last_status-append a (checked r ∷ cs) ds = last_status-append (some r) cs ds
last_status-append a (polled r ∷ cs) ds = last_status-append (some r) cs ds
last_status-append a (slept d ∷ cs) ds = last_status-append a cs ds
last_status-append a (asked_board r ∷ cs) ds = last_status-append a cs ds
last_status-append a (stored id u f r ∷ cs) ds = last_status-append a cs ds
last_status-append a (sent id r ∷ cs) ds = last_status-append a cs ds

last_board-append :
    (a : Option (Result MikrotikError RouterboardDto)) (cs ds : List VersionCall)
    → last_board a (cs ++ ds) ≡ last_board (last_board a cs) ds
last_board-append a [] ds = refl
last_board-append a (asked_board r ∷ cs) ds = last_board-append (some r) cs ds
last_board-append a (checked r ∷ cs) ds = last_board-append a cs ds
last_board-append a (polled r ∷ cs) ds = last_board-append a cs ds
last_board-append a (slept d ∷ cs) ds = last_board-append a cs ds
last_board-append a (stored id u f r ∷ cs) ds = last_board-append a cs ds
last_board-append a (sent id r ∷ cs) ds = last_board-append a cs ds

module _ {W : Type 0} (probed : Probed W) where
  -- The loop returns the last answer, its error included.
  poll_updates-reads :
      (turns : ℕ) (current : UpdateStatusDto) (w : W)
      → (r : Result MikrotikError UpdateStatusDto) × ((poll_updates probed turns current w).result
          ≡ some r)
        × (last_status (some (ok current)) (poll_updates probed turns current w).calls ≡ some r)
  unfolding poll_updates ◌>>=◌
  poll_updates-reads zero current w = (ok current, refl, refl)
  poll_updates-reads (suc turns) current w =
      at (probed.get_update_status (probed.sleep 2_000 w)).0
        (λ next. poll_updates-reads turns next (probed.get_update_status (probed.sleep 2_000 w)).1)
    where
      after : W
      after = (probed.get_update_status (probed.sleep 2_000 w)).1

      at :
          (a : Result MikrotikError UpdateStatusDto)
          → ((next : UpdateStatusDto)
              → (r : Result MikrotikError UpdateStatusDto) × ((poll_updates probed turns next
                    after).result
                  ≡ some r)
                × (last_status (some (ok next)) (poll_updates probed turns next after).calls
                    ≡ some r))
          → let more =
              proceed
                (some a)
                (λ next.
                  if is_terminal probed next.status
                  then ret next
                  else poll_updates probed turns next)
                after in
            (r : Result MikrotikError UpdateStatusDto) × (more.result ≡ some r)
            × (last_status (some (ok current)) (slept 2_000 ∷ polled a ∷ more.calls) ≡ some r)
      at (err e) ih = (err e, refl, refl)
      at (ok next) ih = elim (Bool-cases (is_terminal probed next.status)) [
        | inl y ↦ rw y (ok next, refl, refl)
        | inr n ↦ rw n (ih next)
      ]

  -- An answer, put into another form.
  abbrev over : {A B : Type 0} → (A → B) → Result MikrotikError A → Result MikrotikError B
  over g (err e) = err e
  over g (ok a) = ok (g a)

  then_ret :
      {A B : Type 0} (m : Probe probed A) (g : A → B) (w : W) (r : Result MikrotikError A)
      → (m w).result ≡ some r
      → (((m >>= λ a. ret (g a)) w).result ≡ some (over g r))
        × (((m >>= λ a. ret (g a)) w).calls ≡ (m w).calls)
  unfolding ◌>>=◌
  then_ret m g w (err e) h = rw h (refl, append-nil (m w).calls)
  then_ret m g w (ok a) h = rw h (refl, append-nil (m w).calls)

  probe_update-reads :
      (w : W)
      → (r : Result MikrotikError UpdateStatusDto) × ((probe_update probed w).result
          ≡ some (over (update_result probed) r))
        × (last_status none (probe_update probed w).calls ≡ some r)
  unfolding probe_update ◌>>=◌
  probe_update-reads w = at (probed.check_for_updates w).0
    where
      after : W
      after = (probed.check_for_updates w).1

      polls : UpdateStatusDto → Probe probed UpdateStatusDto
      polls first =
          if is_terminal probed first.status
          then ret first
          else poll_updates probed update_poll_limit first

      at :
          (a : Result MikrotikError UpdateStatusDto)
          → let more =
              proceed
                (some a)
                (λ first. polls first >>= λ last. ret (update_result probed last))
                after in
            (r : Result MikrotikError UpdateStatusDto) × (more.result
              ≡ some (over (update_result probed) r))
            × (last_status none (checked a ∷ more.calls) ≡ some r)
      at (err e) = (err e, refl, refl)
      at (ok first) =
          let h : (r : Result MikrotikError UpdateStatusDto) × ((polls first after).result ≡ some r)
              × (last_status (some (ok first)) (polls first after).calls ≡ some r) =
            elim (Bool-cases (is_terminal probed first.status)) [
              | inl y ↦ rw y (ok first, refl, refl)
              | inr n ↦ rw n (poll_updates-reads update_poll_limit first after)
            ] in
          let t = then_ret (polls first) (update_result probed) after h.0 h.1 in
          (h.0, t.0, rw (t.1) (h.2))

  -- The result is what the last answers say.
  pub probe_once-reads :
      (w : W)
      → (status : Result MikrotikError UpdateStatusDto) × (board : Result MikrotikError
          RouterboardDto)
        × ((probe_once probed w).result
            ≡ some (
                ok (record {
                  update_status = update_for probed status;
                  firmware_status = firmware_of probed board;
                })))
        × (last_status none (probe_once probed w).calls ≡ some status)
        × (last_board none (probe_once probed w).calls ≡ some board)
  unfolding probe_once probe_firmware ◌>>=◌
  probe_once-reads w = let (r, e, l) = probe_update-reads w in at r e l
    where
      board : Result MikrotikError RouterboardDto
      board = (probed.get_routerboard (probe_update probed w).world).0

      at :
          (r : Result MikrotikError UpdateStatusDto)
          → (probe_update probed w).result ≡ some (over (update_result probed) r)
          → last_status none (probe_update probed w).calls ≡ some r
          → (status : Result MikrotikError UpdateStatusDto) × (board : Result MikrotikError
              RouterboardDto)
            × ((probe_once probed w).result
                ≡ some (
                    ok (record {
                      update_status = update_for probed status;
                      firmware_status = firmware_of probed board;
                    })))
            × (last_status none (probe_once probed w).calls ≡ some status)
            × (last_board none (probe_once probed w).calls ≡ some board)
      at (err x) e l = rw e (
        err x,
        board,
        refl,
        last_status-append none (probe_update probed w).calls _ ∙ l,
        last_board-append none (probe_update probed w).calls _,
      )
      at (ok dto) e l = rw e (
        ok dto,
        board,
        refl,
        last_status-append none (probe_update probed w).calls _ ∙ l,
        last_board-append none (probe_update probed w).calls _,
      )
