-- ===== src/Mikrotik/Version/Replay.antt =====
-- The calls of a check, made again in the world that they were made in.
use verkkokyyla.Mikrotik.Error.{MikrotikError, connect}
use verkkokyyla.Mikrotik.Version.Probe.{
  Probe, is_terminal, poll_updates, probe_update, probe_firmware, probe_once, persist_result,
  persist_for_active_session, run_version_probe,
}
use verkkokyyla.Mikrotik.Version.{
  UpdateStatusDto, VersionFirmwareResultDto, Probed, VersionCall, checked, polled, slept,
  asked_board, stored, sent, update_poll_limit, should_deliver_spawned_probe,
}
use verkkokyyla.Prelude.Effects.{proceed, ◌>>=◌}
use verkkokyyla.Prelude.Int.{ℤ}
use verkkokyyla.Prelude.Results.{Result, ok, err, map_err}
use verkkokyyla.Prelude.{
  ℕ, zero, suc, ◌≡◌, refl, ◌∙◌, sym, subst, List, [], ◌∷◌, ◌++◌, Option, none, some, Bool-cases,
  inl, inr,
}

module _ {W : Type 0} (probed : Probed W) where
  -- The world after these calls.
  abbrev pub world_after : W → List VersionCall → W
  world_after w [] = w
  world_after w (checked r ∷ cs) = world_after (probed.check_for_updates w).1 cs
  world_after w (polled r ∷ cs) = world_after (probed.get_update_status w).1 cs
  world_after w (slept d ∷ cs) = world_after (probed.sleep d w) cs
  world_after w (asked_board r ∷ cs) = world_after (probed.get_routerboard w).1 cs
  world_after w (stored id u f r ∷ cs) = world_after (probed.set_version_status id u f w).1 cs
  world_after w (sent id r ∷ cs) = world_after w cs

  -- Each call was answered by the world as it was then.
  abbrev pub AreAnswered : W → List VersionCall → Type 0
  AreAnswered w [] = Unit
  AreAnswered w (checked r ∷ cs) =
      (r ≡ (probed.check_for_updates w).0) × AreAnswered (probed.check_for_updates w).1 cs
  AreAnswered w (polled r ∷ cs) =
      (r ≡ (probed.get_update_status w).0) × AreAnswered (probed.get_update_status w).1 cs
  AreAnswered w (slept d ∷ cs) = AreAnswered (probed.sleep d w) cs
  AreAnswered w (asked_board r ∷ cs) =
      (r ≡ (probed.get_routerboard w).0) × AreAnswered (probed.get_routerboard w).1 cs
  AreAnswered w (stored id u f r ∷ cs) =
      (r ≡ map_err connect (probed.set_version_status id u f w).0)
      × AreAnswered (probed.set_version_status id u f w).1 cs
  AreAnswered w (sent id r ∷ cs) = AreAnswered w cs

  world_after-append :
      (w : W) (cs ds : List VersionCall)
      → world_after w (cs ++ ds) ≡ world_after (world_after w cs) ds
  world_after-append w [] ds = refl
  world_after-append w (checked r ∷ cs) ds = world_after-append (probed.check_for_updates w).1 cs ds
  world_after-append w (polled r ∷ cs) ds = world_after-append (probed.get_update_status w).1 cs ds
  world_after-append w (slept d ∷ cs) ds = world_after-append (probed.sleep d w) cs ds
  world_after-append w (asked_board r ∷ cs) ds =
      world_after-append (probed.get_routerboard w).1 cs ds
  world_after-append w (stored id u f r ∷ cs) ds =
      world_after-append (probed.set_version_status id u f w).1 cs ds
  world_after-append w (sent id r ∷ cs) ds = world_after-append w cs ds

  AreAnswered-append :
      (w : W) (cs ds : List VersionCall)
      → AreAnswered w cs
      → AreAnswered (world_after w cs) ds
      → AreAnswered w (cs ++ ds)
  AreAnswered-append w [] ds a b = b
  AreAnswered-append w (checked r ∷ cs) ds (e, a) b =
      (e, AreAnswered-append (probed.check_for_updates w).1 cs ds a b)
  AreAnswered-append w (polled r ∷ cs) ds (e, a) b =
      (e, AreAnswered-append (probed.get_update_status w).1 cs ds a b)
  AreAnswered-append w (slept d ∷ cs) ds a b = AreAnswered-append (probed.sleep d w) cs ds a b
  AreAnswered-append w (asked_board r ∷ cs) ds (e, a) b =
      (e, AreAnswered-append (probed.get_routerboard w).1 cs ds a b)
  AreAnswered-append w (stored id u f r ∷ cs) ds (e, a) b =
      (e, AreAnswered-append (probed.set_version_status id u f w).1 cs ds a b)
  AreAnswered-append w (sent id r ∷ cs) ds a b = AreAnswered-append w cs ds a b

  -- The calls of this code tell its world.
  abbrev pub Replays : {A : Type 0} → Probe probed A → Type 0
  Replays m = (w : W) → (world_after w (m w).calls ≡ (m w).world) × AreAnswered w (m w).calls

  bind-Replays :
      {A B : Type 0} (m : Probe probed A) (f : A → Probe probed B)
      → Replays m
      → ((a : A) → Replays (f a))
      → Replays (m >>= f)
  unfolding ◌>>=◌
  bind-Replays {A} m f h k w = at (m w).result
    where
      at :
          (o : Option (Result MikrotikError A))
          → let more = proceed o f (m w).world in
            (world_after w ((m w).calls ++ more.calls) ≡ more.world)
            × AreAnswered w ((m w).calls ++ more.calls)
      at none = (
        world_after-append w (m w).calls [] ∙ (h w).0,
        AreAnswered-append w (m w).calls [] (h w).1 tt,
      )
      at (some (err e)) = (
        world_after-append w (m w).calls [] ∙ (h w).0,
        AreAnswered-append w (m w).calls [] (h w).1 tt,
      )
      at (some (ok a)) =
          let g = k a (m w).world in
          let calls = (f a (m w).world).calls in
          (
            world_after-append w (m w).calls calls ∙ rw (h w).0 (g.0),
            AreAnswered-append w (m w).calls calls (h w).1
                (subst (λ v. AreAnswered v calls) (sym (h w).0) g.1),
          )

  poll_updates-Replays :
      (turns : ℕ) (current : UpdateStatusDto) → Replays (poll_updates probed turns current)
  unfolding poll_updates
  poll_updates-Replays zero current w = (refl, tt)
  poll_updates-Replays (suc turns) current w =
      bind-Replays _ _ (λ w. (refl, tt))
        (λ u.
          bind-Replays _ _ (λ w. (refl, (refl, tt)))
            (λ next w. elim (Bool-cases (is_terminal probed next.status)) [
              | inl y ↦ rw y (refl, tt)
              | inr n ↦ rw n (poll_updates-Replays turns next w)
            ]))
        w

  probe_update-Replays : Replays (probe_update probed)
  unfolding probe_update
  probe_update-Replays =
      bind-Replays _ _ (λ w. (refl, (refl, tt)))
        (λ first.
          bind-Replays _ _
            (λ w. elim (Bool-cases (is_terminal probed first.status)) [
              | inl y ↦ rw y (refl, tt)
              | inr n ↦ rw n (poll_updates-Replays update_poll_limit first w)
            ])
            (λ last w. (refl, tt)))

  pub probe_once-Replays : Replays (probe_once probed)
  unfolding probe_once probe_firmware
  probe_once-Replays =
      bind-Replays _ _ (λ w. probe_update-Replays w)
        (λ u.
          bind-Replays _ _ (bind-Replays _ _ (λ w. (refl, (refl, tt))) (λ answer w. (refl, tt)))
            (λ f w. (refl, tt)))

  persist_for_active_session-Replays :
      (session_id : ℤ) (r : VersionFirmwareResultDto)
      → Replays (persist_for_active_session probed session_id r)
  unfolding persist_for_active_session persist_result
  persist_for_active_session-Replays session_id r w =
      elim (Bool-cases (probed.is_live session_id w)) [
        | inl y ↦ rw y (
            bind-Replays _ _
              (bind-Replays _ _ (λ w. (refl, tt))
                (λ update. bind-Replays _ _ (λ w. (refl, tt)) (λ firmware w. (refl, (refl, tt)))))
              (λ u w. (refl, tt)) w)
        | inr n ↦ rw n (refl, tt)
      ]

  pub run_version_probe-Replays : (session_id : ℤ) → Replays (run_version_probe probed session_id)
  unfolding run_version_probe
  run_version_probe-Replays session_id = bind-Replays _ _ probe_once-Replays (λ r w.
      elim (Bool-cases (should_deliver_spawned_probe r)) [
        | inl y ↦ rw y (persist_for_active_session-Replays session_id r w)
        | inr n ↦ rw n (refl, tt)
      ])
