-- ===== src/Mikrotik/Backup/Flow/Ends.antt =====
-- Waiting for a file on the router, and with it the whole flow, comes to an end.
use verkkokyyla.Mikrotik.Backup.Flow.{
  ask, is_listed, wait_until, wait_for_file, export_step, export_output, download_and_write,
  backup_file, export_file,
}
use verkkokyyla.Mikrotik.Backup.World.{FilePoll, BackupParams, World, listed}
use verkkokyyla.Prelude.Effects.{◌>>=◌, Ends, >>=-Ends}
use verkkokyyla.Prelude.Text.{Text}
use verkkokyyla.Prelude.{
  ℕ, zero, suc, ◌+◌, ◌*◌, ◌≤◌, ◌≡◌, refl, Bool, true, false, Option, none, some, arith, leb,
  Bool-cases, inl, inr,
}

-- The clock does not go back, and sleeping takes its time.
pub record IsTimely {W : Type 0} (world : World W) : Type 0 where
  pub list_later : (w : W) → world.now w ≤ world.now (world.list_files w).1
  pub sleep_later : (d : ℕ) (w : W) → world.now w + d ≤ world.now (world.sleep d w)

module _ {W : Type 0} (world : World W) (timely : IsTimely world) where
  -- One turn of the loop.
  turn-Ends :
      (fuel : ℕ) (name : Text) (poll : FilePoll) (deadline : ℕ) (w : W)
      → (leb deadline (world.now (world.list_files w).1) ≡ false
          → Ends
              (wait_until world fuel name poll deadline
                (world.sleep poll.interval (world.list_files w).1)).result)
      → Ends (wait_until world (suc fuel) name poll deadline w).result
  unfolding wait_until ◌>>=◌
  turn-Ends fuel name poll deadline w more =
      >>=-Ends (ask world listed world.list_files) _ w (_, refl)
        (λ files e. elim (Bool-cases (is_listed world name files)) [
          | inl there ↦ rw there (_, refl)
          | inr missing ↦
              rw missing (elim (Bool-cases (leb deadline (world.now (world.list_files w).1))) [
                | inl is_late ↦ rw is_late (_, refl)
                | inr early ↦ rw early (more early)
              ])
        ])

  wait_until-Ends :
      (n : ℕ) (name : Text) (poll : FilePoll) (deadline : ℕ) (w : W)
      → deadline ≤ world.now w + n * poll.interval
      → Ends (wait_until world (suc n) name poll deadline w).result
  wait_until-Ends zero name poll deadline w h =
      turn-Ends zero name poll deadline w
        (λ early. absurd (ground (arith, early, h, timely.list_later w)))
  wait_until-Ends (suc n) name poll deadline w h =
      let later = world.sleep poll.interval (world.list_files w).1 in
      let slept_on = timely.sleep_later poll.interval (world.list_files w).1 in
      turn-Ends (suc n) name poll deadline w (λ early.
        wait_until-Ends n name poll deadline later
          (grind (arith, h, timely.list_later w, slept_on)))

  module _ (n : ℕ) (p : BackupParams)
      (enough : p.file_poll.timeout ≤ n * p.file_poll.interval) where
    wait_for_file-Ends :
        (name : Text) (w : W) → Ends (wait_for_file world (suc n) name p.file_poll w).result
    unfolding wait_for_file
    wait_for_file-Ends name w =
        wait_until-Ends n name p.file_poll (world.now w + p.file_poll.timeout) w
          (omega (arith, enough))

    export_step-Ends : (b : Bool) (w : W) → Ends (export_step world b (suc n) p w).result
    export_step-Ends false w = (_, refl)
    export_step-Ends true w =
        >>=-Ends _ _ w (_, refl)
          (λ u e.
            >>=-Ends _ _ _ (wait_for_file-Ends (export_file p.backup_name) _) (λ u e. (_, refl)))

    export_output-Ends :
        (path : Text) (remote : Option Text) (w : W)
        → Ends (export_output world p path remote w).result
    export_output-Ends path none w = (_, refl)
    export_output-Ends path (some remote) w =
        >>=-Ends _ _ w (_, refl) (λ bytes e. >>=-Ends _ _ _ (_, refl) (λ u e. (_, refl)))

    pub download_and_write-Ends :
        (backup_path export_path : Text) (w : W)
        → Ends (download_and_write world (suc n) p backup_path export_path w).result
    unfolding download_and_write
    download_and_write-Ends backup_path export_path w =
        >>=-Ends _ _ w (wait_for_file-Ends (backup_file p.backup_name) w) (λ u e.
          >>=-Ends _ _ _ (export_step-Ends p.include_rsc _) (λ remote e.
            >>=-Ends _ _ _ (_, refl)
              (λ bytes e.
                >>=-Ends _ _ _ (_, refl)
                  (λ u e.
                    >>=-Ends _ _ _ (export_output-Ends export_path remote _)
                      (λ path e. (_, refl))))))
