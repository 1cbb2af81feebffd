-- ===== src/Mikrotik/Version/Delivery.antt =====
-- What is done with the result of a check.
use verkkokyyla.Mikrotik.Error.{MikrotikError, connect}
use verkkokyyla.Mikrotik.Version.Polls.{IsQuestion, probe_once-result}
use verkkokyyla.Mikrotik.Version.Probe.{
  firmware_of, probe_once, persist_result, emit, persist_for_active_session, swallow,
  run_version_probe,
}
use verkkokyyla.Mikrotik.Version.Reading.{probe_once-reads}
use verkkokyyla.Mikrotik.Version.Replay.{
  world_after, AreAnswered, probe_once-Replays, run_version_probe-Replays,
}
use verkkokyyla.Mikrotik.Version.Report.{
  last_status, last_board, SaysNothing, should_deliver-SaysNothing, SaysNothing-should_deliver,
  IsUpdate, IsFirmware, update_for, update_for-IsUpdate, firmware_of-IsFirmware,
}
use verkkokyyla.Mikrotik.Version.{
  UpdateStatusDto, RouterboardDto, VersionFirmwareResultDto, Probed, VersionCall, stored, sent,
  should_deliver_spawned_probe,
}
use verkkokyyla.Prelude.Effects.{Outcome, ret, proceed, ◌>>=◌, ◌>>◌, All}
use verkkokyyla.Prelude.Int.{ℤ}
use verkkokyyla.Prelude.Results.{Result, ok, err, map_err}
use verkkokyyla.Prelude.Text.{Text}
use verkkokyyla.Prelude.{
  ◌≤◌, ◌≡◌, ◌⊎◌, refl, Bool, true, false, List, [], ◌∷◌, ◌++◌, none, some, length, Bool-cases, inl,
  inr, if◌then◌else◌,
}

module _ {W : Type 0} (probed : Probed W) where
  -- One of four deliveries: nothing, as the result says nothing or the session is not live; nothing, as
  -- the result has no JSON; a write that failed; a write of just this result, and then its event.
  pub data Delivered (session_id : ℤ) (r : VersionFirmwareResultDto) (is_active : Bool)
      : List VersionCall → Type 0 where
    unwanted : SaysNothing r ⊎ (is_active ≡ false) → Delivered session_id r is_active []
    unwritten :
        (e : Text)
        → (probed.update_json r.update_status ≡ err e)
          ⊎ (probed.firmware_json r.firmware_status ≡ err e)
        → Delivered session_id r is_active []
    lost :
        (update firmware : Text) (e : MikrotikError)
        → is_active ≡ true
        → ¬ SaysNothing r
        → probed.update_json r.update_status ≡ ok update
        → probed.firmware_json r.firmware_status ≡ ok firmware
        → Delivered session_id r is_active (stored session_id update firmware (err e) ∷ [])
    told :
        (update firmware : Text)
        → is_active ≡ true
        → ¬ SaysNothing r
        → probed.update_json r.update_status ≡ ok update
        → probed.firmware_json r.firmware_status ≡ ok firmware
        → Delivered session_id r is_active
            (stored session_id update firmware (ok tt) ∷ sent session_id r ∷ [])

  persisted-Delivered :
      (session_id : ℤ) (r : VersionFirmwareResultDto) (is_active : Bool) (w : W)
      → is_active ≡ true
      → ¬ SaysNothing r
      → Delivered session_id r is_active
          ((persist_result probed session_id r >> emit probed session_id r) w).calls
  unfolding persist_result ◌>>=◌
  persisted-Delivered session_id r is_active w active says =
      at (probed.update_json r.update_status) (probed.firmware_json r.firmware_status) refl refl
    where
      answered :
          (update firmware : Text)
          → probed.update_json r.update_status ≡ ok update
          → probed.firmware_json r.firmware_status ≡ ok firmware
          → (a : Result Text (Unit {0}))
          → Delivered session_id r is_active (
              stored session_id update firmware (map_err connect a)
              ∷ (proceed
                  (some (map_err connect a))
                  (λ u. emit probed session_id r)
                  (probed.set_version_status session_id update firmware w).1).calls)
      answered update firmware f g (ok u) = told update firmware active says f g
      answered update firmware f g (err e) = lost update firmware (connect e) active says f g

      at :
          (u f : Result Text Text)
          → probed.update_json r.update_status ≡ u
          → probed.firmware_json r.firmware_status ≡ f
          → Delivered session_id r is_active
              ((persist_result probed session_id r >> emit probed session_id r) w).calls
      at (err e) f x y = rw x (unwritten e (inl x))
      at (ok u) (err e) x y = rw (x, y) (unwritten e (inr y))
      at (ok u) (ok f) x y =
          rw (x, y) (answered u f x y (probed.set_version_status session_id u f w).0)

  persist_for_active_session-Delivered :
      (session_id : ℤ) (r : VersionFirmwareResultDto) (w : W)
      → ¬ SaysNothing r
      → Delivered session_id r
          (probed.is_live session_id w)
          (persist_for_active_session probed session_id r w).calls
  unfolding persist_for_active_session
  persist_for_active_session-Delivered session_id r w says =
      elim (Bool-cases (probed.is_live session_id w)) [
        | inl y ↦ rw y (persisted-Delivered session_id r true w refl says)
        | inr n ↦ rw n (unwanted (inr refl))
      ]

  -- The course of a check that was spawned in this world.
  pub record IsCareful (session_id : ℤ) (w : W) (o : Outcome MikrotikError VersionCall W (Unit {0}))
      : Type 0 where
    pub probing : List VersionCall
    pub delivery : List VersionCall
    pub status : Result MikrotikError UpdateStatusDto
    pub board : Result MikrotikError RouterboardDto
    pub found : VersionFirmwareResultDto
    pub ends : o.result ≡ some (ok tt)
    pub in_order : o.calls ≡ probing ++ delivery
    pub answered : AreAnswered probed w o.calls
    pub questions : All IsQuestion probing
    pub bounded : length probing ≤ 32
    pub last_answer : last_status none probing ≡ some status
    pub board_answer : last_board none probing ≡ some board
    pub update_found : IsUpdate probed status found.update_status
    pub firmware_found : IsFirmware probed board found.firmware_status
    pub delivered :
        Delivered session_id found
          (probed.is_live session_id (world_after probed w probing))
          delivery

  -- A spawned check ends without an error, after at most 32 questions to the router or pauses, each
  -- answered by the router as it was then. What it finds is what the last answer on the updates and the
  -- answer on the board say. It then stores the result with its JSON if the result says something and
  -- the session is live in the world that the probing left, and otherwise stores nothing; nor does it
  -- where the result has no JSON. The event goes out after a write that succeeded and not otherwise, with
  -- just the result stored.
  pub run_version_probe-IsCareful :
      (session_id : ℤ) (w : W) → IsCareful session_id w (run_version_probe probed session_id w)
  unfolding run_version_probe ◌>>=◌
  run_version_probe-IsCareful session_id w =
      let (r, e, questions, bounded) = probe_once-result probed w in
      let (status, board, found, last_answer, board_answer) = probe_once-reads probed w in
      let probing = (probe_once probed w).calls in
      let after = (probe_once probed w).world in
      let report : VersionFirmwareResultDto = record {
        update_status = update_for probed status;
        firmware_status = firmware_of probed board;
      } in
      let deliver =
        if should_deliver_spawned_probe report
        then swallow probed (persist_for_active_session probed session_id report)
        else ret tt in
      let delivered : Delivered session_id report (probed.is_live session_id after)
            (deliver after).calls
          × ((deliver after).result ≡ some (ok tt)) =
        elim (Bool-cases (should_deliver_spawned_probe report)) [
          | inl y ↦ rw y (
            persist_for_active_session-Delivered session_id report after
                (λ n. cc (y, SaysNothing-should_deliver report n)),
            refl,
          )
          | inr n ↦ rw n (unwanted (inl (should_deliver-SaysNothing report n)), refl)
        ] in
      record {
        probing = probing;
        delivery = (deliver after).calls;
        status = status;
        board = board;
        found = report;
        ends = rw found (delivered.1);
        in_order = rw found refl;
        answered = (run_version_probe-Replays probed session_id w).1;
        questions = questions;
        bounded = bounded;
        last_answer = last_answer;
        board_answer = board_answer;
        update_found = update_for-IsUpdate probed status;
        firmware_found = firmware_of-IsFirmware probed board;
        delivered = rw ((probe_once-Replays probed w).0) (delivered.0);
      }
