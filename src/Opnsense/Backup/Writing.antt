-- ===== src/Opnsense/Backup/Writing.antt =====
-- Storing a configuration: either the whole of it is written, or its file is asked to be removed.
use verkkokyyla.Opnsense.Backup.{
  OpnsenseBackupError, output_exists, local_write, IoError, already_exists, failed, Step,
  wrap_output, write_all, finish, flush, sync_all, Device, Call, created, encrypted, removed,
  encrypting, encryption, on_failure, or_removed, once_created, encrypt_to_file,
}
use verkkokyyla.Prelude.Effects.{Effect, proceed, ◌>>=◌, ◌>>◌}
use verkkokyyla.Prelude.Results.{Result, ok, err, map_err}
use verkkokyyla.Prelude.Text.{Text}
use verkkokyyla.Prelude.{ℕ, List, [], ◌∷◌, ◌++◌, Option, some}

abbrev pub all_steps : List Step
all_steps = wrap_output ∷ write_all ∷ finish ∷ flush ∷ sync_all ∷ []

module _ {D : Type 0} (path : Text) (bytes : List ℕ) (passphrase : Text) where
  -- Steps of the encryptor that went well, up to one that failed.
  pub data Fails : List Step → List (Call D) → Text → Type 0 where
    now :
        {steps : List Step} (s : Step) (message : Text)
        → Fails
            (s ∷ steps)
            (encrypted s bytes passphrase (err (local_write path message)) ∷ [])
            message
    later :
        {steps : List Step} {calls : List (Call D)} {message : Text} (s : Step)
        → Fails steps calls message
        → Fails (s ∷ steps) (encrypted s bytes passphrase (ok tt) ∷ calls) message

  abbrev pub all_done : List Step → List (Call D)
  all_done [] = []
  all_done (s ∷ steps) = encrypted s bytes passphrase (ok tt) ∷ all_done steps

  -- A file that could not be created is left alone; one that was is written whole, or removed last.
  pub data Writing
      : Option (Result (OpnsenseBackupError D) (Unit {0})) → List (Call D) → Type 0 where
    exists_already :
        Writing (some (err (output_exists path))) (created path (err already_exists) ∷ [])
    not_created :
        (message : Text)
        → Writing (some (err (local_write path message))) (created path (err (failed message)) ∷ [])
    written : Writing (some (ok tt)) (created path (ok tt) ∷ all_done all_steps)
    undone :
        {calls : List (Call D)} (message : Text) (r : Result Text (Unit {0}))
        → Fails all_steps calls message
        → Writing
            (some (err (local_write path message)))
            (created path (ok tt) ∷ calls ++ removed path r ∷ [])

  data Steps (steps : List Step)
      : Option (Result (OpnsenseBackupError D) (Unit {0})) → List (Call D) → Type 0 where
    all_well : Steps steps (some (ok tt)) (all_done steps)
    fails_at :
        {calls : List (Call D)} (message : Text)
        → Fails steps calls message
        → Steps steps (some (err (local_write path message))) calls

  module _ {P C A W : Type 0} (device : Device D P C A W) where
    -- One step, and then the others.
    encrypting-Steps :
        (s : Step) (steps : List Step) (more : Effect (OpnsenseBackupError D) (Call D) W (Unit {0}))
        (w : W)
        → ((w : W) → Steps steps (more w).result (more w).calls)
        → Steps
            (s ∷ steps)
            ((encrypting device path bytes passphrase s >> more) w).result
            ((encrypting device path bytes passphrase s >> more) w).calls
    unfolding ◌>>=◌
    encrypting-Steps s steps more w h =
        at (device.encrypt s bytes passphrase w).0 (device.encrypt s bytes passphrase w).1
      where
        after :
            {o : Option (Result (OpnsenseBackupError D) (Unit {0}))} {c : List (Call D)}
            → Steps steps o c
            → Steps (s ∷ steps) o (encrypted s bytes passphrase (ok tt) ∷ c)
        after all_well = all_well
        after (fails_at message f) = fails_at message (later s f)

        at :
            (r : Result Text (Unit {0})) (w1 : W)
            → let o = proceed (some (map_err (local_write path) r)) (λ u. more) w1 in
              Steps
                (s ∷ steps)
                o.result
                (encrypted s bytes passphrase (map_err (local_write path) r) ∷ o.calls)
        at (ok u) w1 = after (h w1)
        at (err message) w1 = fails_at message (now s message)

    last-Steps :
        (s : Step) (w : W)
        → Steps
            (s ∷ [])
            (encrypting device path bytes passphrase s w).result
            (encrypting device path bytes passphrase s w).calls
    last-Steps s w = at (device.encrypt s bytes passphrase w).0
      where
        at :
            (r : Result Text (Unit {0}))
            → Steps
                (s ∷ [])
                (some (map_err (local_write path) r))
                (encrypted s bytes passphrase (map_err (local_write path) r) ∷ [])
        at (ok u) = all_well
        at (err message) = fails_at message (now s message)

    encryption-Steps :
        (w : W)
        → Steps all_steps
            (encryption device path bytes passphrase w).result
            (encryption device path bytes passphrase w).calls
    encryption-Steps w = encrypting-Steps wrap_output _ _ w (λ w.
        encrypting-Steps write_all _ _ w (λ w.
          encrypting-Steps finish _ _ w
            (λ w. encrypting-Steps flush _ _ w (λ w. last-Steps sync_all w))))

    or_removed-Writing :
        (w : W)
        → let o = or_removed device path (encryption device path bytes passphrase) w in
          Writing o.result (created path (ok tt) ∷ o.calls)
    unfolding ◌>>=◌
    or_removed-Writing w = at (encryption device path bytes passphrase w).world (encryption-Steps w)
      where
        at :
            {o : Option (Result (OpnsenseBackupError D) (Unit {0}))} {c : List (Call D)} (w1 : W)
            → Steps all_steps o c
            → let f = on_failure device path o w1 in
              Writing f.result (created path (ok tt) ∷ c ++ f.calls)
        at w1 all_well = written
        at w1 (fails_at message f) = undone message (device.remove_file path w1).0 f

    -- Storing a configuration takes one of four courses: the output exists already and is left alone; it
    -- cannot be created; it is created, all steps of the encryption go well and it stays; or it is
    -- created, a step fails, nothing more is written, and the file is removed as the last thing done.
    pub encrypt_to_file-Writing :
        (w : W)
        → Writing
            (encrypt_to_file device path bytes passphrase w).result
            (encrypt_to_file device path bytes passphrase w).calls
    unfolding encrypt_to_file ◌>>=◌
    encrypt_to_file-Writing w = at (device.create_new path w).0 (device.create_new path w).1
      where
        at :
            (r : Result IoError (Unit {0})) (w1 : W)
            → let o = once_created device path bytes passphrase r w1 in
              Writing o.result (created path r ∷ o.calls)
        at (ok u) w1 = or_removed-Writing w1
        at (err already_exists) w1 = exists_already
        at (err (failed message)) w1 = not_created message
