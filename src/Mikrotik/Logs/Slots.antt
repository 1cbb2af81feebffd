-- ===== src/Mikrotik/Logs/Slots.antt =====
-- mikrotik/logs.rs, `LogStreamManager`: one stream for each profile. Each function here runs under
-- the lock; a stop waits for its task outside the lock, and the task clears the slot when it ends.
use verkkokyyla.Prelude.Assoc.{get, contains_key, insert, remove}
use verkkokyyla.Prelude.Results.{Result, ok, err, ◌>>=◌}
use verkkokyyla.Prelude.{
  ℕ, ◌≡◌, refl, false, List, [], ◌∷◌, Option, none, some, arith, if◌then◌else◌,
}

pub data LogError : Type 0 where
  already_running_for_profile : ℕ → LogError
  no_active_session : LogError

-- `LogInner::active`: the stream of each profile.
abbrev pub Streams : Type 0
Streams = List (ℕ × ℕ)

-- The test that a start makes under the lock, before the connection and again after it.
unfoldable pub slot_guard : Streams → ℕ → Result LogError (Unit {0})
slot_guard active profile_id =
    if contains_key profile_id active then err (already_running_for_profile profile_id) else ok tt

-- The second half of a start, which makes the stream.
unfoldable pub claim_slot : Streams → ℕ → ℕ → Result LogError Streams
claim_slot active profile_id stream = do
  free ← slot_guard active profile_id
  ok (insert profile_id stream active)

unlisted : Option ℕ → Streams → ℕ → Result LogError (ℕ × Streams)
unlisted (some stream) active profile_id = ok (stream, remove profile_id active)
unlisted none active profile_id = err no_active_session

-- A stop up to the wait: the stream that is told to stop, and the slots.
unfoldable pub stop_slot : Streams → ℕ → Result LogError (ℕ × Streams)
unfolding unlisted
stop_slot active profile_id = unlisted (get profile_id active) active profile_id

-- The end of a task.
unfoldable pub clear_active : Streams → ℕ → Streams
clear_active active profile_id = remove profile_id active

-- A stream starts and is stopped; before its task has ended a second one starts, which nobody
-- stops; then the first task ends.
abbrev pub overtaken : Streams → ℕ → ℕ → ℕ → Result LogError (ℕ × Streams)
overtaken active profile_id first second = do
  with_first ← claim_slot active profile_id first
  without ← stop_slot with_first profile_id
  with_second ← claim_slot without.1 profile_id second
  ok (without.0, clear_active with_second profile_id)

get_inserted : (p s : ℕ) (active : Streams) → get p (insert p s active) ≡ some s
get_inserted p s [] = ground arith
get_inserted p s ((q, t) ∷ active) = ground (arith, get_inserted p s active)

remove-insert :
    (p s : ℕ) (active : Streams)
    → contains_key p active ≡ false
    → remove p (insert p s active) ≡ active
remove-insert p s [] h = ground arith
remove-insert p s ((q, t) ∷ active) h = ground (arith, remove-insert p s active, h)

-- Whatever streams there are, when a second start on a profile comes between a stop and the end of
-- the task that it stops, that end takes the slot of the second stream: the slots are as before
-- both starts, so that no call can stop the second stream any more and a third one may start.
pub overtaken-loses :
    (active : Streams) (p first second : ℕ)
    → contains_key p active ≡ false
    → overtaken active p first second ≡ ok (first, active)
unfolding claim_slot stop_slot unlisted clear_active slot_guard
overtaken-loses active p first second h =
    rw
      (
        h,
        get_inserted p first active,
        remove-insert p first active h,
        h,
        remove-insert p second active h,
      )
      refl
