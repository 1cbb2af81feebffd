-- ===== src/Mikrotik/Backup/Flow/Steps.antt =====
-- The steps of a download: what their calls answer, and what they then end with.
use mathlib.Core.List.{append-nil, append_assoc}
use mathlib.Core.Option.{some-injective}
use verkkokyyla.Mikrotik.Backup.World.{
  BackupError, backup_timeout, BackupParams, Call, listed, exported, fetched, wrote, slept,
}
use verkkokyyla.Prelude.Effects.{Effect, ret, proceed, ◌>>=◌}
use verkkokyyla.Prelude.Results.{Result, ok, err}
use verkkokyyla.Prelude.Text.{Text}
use verkkokyyla.Prelude.{ℕ, ◌≡◌, ◌⊎◌, refl, List, [], ◌∷◌, ◌++◌, Option, none, some}

-- How a step can end, with which calls.
abbrev pub Step : Type 0 → Type 1
Step A = Result BackupError A → List Call → Type 0

-- One step and then another: an error of the first is the answer, and the second does not begin.
pub data Then {A B : Type 0} (P : Step A) (Q : A → Step B)
    : Result BackupError B → List Call → Type 0 where
  stopped : (e : BackupError) (calls : List Call) → P (err e) calls → Then P Q (err e) calls
  went_on :
      (a : A) (r : Result BackupError B) (first second : List Call)
      → P (ok a) first
      → Q a r second
      → Then P Q r (first ++ second)

-- Nothing is left to do.
pub data Done {A : Type 0} (a : A) : Result BackupError A → List Call → Type 0 where
  done : Done a (ok a) []

abbrev pub IsListed : Text → List (Option Text) → Type 0
IsListed name [] = ⊥
IsListed name (f ∷ files) = (f ≡ some name) ⊎ IsListed name files

module _ (p : BackupParams) where
  -- Listings until the file is there, a listing fails or it is too late, with a pause between two.
  pub data Waits (name : Text) : Result BackupError (Unit {0}) → List Call → Type 0 where
    not_listed : (e : BackupError) → Waits name (err e) (listed (err e) ∷ [])
    is_there :
        (files : List (Option Text))
        → IsListed name files
        → Waits name (ok tt) (listed (ok files) ∷ [])
    too_late :
        (files : List (Option Text)) (message : Text)
        → ¬ IsListed name files
        → Waits name (err (backup_timeout message)) (listed (ok files) ∷ [])
    not_yet :
        (files : List (Option Text)) (r : Result BackupError (Unit {0})) (calls : List Call)
        → ¬ IsListed name files
        → Waits name r calls
        → Waits name r (listed (ok files) ∷ slept p.file_poll.interval ∷ calls)

  pub data Exports : Result BackupError (Unit {0}) → List Call → Type 0 where
    exports : (r : Result BackupError (Unit {0})) → Exports r (exported p.backup_name r ∷ [])

  pub data Fetches (remote : Text) : Result BackupError (List ℕ) → List Call → Type 0 where
    fetches :
        (r : Result BackupError (List ℕ))
        → Fetches remote r (fetched p.sftp_host 22 p.sftp_username p.sftp_password remote r ∷ [])

pub data Writes (path : Text) (bytes : List ℕ)
    : Result BackupError (Unit {0}) → List Call → Type 0 where
  writes : (r : Result BackupError (Unit {0})) → Writes path bytes r (wrote path bytes r ∷ [])

-- This code ends and calls like this step.
pub record Meets {A W : Type 0} (P : Step A) (m : Effect BackupError Call W A) : Type 0 where
  pub shows : (w : W) (r : Result BackupError A) → (m w).result ≡ some r → P r (m w).calls

module _ {W : Type 0} where
  pub bind-Meets :
      {A B : Type 0} (P : Step A) (Q : A → Step B) (m : Effect BackupError Call W A)
      (f : A → Effect BackupError Call W B)
      → Meets P m
      → ((a : A) → Meets (Q a) (f a))
      → Meets (Then P Q) (m >>= f)
  unfolding ◌>>=◌
  bind-Meets {A} {B} P Q m f h k = record { shows = λ w r e. at w r (m w).result refl e }
    where
      at :
          (w : W) (r : Result BackupError B) (o : Option (Result BackupError A))
          → (m w).result ≡ o
          → (proceed o f (m w).world).result ≡ some r
          → Then P Q r ((m w).calls ++ (proceed o f (m w).world).calls)
      at w r none e g = absurd (cc g)
      at w r (some (err x)) e g =
          rw (append-nil (m w).calls, ← some-injective _ _ g) (stopped x _ (h.shows w (err x) e))
      at w r (some (ok a)) e g = went_on a r _ _ (h.shows w (ok a) e) ((k a).shows (m w).world r g)

  pub assoc-Meets :
      {A B C : Type 0} (P : Step C) (m : Effect BackupError Call W A)
      (f : A → Effect BackupError Call W B) (g : B → Effect BackupError Call W C)
      → Meets P (m >>= λ a. f a >>= g)
      → Meets P ((m >>= f) >>= g)
  unfolding ◌>>=◌
  assoc-Meets {A} {B} {C} P m f g h = record {
    shows = λ w r e. at w r (m w).result (h.shows w r) e;
  }
    where
      at :
          (w : W) (r : Result BackupError C) (o : Option (Result BackupError A))
          → let direct = proceed o (λ a. f a >>= g) (m w).world in
            let first = proceed o f (m w).world in
            let second = proceed first.result g first.world in
            (direct.result ≡ some r → P r ((m w).calls ++ direct.calls))
            → second.result ≡ some r
            → P r (((m w).calls ++ first.calls) ++ second.calls)
      at w r none h e = absurd (cc e)
      at w r (some (err x)) h e = rw (append-nil ((m w).calls ++ [])) (h e)
      at w r (some (ok a)) h e = rw append_assoc (h e)

  pub ret-Meets :
      {A B : Type 0} (P : Step B) (a : A) (f : A → Effect BackupError Call W B)
      → Meets P (f a)
      → Meets P (ret a >>= f)
  unfolding ◌>>=◌
  ret-Meets P a f h = record { shows = h.shows }

  pub done-Meets : {A : Type 0} (a : A) → Meets (Done a) (ret {W = W} a)
  done-Meets a = record { shows = λ w r e. rw (← some-injective _ _ e) done }
