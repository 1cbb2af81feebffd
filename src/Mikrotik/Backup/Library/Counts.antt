-- ===== src/Mikrotik/Backup/Library/Counts.antt =====
-- The counts of a difference of two backups.
use mathlib.Core.Option.{some-injective}
use verkkokyyla.Mikrotik.Backup.Diff.Sides.{
  of_older, of_newer, older_side, newer_side, diff_lines-HasSides,
}
use verkkokyyla.Mikrotik.Backup.Diff.{Kind, same, add, remove, DiffLine, lines_of, diff_lines}
use verkkokyyla.Mikrotik.Backup.Library.{
  MikrotikBackupRecord, Store, LibraryCall, loaded, read, BackupDiffDto, one_if_add, one_if_remove,
  count, load, or_not_found, find, diff_texts, read_export, diffed, diff_backup_records,
}
use verkkokyyla.Prelude.Effects.{>>=-ok}
use verkkokyyla.Prelude.Int.{ℤ}
use verkkokyyla.Prelude.Results.{Result, ok}
use verkkokyyla.Prelude.Text.{Text}
use verkkokyyla.Prelude.{
  ◌+◌, ◌≡◌, ◌∙◌, refl, ap, sym, subst, List, [], ◌∷◌, ◌++◌, Option, none, some, arith, length,
  length-append,
}

balance_line :
    (k : Kind) (t : Text)
    → length (of_newer k t) + one_if_remove k ≡ length (of_older k t) + one_if_add k
balance_line same t = refl
balance_line add t = refl
balance_line remove t = refl

balance :
    (ls : List DiffLine)
    → length (newer_side ls) + count one_if_remove ls ≡ length (older_side ls) + count one_if_add ls
balance [] = refl
balance (l ∷ ls) = omega (
  arith,
  balance ls,
  balance_line l.kind l.text,
  length-append (of_newer l.kind l.text) (newer_side ls),
  length-append (of_older l.kind l.text) (older_side ls),
)

count_lines :
    (older_text newer_text : Text) (ls : List DiffLine)
    → diff_lines older_text newer_text ≡ some ls
    → length (lines_of newer_text) + count one_if_remove ls
      ≡ length (lines_of older_text) + count one_if_add ls
count_lines older_text newer_text ls e =
    let sides = diff_lines-HasSides older_text newer_text in
    let same_diff = some-injective _ _ (sym sides.found ∙ e) in
    let newer = ap length (sym sides.newer) ∙ ap (λ d. length (newer_side d)) same_diff in
    let older = ap length (sym sides.older) ∙ ap (λ d. length (older_side d)) same_diff in
    omega (arith, balance ls, newer, older)

-- A difference of the exports of two records of the library, which were read for it.
pub record IsDiff {D : Type 0} (older_id newer_id : ℤ) (dto : BackupDiffDto)
    (calls : List (LibraryCall D)) : Type 0 where
  pub older : MikrotikBackupRecord
  pub newer : MikrotikBackupRecord
  pub older_path : Text
  pub newer_path : Text
  pub older_text : Text
  pub newer_text : Text
  pub older_exported : older.export_path ≡ some older_path
  pub newer_exported : newer.export_path ≡ some newer_path
  pub in_order :
      calls
      ≡ loaded older_id (ok (some older))
        ∷ loaded newer_id (ok (some newer))
        ∷ read older_path (ok older_text)
        ∷ read newer_path (ok newer_text)
        ∷ []
  pub names : (dto.older_name ≡ older.name) × (dto.newer_name ≡ newer.name)
  pub lines : diff_lines older_text newer_text ≡ some dto.lines
  pub counts : length (lines_of newer_text) + dto.removed ≡ length (lines_of older_text) + dto.added

step :
    {C : Type 0} {all first rest first' rest' : List C}
    → all ≡ first ++ rest
    → first ≡ first'
    → rest ≡ rest'
    → all ≡ first' ++ rest'
step e f g = e ∙ rw (f, g) refl

ok-injective :
    {E A : Type 0} {a b : A} → ◌≡◌ {A = Option (Result E A)} (some (ok a)) (some (ok b)) → a ≡ b
ok-injective e = cc e

module _ {D W : Type 0} (store : Store D W) where
  load-calls :
      (id : ℤ) (w : W) (found : Option MikrotikBackupRecord)
      → (load store id w).result ≡ some (ok found)
      → (load store id w).calls ≡ loaded id (ok found) ∷ []
  load-calls id w found e = ap (λ r. loaded id r ∷ []) (some-injective _ _ e)

  or_not_found-ok :
      (id : ℤ) (found : Option MikrotikBackupRecord) (w : W) (entry : MikrotikBackupRecord)
      → (or_not_found store id found w).result ≡ some (ok entry)
      → (found ≡ some entry) × ((or_not_found store id found w).calls ≡ [])
  or_not_found-ok id none w entry e = absurd (cc e)
  or_not_found-ok id (some found) w entry e = (cc e, refl)

  read_export-ok :
      (id : ℤ) (export : Option Text) (w : W) (text : Text)
      → (read_export store id export w).result ≡ some (ok text)
      → (path : Text) × (export ≡ some path)
        × ((read_export store id export w).calls ≡ read path (ok text) ∷ [])
  read_export-ok id none w text e = absurd (cc e)
  read_export-ok id (some path) w text e =
      (path, refl, ap (λ r. read path r ∷ []) (some-injective _ _ e))

  diffed-ok :
      (o : Option (List DiffLine)) (w : W) (ls : List DiffLine)
      → (diffed store o w).result ≡ some (ok ls)
      → (o ≡ some ls) × ((diffed store o w).calls ≡ [])
  diffed-ok none w ls e = absurd (cc e)
  diffed-ok (some found) w ls e = (cc e, refl)

  find-calls :
      (id : ℤ) (w : W) (entry : MikrotikBackupRecord)
      → (find store id w).result ≡ some (ok entry)
      → (find store id w).calls ≡ loaded id (ok (some entry)) ∷ []
  unfolding find
  find-calls id w entry e =
      let (found, was_loaded, last, c) = >>=-ok (load store id) (or_not_found store id) w entry e in
      let (there, none_more) = or_not_found-ok id found _ entry last in
      step c (load-calls id w found was_loaded ∙ ap (λ o. loaded id (ok o) ∷ []) there) none_more

  -- The last part calls nothing.
  diff_texts-ok :
      (older_id newer_id : ℤ) (older newer : MikrotikBackupRecord) (older_text newer_text : Text)
      (w : W) (dto : BackupDiffDto)
      → (diff_texts store older_id newer_id older newer older_text newer_text w).result
        ≡ some (ok dto)
      → ((diff_texts store older_id newer_id older newer older_text newer_text w).calls ≡ [])
        × ((dto.older_name ≡ older.name) × (dto.newer_name ≡ newer.name))
        × (diff_lines older_text newer_text ≡ some dto.lines)
        × (length (lines_of newer_text) + dto.removed ≡ length (lines_of older_text) + dto.added)
  unfolding diff_texts
  diff_texts-ok older_id newer_id older newer older_text newer_text w dto e =
      let (ls, g, last, c) = >>=-ok (diffed store (diff_lines older_text newer_text)) _ w dto e in
      let (found, none_more) = diffed-ok (diff_lines older_text newer_text) w ls g in
      let f = ok-injective last in
      (
        c ∙ rw none_more refl,
        (sym (ap (λ d. d.older_name) f), sym (ap (λ d. d.newer_name) f)),
        found ∙ ap (λ d. some d.lines) f,
        subst
            (λ d. length (lines_of newer_text) + d.removed ≡ length (lines_of older_text) + d.added)
            f (count_lines older_text newer_text ls found),
      )

-- A difference that is returned is that of the exports of the two records, as they were read, and
-- its counts account for the lengths of both: the newer export's lines and the removed ones are as
-- many as the older export's lines and the added ones.
pub diff_backup_records-IsDiff :
    {D W : Type 0} (store : Store D W) (older_id newer_id : ℤ) (w : W) (dto : BackupDiffDto)
    → (diff_backup_records store older_id newer_id w).result ≡ some (ok dto)
    → IsDiff older_id newer_id dto (diff_backup_records store older_id newer_id w).calls
unfolding diff_backup_records
diff_backup_records-IsDiff store older_id newer_id w dto e =
    let (older, g1, e1, c1) = >>=-ok (find store older_id) _ w dto e in
    let (newer, g2, e2, c2) = >>=-ok (find store newer_id) _ _ dto e1 in
    let (older_text, g3, e3, c3) =
      >>=-ok (read_export store older.id older.export_path) _ _ dto e2 in
    let (newer_text, g4, e4, c4) =
      >>=-ok (read_export store newer.id newer.export_path) _ _ dto e3 in
    let (older_path, x1, l3) = read_export-ok store older.id older.export_path _ older_text g3 in
    let (newer_path, x2, l4) = read_export-ok store newer.id newer.export_path _ newer_text g4 in
    let (l5, named, same_lines, counted) =
      diff_texts-ok store older_id newer_id older newer older_text newer_text _ dto e4 in
    record {
      older = older;
      newer = newer;
      older_path = older_path;
      newer_path = newer_path;
      older_text = older_text;
      newer_text = newer_text;
      older_exported = x1;
      newer_exported = x2;
      in_order =
          step c1 (find-calls store older_id w older g1)
            (step c2 (find-calls store newer_id _ newer g2) (step c3 l3 (step c4 l4 l5)));
      names = named;
      lines = same_lines;
      counts = counted;
    }
