-- ===== src/Files/Tests.antt =====
-- The theorems on files at a sample drive.
use text.Mathlib.Text.{◌==◌ as str_eq}
use text.Mathlib.TextEquality.{eq_iff}
use native.Mathlib.Decide.{ℕ_discrete}
use aamenn_backend.Base.{
  Bool, [], ap, arith, false, length, ltb, none, ok, refl, select, some, sort_with, true, ℕ, ◌∙◌,
  ◌∷◌, ◌≡◌, ◌≢◌,
}
use aamenn_backend.Storage.{text_member}
use aamenn_backend.Table.{get}
use aamenn_backend.Entities.Library.{File, file_entity}
use aamenn_backend.Entities.Scalars.{Uuid}
use aamenn_backend.Files.Cleanup.{purge_expired_trash}
use aamenn_backend.Files.Losing.{restore-delete_file_permanently}
use aamenn_backend.Files.Newest.{IsNewestFirst, sort-IsOrder}
use aamenn_backend.Files.Reads.{any_folder, get_files_batch, is_listed, is_newer, list_files}
use aamenn_backend.Files.Restoring.{restore-move_to_trash, stamp}
use aamenn_backend.Files.Retention.{purge_expired_trash-unchanged}
use aamenn_backend.Files.Samples.{my_copy, other_file, sample_drive, sample_env, their_file}
use aamenn_backend.Files.Store.{Drive, is_kept_file, verify_file_ownership}
use aamenn_backend.Files.Trash.{delete_file_permanently, move_to_trash, restore_files_bulk, untrash}
use aamenn_backend.Files.Views.{
  answers, get_files_batch-answers, list_files-pages, pages, viewable_file,
}

get_files_batch-answers_example :
    get_files_batch (λ f. true) (3 ∷ 1 ∷ 3 ∷ []) 7 sample_drive.files
    ≡ answers (viewable_file (λ f. true) 7 sample_drive.files) (3 ∷ 1 ∷ 3 ∷ [])
get_files_batch-answers_example =
    get_files_batch-answers (λ f. true) (3 ∷ 1 ∷ 3 ∷ []) 7 sample_drive.files
      (refl, (refl, (refl, tt)))

batch :
    answers (viewable_file (λ f. true) 7 sample_drive.files) (3 ∷ 1 ∷ 3 ∷ [])
    ≡ other_file ∷ other_file ∷ []
batch = refl

list_files-pages_example :
    let found = pages (sort_with is_newer) 7 2 none any_folder 1 sample_drive.files in
    IsNewestFirst found
    × ((q : File → Bool)
        → length (select q found)
          ≡ length (select q (select (is_listed 7 none any_folder) sample_drive.files)))
    × ((n : ℕ)
        → (list_files (sort_with is_newer) none 7 n 2 none any_folder sample_drive.files).0.has_more
          ≡ some (ltb n 1))
unfolding list_files
list_files-pages_example =
    list_files-pages (sort_with is_newer) 7 2 none any_folder sample_drive.files sort-IsOrder
      (omega arith)

purge_expired_trash-unchanged_example :
    purge_expired_trash sample_env sample_drive ≡ (0, sample_drive)
purge_expired_trash-unchanged_example = purge_expired_trash-unchanged sample_env sample_drive

restore-move_to_trash_example :
    (n : ℕ) × (d1 : Drive) × (d2 : Drive) × (move_to_trash sample_env 3 7 sample_drive ≡ ok d1)
    × (restore_files_bulk sample_env (3 ∷ []) 7 d1 ≡ ok (n, d2))
    × (get 3 d2.files ≡ some (stamp sample_env other_file))
    × ((j : Uuid) → j ≢ 3 → get j d2.files ≡ get j sample_drive.files)
    × (d2.b2_deletions ≡ [])
unfolding verify_file_ownership
restore-move_to_trash_example =
    restore-move_to_trash sample_env sample_env 3 7 sample_drive other_file refl

other_path : ¬ (str_eq other_file.b2_file_path their_file.b2_file_path ≡ true)
other_path h = cc

-- the only other row of the object is in the trash
others_trashed :
    (i : Uuid) (h : File)
    → get i sample_drive.files ≡ some h
    → i ≢ 2
    → h.b2_file_path ≡ "users/8/files/2"
    → is_kept_file h ≡ false
others_trashed i h at ne path = elim (ℕ_discrete i 1) [
  | yes e ↦ ground (arith, at, e)
  | no ne1 ↦ elim (ℕ_discrete i 3) [
    | yes e3 ↦
        let this : other_file ≡ h = ground (arith, at, e3) in
        let both : other_file.b2_file_path ≡ their_file.b2_file_path =
          ap (λ (x : File). x.b2_file_path) this ∙ path in
        absurd (other_path ((eq_iff other_file.b2_file_path their_file.b2_file_path).1 both))
    | no ne3 ↦ ground (arith, at, ne, ne1, ne3)
  ]
]

restore-delete_file_permanently_example :
    (n : ℕ) × (d1 : Drive) × (d2 : Drive) × (delete_file_permanently 2 8 sample_drive ≡ ok d1)
    × (restore_files_bulk sample_env (1 ∷ []) 7 d1 ≡ ok (n, d2))
    × (get 1 d2.files ≡ some (untrash sample_env my_copy))
    × (text_member "users/8/files/2" d2.b2_deletions ≡ true)
restore-delete_file_permanently_example =
    restore-delete_file_permanently sample_env 7 8 my_copy their_file sample_drive
      (refl, (refl, (refl, tt))) refl refl refl refl (omega arith) refl others_trashed
