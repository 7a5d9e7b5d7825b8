-- ===== src/Shares/Copies.antt =====
-- Files that are saved from shares refer to the objects of the originals; the handlers of files and
-- of shares together, over the table of files and the requests to the object store.
use aamenn_backend.Base.{
  >>=-eq-ok, Bool-cases, List, Option-cases, String, [], arith, inl, inr, ok, refl, some, subst,
  suc, true, ℕ, ◌∷◌, ◌≡◌,
}
use aamenn_backend.Table.{find_one, get}
use aamenn_backend.Entities.Library.{File, file_entity}
use aamenn_backend.Entities.Scalars.{Time, Uuid}
use aamenn_backend.Entities.Shares.{share_entity}
use aamenn_backend.Files.Cleanup.{purge_expired_trash}
use aamenn_backend.Files.Objects.{HasNewObjects, IsSafe}
use aamenn_backend.Files.Retention.{purge_expired_trash-unchanged}
use aamenn_backend.Files.Safety.{
  IsSafeDrive, add_file-IsSafe, delete_file_permanently-IsSafe,
  delete_files_permanently_bulk-IsSafe, empty_trash_batch-IsSafe, move_to_trash-IsSafe,
  move_to_trash_bulk-IsSafe, save_from-IsSafe, update_file-IsSafe,
}
use aamenn_backend.Files.Service.{FileUpdates, add_file, update_file}
use aamenn_backend.Files.Store.{Drive, is_kept_file}
use aamenn_backend.Files.Trash.{
  delete_file_permanently, delete_files_permanently_bulk, empty_trash_batch, move_to_trash,
  move_to_trash_bulk,
}
use aamenn_backend.Folders.Chains.{up}
use aamenn_backend.Shares.Service.{
  SavedFile, copy_of, file_keys_of, has_copy, has_key, save_files, save_one, save_to_account,
}
use aamenn_backend.Shares.Store.{Env, Links, find_active_share}
use aamenn_backend.Files.Store.{Env as FileEnv}

-- What happens to the drive.
pub data Step : Drive → Drive → Type 0 where
  added :
      (u : Uuid) (f : File) (d : Drive)
      → HasNewObjects d.files d.b2_deletions f
      → Step d (add_file f d)
  edited :
      (env : FileEnv) (id u : Uuid) (up : FileUpdates) (d d' : Drive) (f : File)
      → update_file env id u up d ≡ ok (f, d')
      → Step d d'
  trashed :
      (env : FileEnv) (id u : Uuid) (d d' : Drive) → move_to_trash env id u d ≡ ok d' → Step d d'
  trashed_all :
      (env : FileEnv) (ids : List Uuid) (u n : ℕ) (d d' : Drive)
      → move_to_trash_bulk env ids u d ≡ ok (n, d')
      → Step d d'
  deleted : (id u : Uuid) (d d' : Drive) → delete_file_permanently id u d ≡ ok d' → Step d d'
  deleted_all :
      (ids : List Uuid) (u n : ℕ) (d d' : Drive)
      → delete_files_permanently_bulk ids u d ≡ ok (n, d')
      → Step d d'
  emptied : (u n : ℕ) (d : Drive) → Step d (empty_trash_batch u n d).1
  cleaned : (env : FileEnv) (d : Drive) → Step d (purge_expired_trash env d).1
  saved :
      (env : Env) (fresh : ℕ → Uuid) (slug : List ℕ) (u : Uuid) (items : List SavedFile) (n : ℕ)
      (l l' : Links)
      → save_to_account env fresh slug u items l ≡ ok (n, l')
      → Step l.drive l'.drive

pub data Reach (d : Drive) : Drive → Type 0 where
  none_yet : Reach d d
  and_then : {e e' : Drive} → Reach d e → Step e e' → Reach d e'

save_one-IsSafe :
    (now : Time) (fresh u : Uuid) (keys : List (Uuid × String)) (item : SavedFile) (t : List File)
    (asked : List String)
    → IsSafe t asked
    → IsSafe (save_one now fresh u keys item t).1 asked
unfolding save_one
save_one-IsSafe now fresh u keys item t asked v =
    elim (Bool-cases (has_key keys item.original_file_id)) [
      | inr absent ↦ rw absent v
      | inl has ↦ elim (Option-cases (find_one item.original_file_id is_kept_file t)) [
        | inl none_found ↦ rw (has, none_found) v
        | inr (f, found) ↦ elim (Bool-cases (has_copy u f t)) [
          | inl again ↦ rw (has, found, again) v
          | inr first_time ↦
              let at : get item.original_file_id t ≡ some f = ground (arith, found) in
              let on : is_kept_file f ≡ true = ground (arith, found) in
              rw (has, found, first_time)
                (save_from-IsSafe t asked (copy_of now fresh u item f)
                  (item.original_file_id, f, at, refl, refl, λ _. on) v)
        ]
      ]
    ]

save_files-IsSafe :
    (now : Time) (fresh : ℕ → Uuid) (u : Uuid) (keys : List (Uuid × String))
    (items : List SavedFile) (t : List File) (asked : List String)
    → IsSafe t asked
    → IsSafe (save_files now fresh u keys items t).1 asked
unfolding save_files
save_files-IsSafe now fresh u keys [] t asked v = v
save_files-IsSafe now fresh u keys (item ∷ items) t asked v =
    save_files-IsSafe now (λ k. fresh (suc k)) u keys items (save_one now (fresh 0) u keys item t).1
      asked (save_one-IsSafe now (fresh 0) u keys item t asked v)

save_to_account-IsSafe :
    (env : Env) (fresh : ℕ → Uuid) (slug : List ℕ) (u : Uuid) (items : List SavedFile) (n : ℕ)
    (l l' : Links)
    → save_to_account env fresh slug u items l ≡ ok (n, l')
    → IsSafeDrive l.drive
    → IsSafeDrive l'.drive
unfolding save_to_account
save_to_account-IsSafe env fresh slug u items n l l' h v =
    let (s, _, h') = >>=-eq-ok (find_active_share env slug l.shares) _ h in
    let t = (save_files env.now fresh u (file_keys_of s) items l.drive.files).1 in
    let e : record l.drive { files = t } ≡ l'.drive = ground (arith, h') in
    subst IsSafeDrive e (
      save_files-IsSafe env.now fresh u (file_keys_of s) items l.drive.files l.drive.b2_deletions v)

Step-IsSafe : {d d' : Drive} → Step d d' → IsSafeDrive d → IsSafeDrive d'
Step-IsSafe (added u f d new) v = add_file-IsSafe u f d new v
Step-IsSafe (edited env id u up d d' f h) v = update_file-IsSafe env id u up d d' f h v
Step-IsSafe (trashed env id u d d' h) v = move_to_trash-IsSafe env id u d d' h v
Step-IsSafe (trashed_all env ids u n d d' h) v = move_to_trash_bulk-IsSafe env ids u n d d' h v
Step-IsSafe (deleted id u d d' h) v = delete_file_permanently-IsSafe id u d d' h v
Step-IsSafe (deleted_all ids u n d d' h) v = delete_files_permanently_bulk-IsSafe ids u n d d' h v
Step-IsSafe (emptied u n d) v = empty_trash_batch-IsSafe u n d v
Step-IsSafe (cleaned env d) v = rw (purge_expired_trash-unchanged env d) v
Step-IsSafe (saved env fresh slug u items n l l' h) v =
    save_to_account-IsSafe env fresh slug u items n l l' h v

-- From a drive where ids are unique, rows that share an object are copies of one file, and no
-- object of a file outside the trash was deleted, these steps lead to none where such an object
-- was: uploads with new objects, updates, both ways to the trash, both ways to delete for good, the
-- batches that empty the trash, the daily job, and saving files from a share into an account,
-- which copies a row and not its objects. Files that come back from the trash are no such step.
pub Reach-IsSafe : {d d' : Drive} → IsSafeDrive d → Reach d d' → IsSafeDrive d'
Reach-IsSafe v none_yet = v
Reach-IsSafe v (and_then r st) = Step-IsSafe st (Reach-IsSafe v r)
