-- ===== src/Files/Safety.antt =====
-- The handlers of `FilesService` against the objects of the files outside the trash.
use aamenn_backend.Base.{
  >>=-eq-ok, All-sort_with, All-take, Bool, Bool-cases, List, Option-cases, String, [], arith, inl,
  inr, length, not_found, ok, or_throw, refl, select, some, sort_with, subst, take, throw_if, true,
  update_where, ℕ, ◌==◌, ◌∷◌, ◌≡◌,
}
use aamenn_backend.Storage.{b2_paths}
use aamenn_backend.Table.{find_one, get, get-save, get-update_where, key-get, save}
use aamenn_backend.Entities.Library.{File, file_entity}
use aamenn_backend.Entities.Scalars.{Uuid}
use aamenn_backend.Files.Objects.{
  AreRows, ComesFrom, ComesFrom-IsSafe, HasNewObjects, IsSafe, first_path, purge-IsSafe,
  save-IsSafe, select-AreRows,
}
use aamenn_backend.Files.Service.{FileUpdates, add_file, apply_updates, update_file}
use aamenn_backend.Files.Store.{
  Drive, Env, is_kept_file, is_own_file, is_own_listed, is_trashed_of, touch_files,
  verify_file_ownership,
}
use aamenn_backend.Files.Trash.{
  delete_file_permanently, delete_files_permanently_bulk, empty_trash_batch, is_own_listed_kept,
  is_trashed_before, move_to_trash, move_to_trash_bulk, purge_files, soft_delete, trash,
}
use aamenn_backend.Table.Keys.{IsKeyed-save, IsKeyed-update_where}

from_old : (t : List File) (i : Uuid) (f : File) → get i t ≡ some f → ComesFrom t f
from_old t i f at = (i, f, at, refl, refl, λ on. on)

-- Saving a row that comes from an earlier one.
pub save_from-IsSafe :
    (t : List File) (asked : List String) (f : File)
    → ComesFrom t f
    → IsSafe t asked
    → IsSafe (save f t) asked
save_from-IsSafe t asked f from v =
    ComesFrom-IsSafe t (save f t) asked
      (λ i g at. elim (Bool-cases (f.id == i)) [
        | inl this ↦
            let e : f ≡ g = ground (arith, get-save i f t, this, at) in
            subst (λ (x : File). ComesFrom t x) e from
        | inr other ↦ from_old t i g (ground (arith, get-save i f t, other, at))
      ])
      (IsKeyed-save f t v.keyed) v

-- A write that keeps ids and objects, and makes no row active.
update-IsSafe :
    (q : File → Bool) (g : File → File) (t : List File) (asked : List String)
    → ((f : File) → (g f).id ≡ f.id)
    → ((f : File) → b2_paths (g f) ≡ b2_paths f)
    → ((f : File) → is_kept_file (g f) ≡ true → is_kept_file f ≡ true)
    → IsSafe t asked
    → IsSafe (update_where q g t) asked
update-IsSafe q g t asked key paths back v =
    ComesFrom-IsSafe t (update_where q g t) asked
      (λ i f' at. elim (Option-cases (get i t)) [
        | inl absent ↦ ground (arith, get-update_where i q g key t, absent, at)
        | inr (f, before) ↦ elim (Bool-cases (q f)) [
          | inl chosen ↦
              let e : g f ≡ f' = ground (arith, get-update_where i q g key t, before, chosen, at) in
              subst (λ (x : File). ComesFrom t x) e
                (i, f, before, paths f, first_path (g f) f (paths f), back f)
          | inr free ↦
              let e : f ≡ f' = ground (arith, get-update_where i q g key t, before, free, at) in
              subst (λ (x : File). ComesFrom t x) e (from_old t i f before)
        ]
      ])
      (IsKeyed-update_where q g key t v.keyed) v

soft_delete-IsSafe :
    (env : Env) (u : Uuid) (ids : List Uuid) (t : List File) (asked : List String)
    → IsSafe t asked
    → IsSafe (update_where (is_own_listed u ids) (trash env) t) asked
soft_delete-IsSafe env u ids t asked =
    update-IsSafe (is_own_listed u ids) (trash env) t asked (λ f. refl) (λ f. refl) (λ f on. cc)

-- What the table and the requests of a drive promise.
abbrev pub IsSafeDrive : Drive → Type 0
IsSafeDrive d = IsSafe d.files d.b2_deletions

pub move_to_trash-IsSafe :
    (env : Env) (id u : Uuid) (d d' : Drive)
    → move_to_trash env id u d ≡ ok d'
    → IsSafeDrive d
    → IsSafeDrive d'
unfolding move_to_trash
move_to_trash-IsSafe env id u d d' h v =
    let (f, _, h') = >>=-eq-ok (verify_file_ownership id u d.files) _ h in
    let e : touch_files u (soft_delete env u (id ∷ []) d) ≡ d' = ground (arith, h') in
    subst IsSafeDrive e (soft_delete-IsSafe env u (id ∷ []) d.files d.b2_deletions v)

pub move_to_trash_bulk-IsSafe :
    (env : Env) (ids : List Uuid) (u n : ℕ) (d d' : Drive)
    → move_to_trash_bulk env ids u d ≡ ok (n, d')
    → IsSafeDrive d
    → IsSafeDrive d'
unfolding move_to_trash_bulk
move_to_trash_bulk-IsSafe env [] u n d d' h v =
    let e : d ≡ d' = ground arith in subst IsSafeDrive e v
move_to_trash_bulk-IsSafe env (id ∷ ids) u n d d' h v =
    let (_, _, h') =
      >>=-eq-ok
        (throw_if (length (select (is_own_listed_kept u (id ∷ ids)) d.files) == 0) not_found) _ h in
    let e : touch_files u (soft_delete env u (id ∷ ids) d) ≡ d' = ground (arith, h') in
    subst IsSafeDrive e (soft_delete-IsSafe env u (id ∷ ids) d.files d.b2_deletions v)

pub update_file-IsSafe :
    (env : Env) (id u : Uuid) (up : FileUpdates) (d d' : Drive) (f' : File)
    → update_file env id u up d ≡ ok (f', d')
    → IsSafeDrive d
    → IsSafeDrive d'
unfolding update_file verify_file_ownership
update_file-IsSafe env id u up d d' f' h v =
    let (f, verified, h') = >>=-eq-ok (verify_file_ownership id u d.files) _ h in
    let at : get id d.files ≡ some f = ground (arith, verified) in
    let e : touch_files u (add_file (apply_updates env up f) d) ≡ d' = ground (arith, h') in
    subst IsSafeDrive e (
      save_from-IsSafe d.files d.b2_deletions (apply_updates env up f)
        (id, f, at, refl, refl, λ on. on) v)

purge_files-IsSafe :
    (u : Uuid) (doomed : List File) (d : Drive)
    → AreRows d.files doomed
    → IsSafeDrive d
    → IsSafeDrive (touch_files u (purge_files doomed d))
unfolding purge_files
purge_files-IsSafe u doomed d rows v = purge-IsSafe d.files doomed d.b2_deletions rows v

pub delete_file_permanently-IsSafe :
    (id u : Uuid) (d d' : Drive)
    → delete_file_permanently id u d ≡ ok d'
    → IsSafeDrive d
    → IsSafeDrive d'
unfolding delete_file_permanently
delete_file_permanently-IsSafe id u d d' h v =
    let (f, found, h') = >>=-eq-ok (or_throw (find_one id (is_own_file u) d.files) not_found) _ h in
    let at : get id d.files ≡ some f = ground (arith, found) in
    let row : get f.id d.files ≡ some f = ground (arith, at, key-get id d.files at) in
    let e : touch_files u (purge_files (f ∷ []) d) ≡ d' = ground (arith, h') in
    subst IsSafeDrive e (purge_files-IsSafe u (f ∷ []) d (row, tt) v)

pub delete_files_permanently_bulk-IsSafe :
    (ids : List Uuid) (u n : ℕ) (d d' : Drive)
    → delete_files_permanently_bulk ids u d ≡ ok (n, d')
    → IsSafeDrive d
    → IsSafeDrive d'
unfolding delete_files_permanently_bulk
delete_files_permanently_bulk-IsSafe [] u n d d' h v =
    let e : d ≡ d' = ground arith in subst IsSafeDrive e v
delete_files_permanently_bulk-IsSafe (id ∷ ids) u n d d' h v =
    let found = select (is_own_listed u (id ∷ ids)) d.files in
    let (_, _, h') = >>=-eq-ok (throw_if (length found == 0) not_found) _ h in
    let e : touch_files u (purge_files found d) ≡ d' = ground (arith, h') in
    subst IsSafeDrive e
      (purge_files-IsSafe u found d (select-AreRows (is_own_listed u (id ∷ ids)) d.files v.keyed) v)

pub empty_trash_batch-IsSafe :
    (u n : ℕ) (d : Drive) → IsSafeDrive d → IsSafeDrive (empty_trash_batch u n d).1
unfolding empty_trash_batch
empty_trash_batch-IsSafe u n d v =
    let trashed = select (is_trashed_of u) d.files in
    let found = take n (sort_with is_trashed_before trashed) in
    let rows =
      All-take (λ (f : File). get f.id d.files ≡ some f) n (sort_with is_trashed_before trashed)
        (All-sort_with is_trashed_before (λ (f : File). get f.id d.files ≡ some f) trashed
          (select-AreRows (is_trashed_of u) d.files v.keyed)) in
    elim (Bool-cases (length found == 0)) [
      | inl none_left ↦
          let e : d ≡ (empty_trash_batch u n d).1 = ground (arith, none_left) in
          subst IsSafeDrive e v
      | inr some_left ↦
          let e : touch_files u (purge_files found d) ≡ (empty_trash_batch u n d).1 =
            ground (arith, some_left) in
          subst IsSafeDrive e (purge_files-IsSafe u found d rows v)
    ]

-- New objects are those of a row that was just uploaded.
pub add_file-IsSafe :
    (u : Uuid) (f : File) (d : Drive)
    → HasNewObjects d.files d.b2_deletions f
    → IsSafeDrive d
    → IsSafeDrive (add_file f d)
add_file-IsSafe u f d new v = save-IsSafe d.files d.b2_deletions f new v
