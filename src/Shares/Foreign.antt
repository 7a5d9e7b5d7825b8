-- ===== src/Shares/Foreign.antt =====
-- Saving files that were never shared: what `saveToAccount` checks of a file is only that the link
-- has a key for its id, and whoever makes the link writes those keys.
use text.Mathlib.Text.{◌==◌ as str_eq}
use aamenn_backend.Base.{
  ==_refl, >>=-eq-ok, All, List, String, [], ap, arith, false, none, not, ok, refl, some, sym, true,
  ℕ, ◌∙◌, ◌∷◌, ◌≡◌,
}
use aamenn_backend.Table.{find_one, get, get-save, save}
use aamenn_backend.Entities.Library.{File, file_entity}
use aamenn_backend.Entities.Scalars.{Time, Uuid}
use aamenn_backend.Entities.Shares.{ShareLink, share_entity}
use aamenn_backend.Files.Store.{Drive, is_kept_file}
use aamenn_backend.Shares.Creating.{IsOwnItem, create_share-allowed, create_share-find_active_share}
use aamenn_backend.Shares.Service.{
  CreateShare, SavedFile, copy_of, create_share, expiry_of, file_keys_of, has_copy, has_key,
  new_share, save_files, save_one, save_to_account, slugs_of, verify_items,
}
use aamenn_backend.Shares.Slugs.{generate_unique_slug}
use aamenn_backend.Shares.Store.{Env, Links, is_over}

-- The entry of a request for a file.
abbrev pub entry_of : File → String → String → SavedFile
entry_of f key name = record {
  original_file_id = f.id;
  cipher_file_key = key;
  file_name_encrypted = name;
}

made_link :
    (env : Env) (u : Uuid) (dto : CreateShare) (l l1 : Links) (s : ShareLink)
    → create_share env u dto l ≡ ok (s, l1)
    → (s ≡ new_share env u s.slug dto) × (l1.drive ≡ l.drive)
unfolding create_share
made_link env u dto l l1 s h =
    let (_, _, h') = >>=-eq-ok (verify_items u dto.items l) _ h in
    let (slug, _, h'') = >>=-eq-ok (generate_unique_slug dto.slug_base (slugs_of l.shares)) _ h' in
    let e : new_share env u slug dto ≡ s = ground (arith, h'') in
    (
      sym e ∙ ap (λ x. new_share env u x dto) (ap (λ (x : ShareLink). x.slug) e),
      ground (arith, h''),
    )

save_files-one :
    (now : Time) (fresh : ℕ → Uuid) (u : Uuid) (key name : String) (f : File) (t : List File)
    → not (str_eq key "") ≡ true
    → get f.id t ≡ some f
    → is_kept_file f ≡ true
    → has_copy u f t ≡ false
    → save_files now fresh u ((f.id, key) ∷ []) (entry_of f key name ∷ []) t
      ≡ (1, save (copy_of now (fresh 0) u (entry_of f key name) f) t)
unfolding save_files save_one
save_files-one now fresh u key name f t filled at on no_copy =
    let has : has_key ((f.id, key) ∷ []) f.id ≡ true = ground (arith, ==_refl f.id, filled) in
    let found : find_one f.id is_kept_file t ≡ some f = ground (arith, at, on) in
    rw (has, found, no_copy) refl

-- A user makes a link to items of their own, with a key under the id of any file, whoever it
-- belongs to and whether it was shared or not, and then saves that file by the link: the link is
-- created, saving succeeds, and the user has a row with the objects of the file. The key is not
-- empty, the link has no end, the file is outside the trash, and the user has no copy of it yet.
pub save_to_account-foreign :
    (env : Env) (fresh : ℕ → Uuid) (u : Uuid) (dto : CreateShare) (name key : String) (f : File)
    (l : Links)
    → All (IsOwnItem u l) dto.items
    → dto.file_keys ≡ some ((f.id, key) ∷ [])
    → not (str_eq key "") ≡ true
    → dto.expires_in_seconds ≡ none
    → get f.id l.drive.files ≡ some f
    → is_kept_file f ≡ true
    → has_copy u f l.drive.files ≡ false
    → (s : ShareLink) × (l1 : Links) × (l2 : Links) × (create_share env u dto l ≡ ok (s, l1))
      × (save_to_account env fresh s.slug u (entry_of f key name ∷ []) l1 ≡ ok (1, l2))
      × (get (fresh 0) l2.drive.files ≡ some (copy_of env.now (fresh 0) u (entry_of f key name) f))
unfolding save_to_account
save_to_account-foreign env fresh u dto name key f l own keys filled lasting at on no_copy =
    let ((s, l1), made) = (create_share-allowed env u dto l).0 own in
    let (fields, same_drive) = made_link env u dto l l1 s made in
    let going : is_over env s.expires_at ≡ false =
      ap (λ (x : ShareLink). is_over env x.expires_at) fields
      ∙ ap (λ n. is_over env (expiry_of env n)) lasting in
    let found = (create_share-find_active_share env env u dto l l1 s made).0 going in
    let its_keys : file_keys_of s ≡ (f.id, key) ∷ [] = ap file_keys_of fields ∙ rw keys refl in
    let t = save (copy_of env.now (fresh 0) u (entry_of f key name) f) l.drive.files in
    let saved : save_files env.now fresh u (file_keys_of s) (entry_of f key name ∷ [])
          l1.drive.files
        ≡ (1, t) =
      ap (λ ks. save_files env.now fresh u ks (entry_of f key name ∷ []) l1.drive.files) its_keys
      ∙ ap
          (λ (d : Drive).
            save_files env.now fresh u ((f.id, key) ∷ []) (entry_of f key name ∷ []) d.files)
          same_drive
      ∙ save_files-one env.now fresh u key name f l.drive.files filled at on no_copy in
    (
      s,
      l1,
      record l1 { drive = record l1.drive { files = t } },
      made,
      rw found (
          ap
            (λ (r : ℕ × List File). ok (r.0, record l1 { drive = record l1.drive { files = r.1 } }))
            saved),
      ground (
        arith,
        get-save (fresh 0) (copy_of env.now (fresh 0) u (entry_of f key name) f) l.drive.files,
        ==_refl (fresh 0),
      ),
    )
