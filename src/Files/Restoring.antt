-- ===== src/Files/Restoring.antt =====
-- What comes back from the trash.
use aamenn_backend.Base.{
  Bool, List, Option-cases, [], any, arith, false, inl, inr, length, none, ok, refl, select, some,
  true, update_where, ℕ, ◌==◌, ◌∷◌, ◌≡◌, ◌≢◌,
}
use aamenn_backend.Table.{get, get-update_where, key-get}
use aamenn_backend.Entities.Library.{File, file_entity}
use aamenn_backend.Entities.Scalars.{Uuid}
use aamenn_backend.Files.Objects.{any-get}
use aamenn_backend.Files.Store.{
  Drive, Env, is_kept_file, is_own_listed, touch_files, verify_file_ownership,
  verify_file_ownership-eq-ok,
}
use aamenn_backend.Files.Trash.{
  is_own_listed_trashed, move_to_trash, restore_files_bulk, trash, untrash,
}

-- The file with another time of its last change.
abbrev pub stamp : Env → File → File
stamp env f = record f { updated_at = env.now }

pub any-select-length :
    (q : File → Bool) (t : List File) → any q t ≡ true → (length (select q t) == 0) ≡ false
any-select-length q [] h = cc
any-select-length q (f ∷ t) h = ground (arith, any-select-length q t)

restored_row :
    (env env' : Env) (id u : Uuid) (t : List File) (f : File)
    → get id t ≡ some f
    → is_kept_file f ≡ true
    → is_own_listed u (id ∷ []) f ≡ true
    → get id (
        update_where
          (is_own_listed u (id ∷ []))
          (untrash env')
          (update_where (is_own_listed u (id ∷ [])) (trash env) t))
      ≡ some (stamp env' f)
restored_row env env' id u t f at on chosen =
    let p = is_own_listed u (id ∷ []) in
    let open_file : f.deleted_at ≡ none = ground (arith, on) in
    let again : p (trash env f) ≡ true = ground (arith, chosen) in
    ground (
      arith,
      get-update_where id p (untrash env') (λ g. refl) (update_where p (trash env) t),
      get-update_where id p (trash env) (λ g. refl) t,
      at,
      chosen,
      again,
      open_file,
    )

other_row :
    (env env' : Env) (id u : Uuid) (t : List File) (j : Uuid)
    → j ≢ id
    → get j (
        update_where
          (is_own_listed u (id ∷ []))
          (untrash env')
          (update_where (is_own_listed u (id ∷ [])) (trash env) t))
      ≡ get j t
other_row env env' id u t j ne =
    let p = is_own_listed u (id ∷ []) in
    elim (Option-cases (get j t)) [
      | inl absent ↦ ground (
        arith,
        get-update_where j p (untrash env') (λ g. refl) (update_where p (trash env) t),
        get-update_where j p (trash env) (λ g. refl) t,
        absent,
      )
      | inr (g, at) ↦
          let key : g.id ≡ j = key-get j t at in
          let free : p g ≡ false = ground (arith, key, ne) in
          ground (
            arith,
            get-update_where j p (untrash env') (λ h. refl) (update_where p (trash env) t),
            get-update_where j p (trash env) (λ h. refl) t,
            at,
            free,
          )
    ]

-- Moving a file to the trash and restoring it gives the table back, but for the time of the last
-- change of that file: the file is outside the trash and belongs to the user.
pub restore-move_to_trash :
    (env env' : Env) (id u : Uuid) (d : Drive) (f : File)
    → verify_file_ownership id u d.files ≡ ok f
    → (n : ℕ) × (d1 : Drive) × (d2 : Drive) × (move_to_trash env id u d ≡ ok d1)
      × (restore_files_bulk env' (id ∷ []) u d1 ≡ ok (n, d2))
      × (get id d2.files ≡ some (stamp env' f))
      × ((j : Uuid) → j ≢ id → get j d2.files ≡ get j d.files)
      × (d2.b2_deletions ≡ d.b2_deletions)
unfolding move_to_trash restore_files_bulk
restore-move_to_trash env env' id u d f own =
    let p = is_own_listed u (id ∷ []) in
    let (at, on, mine) = verify_file_ownership-eq-ok id u d.files own in
    let key : f.id ≡ id = key-get id d.files at in
    let t1 = update_where p (trash env) d.files in
    let t2 = update_where p (untrash env') t1 in
    let d1 = touch_files u (record d { files = t1 }) in
    let chosen : p f ≡ true = ground (arith, key, mine) in
    let at1 : get id t1 ≡ some (trash env f) =
      ground (arith, get-update_where id p (trash env) (λ g. refl) d.files, at, chosen) in
    let chosen1 : is_own_listed_trashed u (id ∷ []) (trash env f) ≡ true = ground (arith, chosen) in
    let many =
      any-select-length (is_own_listed_trashed u (id ∷ [])) t1
        (any-get (is_own_listed_trashed u (id ∷ [])) id t1 (trash env f) at1 chosen1) in
    (
      length (select (is_own_listed_trashed u (id ∷ [])) t1),
      d1,
      touch_files u (record d1 { files = t2 }),
      rw own refl,
      rw many refl,
      restored_row env env' id u d.files f at on chosen,
      λ j ne. other_row env env' id u d.files j ne,
      refl,
    )
