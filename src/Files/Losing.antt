-- ===== src/Files/Losing.antt =====
-- What deleting a copy for good leaves of the others.
use native.Mathlib.Decide.{ℕ_discrete}
use text.Mathlib.TextEquality.{eq_iff}
use mathlib.Core.List.{append-nil}
use aamenn_backend.Base.{
  ==_refl, Bool, Bool-cases, List, [], any, ap, arith, false, inl, inr, length, none, ok, refl,
  select, some, sym, true, ℕ, ◌++◌, ◌||◌, ◌∙◌, ◌∷◌, ◌≡◌, ◌≢◌,
}
use aamenn_backend.Storage.{b2_paths, text_member, text_member-append}
use aamenn_backend.Table.{
  IsKeyed, delete_keys, find_one, get, get-delete_keys, get-update_where, key-get,
}
use aamenn_backend.Entities.Library.{File, file_entity}
use aamenn_backend.Entities.Scalars.{Uuid}
use aamenn_backend.Files.Objects.{any-get}
use aamenn_backend.Files.Restoring.{any-select-length}
use aamenn_backend.Files.Store.{
  Drive, Env, is_kept_file, is_own_file, is_own_listed, is_trashed_of, touch_files,
}
use aamenn_backend.Files.Trash.{
  delete_file_permanently, doomed_paths, has_other_active_references, is_other_reference,
  is_own_listed_trashed, purge_files, restore, restore_files_bulk, untrash,
}

or_true : (b : Bool) → (b || true) ≡ true
or_true b = ground arith

-- No row of a keyed table passes a test that fails for each look-up.
any-none :
    (q : File → Bool) (t : List File)
    → IsKeyed t
    → ((i : Uuid) (h : File) → get i t ≡ some h → q h ≡ false)
    → any q t ≡ false
any-none q [] k none_passes = refl
any-none q (x ∷ t) k none_passes =
    let first : q x ≡ false = none_passes x.id x (ground (arith, ==_refl x.id)) in
    let rest = any-none q t k.1 (λ i h at. elim (ℕ_discrete x.id i) [
      | yes e ↦ let gone : get i t ≡ none = ap (λ j. get j t) (sym e) ∙ k.0 in cc
      | no ne ↦ none_passes i h (ground (arith, at, ne))
    ]) in
    ground (arith, first, rest)

-- Where every other row of the object is in the trash, the object counts as free.
unreferenced :
    (g : File) (t : List File)
    → IsKeyed t
    → ((i : Uuid) (h : File)
        → get i t ≡ some h
        → i ≢ g.id
        → h.b2_file_path ≡ g.b2_file_path
        → is_kept_file h ≡ false)
    → has_other_active_references g t ≡ false
unfolding has_other_active_references
unreferenced g t k trashed = any-none (is_other_reference g) t k (λ i h at.
    elim (Bool-cases (is_other_reference g h)) [
      | inr e ↦ e
      | inl e ↦
          let same : h.b2_file_path ≡ g.b2_file_path =
            (eq_iff h.b2_file_path g.b2_file_path).0 (ground arith) in
          let key : h.id ≡ i = key-get i t at in
          let apart : i ≢ g.id = λ this. ground (arith, key, this, e, ==_refl g.id) in
          let gone : is_kept_file h ≡ false = trashed i h at apart same in ground (arith, e, gone)
    ])

-- A copy in the trash loses its object. Two rows `f` and `g` refer to one object: `f` is in the
-- trash of one user, `g` belongs to another user, and all other rows of the object are in the
-- trash, too; ids are unique. The other user deletes `g` for good, and the user restores `f`: both
-- requests succeed, and `f` is outside the trash, but the object store was asked to delete the
-- object of `f`.
pub restore-delete_file_permanently :
    (env : Env) (u v : Uuid) (f g : File) (d : Drive)
    → IsKeyed d.files
    → get f.id d.files ≡ some f
    → get g.id d.files ≡ some g
    → is_trashed_of u f ≡ true
    → is_own_file v g ≡ true
    → f.id ≢ g.id
    → f.b2_file_path ≡ g.b2_file_path
    → ((i : Uuid) (h : File)
        → get i d.files ≡ some h
        → i ≢ g.id
        → h.b2_file_path ≡ g.b2_file_path
        → is_kept_file h ≡ false)
    → (n : ℕ) × (d1 : Drive) × (d2 : Drive) × (delete_file_permanently g.id v d ≡ ok d1)
      × (restore_files_bulk env (f.id ∷ []) u d1 ≡ ok (n, d2))
      × (get f.id d2.files ≡ some (untrash env f))
      × (text_member f.b2_file_path d2.b2_deletions ≡ true)
unfolding delete_file_permanently restore_files_bulk purge_files doomed_paths
restore-delete_file_permanently env u v f g d keyed at_f at_g mine theirs ne same trashed =
    let p = is_own_listed u (f.id ∷ []) in
    let t1 = delete_keys (g.id ∷ []) d.files in
    let d1 = touch_files v (purge_files (g ∷ []) d) in
    let alone : has_other_active_references g d.files ≡ false =
      unreferenced g d.files keyed trashed in
    let found : find_one g.id (is_own_file v) d.files ≡ some g = ground (arith, at_g, theirs) in
    let at1 : get f.id t1 ≡ some f =
      ground (arith, get-delete_keys f.id (g.id ∷ []) d.files, at_f, ne) in
    let chosen : is_own_listed_trashed u (f.id ∷ []) f ≡ true =
      ground (arith, mine, ==_refl f.id) in
    let chosen' : p f ≡ true = ground (arith, mine, ==_refl f.id) in
    let many =
      any-select-length (is_own_listed_trashed u (f.id ∷ [])) t1
        (any-get (is_own_listed_trashed u (f.id ∷ [])) f.id t1 f at1 chosen) in
    let lost : text_member f.b2_file_path (b2_paths g) ≡ true =
      ground (arith, (eq_iff g.b2_file_path f.b2_file_path).1 (sym same)) in
    (
      length (select (is_own_listed_trashed u (f.id ∷ [])) t1),
      d1,
      touch_files u (restore env u (f.id ∷ []) d1),
      rw found refl,
      rw many refl,
      ground (arith, get-update_where f.id p (untrash env) (λ h. refl) t1, at1, chosen'),
      rw alone (
          text_member-append f.b2_file_path d.b2_deletions (b2_paths g ++ [])
          ∙ ap (λ b. text_member f.b2_file_path d.b2_deletions || b)
              (ap (text_member f.b2_file_path) (append-nil (b2_paths g)) ∙ lost)
          ∙ or_true (text_member f.b2_file_path d.b2_deletions)),
    )
