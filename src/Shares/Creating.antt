-- ===== src/Shares/Creating.antt =====
-- New links, and finding them again.
use aamenn_backend.Base.{
  >>=-eq-ok, All, List, Option-cases, Result, Result-cases, [], ap, arith, false, inl, inr, is_none,
  none, not, not_found, ok, or_throw, refl, same_codes, some, subst, throw_if, true, ℕ, ◌>>=◌, ◌>>◌,
  ◌∙◌, ◌∷◌, ◌≡◌, ◌⊎◌,
}
use aamenn_backend.Table.{get, save}
use aamenn_backend.Entities.Library.{File, Folder, file_entity, folder_entity}
use aamenn_backend.Entities.Scalars.{Uuid}
use aamenn_backend.Entities.Shares.{ShareItem, ShareItemType, ShareLink, share_entity}
use aamenn_backend.Files.Store.{is_kept_file}
use aamenn_backend.Shares.Service.{CreateShare, create_share, new_share, slugs_of, verify_items}
use aamenn_backend.Shares.Slugs.{candidate, generate_unique_slug, is_taken, normalize_slug}
use aamenn_backend.Shares.Store.{
  Env, Links, find_active_share, find_slug, is_active_folder, is_over, kind-cases, verify_ownership,
}
use aamenn_backend.Shares.Unused.{generate_unique_slug-total, same_codes_refl}

-- A file or a folder of the user outside the trash.
abbrev pub IsOwnItem : Uuid → Links → ShareItem → Type 0
IsOwnItem u l item =
    ((item.type ≡ ShareItemType.file)
      × (f : File) × (get item.id l.drive.files ≡ some f)
      × (is_kept_file f ≡ true)
      × (f.user_id ≡ u))
    ⊎ ((item.type ≡ ShareItemType.folder)
        × (f : Folder) × (get item.id l.folders ≡ some f)
        × (is_active_folder f ≡ true)
        × (f.user_id ≡ u))

verify_ownership-own :
    (u : Uuid) (item : ShareItem) (l : Links)
    → verify_ownership u item l ≡ ok tt
    → IsOwnItem u l item
unfolding verify_ownership
verify_ownership-own u item l h = elim (kind-cases item.type) [
  | inl plain ↦ elim (Option-cases (get item.id l.drive.files)) [
    | inl absent ↦ ground (arith, h, plain, absent)
    | inr (f, at) ↦ inl (plain, f, at, ground (arith, h, plain, at), ground (arith, h, plain, at))
  ]
  | inr is_dir ↦ elim (Option-cases (get item.id l.folders)) [
    | inl absent ↦ ground (arith, h, is_dir, absent)
    | inr (f, at) ↦
        inr (is_dir, f, at, ground (arith, h, is_dir, at), ground (arith, h, is_dir, at))
  ]
]

own-verify_ownership :
    (u : Uuid) (item : ShareItem) (l : Links)
    → IsOwnItem u l item
    → verify_ownership u item l ≡ ok tt
unfolding verify_ownership
own-verify_ownership u item l (inl (plain, f, at, on, mine)) = ground (arith, plain, at, on, mine)
own-verify_ownership u item l (inr (is_dir, f, at, on, mine)) = ground (arith, is_dir, at, on, mine)

verify_items-own :
    (u : Uuid) (items : List ShareItem) (l : Links)
    → verify_items u items l ≡ ok tt
    → All (IsOwnItem u l) items
unfolding verify_items
verify_items-own u [] l h = tt
verify_items-own u (item ∷ items) l h = elim (Result-cases (verify_ownership u item l)) [
  | inl (tt, e) ↦
      (verify_ownership-own u item l e, verify_items-own u items l (ground (arith, h, e)))
  | inr (x, e) ↦ ground (arith, h, e)
]

own-verify_items :
    (u : Uuid) (items : List ShareItem) (l : Links)
    → All (IsOwnItem u l) items
    → verify_items u items l ≡ ok tt
unfolding verify_items
own-verify_items u [] l h = refl
own-verify_items u (item ∷ items) l h =
    rw (own-verify_ownership u item l h.0) (own-verify_items u items l h.1)

find_slug-save :
    (s : ShareLink) (t : List ShareLink)
    → is_taken s.slug (slugs_of t) ≡ false
    → find_slug s.slug (save s t) ≡ some s
find_slug-save s [] h = ground (arith, same_codes_refl s.slug)
find_slug-save s (x ∷ t) h = ground (arith, h, same_codes_refl s.slug, find_slug-save s t)

find_slug-save_new :
    (slug : List ℕ) (s : ShareLink) (t : List ShareLink)
    → get s.id t ≡ none
    → same_codes s.slug slug ≡ false
    → find_slug slug (save s t) ≡ find_slug slug t
find_slug-save_new slug s [] new other = ground (arith, other)
find_slug-save_new slug s (x ∷ t) new other =
    ground (arith, new, other, find_slug-save_new slug s t)

-- A link is created just if all its items are files and folders of the user outside the trash,
-- whatever the text of its slug and the slugs in use.
pub create_share-allowed :
    (env : Env) (u : Uuid) (dto : CreateShare) (l : Links)
    → (All (IsOwnItem u l) dto.items → (r : ShareLink × Links) × (create_share env u dto l ≡ ok r))
      × ((r : ShareLink × Links) → create_share env u dto l ≡ ok r → All (IsOwnItem u l) dto.items)
unfolding create_share
create_share-allowed env u dto l = (
  λ own.
      let (k, found, _) = generate_unique_slug-total dto.slug_base (slugs_of l.shares) in
      let new = new_share env u (candidate (normalize_slug dto.slug_base) k) dto in
      (
        (new, record l { shares = save new l.shares }),
        rw (own-verify_items u dto.items l own, found) refl,
      ),
  λ r h.
      let (x, verified, _) = >>=-eq-ok (verify_items u dto.items l) _ h in
      verify_items-own u dto.items l verified,
)

-- The checks on a link that was found.
abbrev active_now : Env → ShareLink → Result ShareLink
active_now env x = do
  throw_if (not (is_none x.revoked_at)) not_found
  throw_if (is_over env x.expires_at) not_found
  ok x

-- The link that is created has the items of the request, belongs to the user, and is what its slug
-- leads to as long as it has not ended; other slugs lead where they led, if the id of the new link
-- is not in use.
pub create_share-find_active_share :
    (env env' : Env) (u : Uuid) (dto : CreateShare) (l l' : Links) (s : ShareLink)
    → create_share env u dto l ≡ ok (s, l')
    → (is_over env' s.expires_at ≡ false → find_active_share env' s.slug l'.shares ≡ ok s)
      × (s.owner_user_id ≡ u)
      × (s.items ≡ dto.items)
      × ((slug : List ℕ)
          → get env.fresh_share l.shares ≡ none
          → same_codes s.slug slug ≡ false
          → find_active_share env' slug l'.shares ≡ find_active_share env' slug l.shares)
unfolding create_share find_active_share
create_share-find_active_share env env' u dto l l' s h =
    let (x, verified, h') = >>=-eq-ok (verify_items u dto.items l) _ h in
    let (slug, unique, h'') =
      >>=-eq-ok (generate_unique_slug dto.slug_base (slugs_of l.shares)) _ h' in
    let (k, found, first) = generate_unique_slug-total dto.slug_base (slugs_of l.shares) in
    let e : l'.shares ≡ save s l.shares = ground (arith, h'') in
    let same_slug : candidate (normalize_slug dto.slug_base) k ≡ s.slug =
      ground (arith, h'', unique, found) in
    let unused : is_taken s.slug (slugs_of l.shares) ≡ false =
      subst (λ x. is_taken x (slugs_of l.shares) ≡ false) same_slug first.1 in
    let at = find_slug-save s l.shares unused in
    let id : s.id ≡ env.fresh_share = ground (arith, h'') in
    let not_revoked : s.revoked_at ≡ none = ground (arith, h'') in
    (
      λ going. ap (find_active_share env' s.slug) e ∙ ground (arith, at, not_revoked, going),
      ground (arith, h''),
      ground (arith, h''),
      λ other new apart.
          ap (find_active_share env' other) e
          ∙ ap (λ found. or_throw found not_found >>= active_now env')
              (find_slug-save_new other s l.shares (ap (λ i. get i l.shares) id ∙ new) apart),
    )
