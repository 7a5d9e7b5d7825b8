-- ===== src/Shares/Browsing.antt =====
-- What a visitor of a share sees.
use aamenn_backend.Base.{
  All, All-sort_with, Bool, Bool-cases, List, [], arith, err, false, forbidden, inl, inr, leb, none,
  not_found, ok, refl, select, some, sym, true, ℕ, ◌==◌, ◌∙◌, ◌∷◌, ◌≡◌, ◌⊎◌,
}
use aamenn_backend.Table.{find_one}
use aamenn_backend.Entities.Library.{File, Folder, file_entity, folder_entity}
use aamenn_backend.Entities.Scalars.{Uuid}
use aamenn_backend.Entities.Shares.{ShareItem, ShareItemType, ShareLink, share_entity}
use aamenn_backend.Shares.Ancestors.{Decides, LiesAbove, is_folder_descendant_of-decides}
use aamenn_backend.Shares.Service.{FolderView, browse_share_folder, is_active_file_in, view_of}
use aamenn_backend.Shares.Store.{
  Env, Links, find_active_share, is_active_folder, is_folder_accessible, kind-cases,
}

-- The folder is shared, or lies below a shared one.
abbrev pub IsShared : List Folder → Uuid → List ShareItem → Type 0
IsShared t id [] = ⊥
IsShared t id (item ∷ items) =
    ((item.type ≡ ShareItemType.folder) × LiesAbove t item.id id) ⊎ IsShared t id items

not_file : ¬ (ShareItemType.file ≡ ShareItemType.folder)
not_file e = cc

is_folder_accessible-decides :
    (items : List ShareItem) (id : Uuid) (t : List Folder)
    → Decides (is_folder_accessible items id t) (IsShared t id items)
unfolding is_folder_accessible
is_folder_accessible-decides [] id t = (false, refl, λ e. cc, λ _ h. h)
is_folder_accessible-decides (item ∷ items) id t =
    let (b, rest, yes_rest, no_rest) = is_folder_accessible-decides items id t in
    elim (kind-cases item.type) [
      | inl plain ↦ (
        b,
        rw plain rest,
        λ e. inr (yes_rest e),
        λ e h. elim h [
          | inl (is_dir, _) ↦ not_file (sym plain ∙ is_dir)
          | inr later ↦ no_rest e later
        ],
      )
      | inr is_dir ↦ elim (Bool-cases (item.id == id)) [
        | inl this ↦
            (true, rw (is_dir, this) refl, λ _. inl (is_dir, (0, ground (arith, this))), λ e. cc)
        | inr other ↦
            let (c, found, yes_above, no_above) = is_folder_descendant_of-decides id item.id t in
            elim (Bool-cases c) [
              | inl below ↦ (
                true,
                rw (is_dir, other, found, below) refl,
                λ _. inl (is_dir, yes_above below),
                λ e. cc,
              )
              | inr apart ↦ (
                b,
                rw (is_dir, other, found, apart) rest,
                λ e. inr (yes_rest e),
                λ e h. elim h [
                  | inl (_, above) ↦ no_above apart above
                  | inr later ↦ no_rest e later
                ],
              )
            ]
      ]
    ]

All-select : (q : File → Bool) (t : List File) → All (λ (f : File). q f ≡ true) (select q t)
All-select q [] = tt
All-select q (f ∷ t) = elim (Bool-cases (q f)) [
  | inl chosen ↦ rw chosen (chosen, All-select q t)
  | inr other ↦ rw other (All-select q t)
]

-- A visitor browses a folder of an active share, on any table of folders, cycles included. Either
-- the folder is shared, or below a shared one along folders outside the trash: then the visitor
-- gets its name and files, all of them in the folder and outside the trash, or that it is not
-- found, if the folder is not there or in the trash. Or it is neither, and is forbidden.
pub browse_share_folder-decides :
    (env : Env) (slug : List ℕ) (id : Uuid) (l : Links) (s : ShareLink)
    → find_active_share env slug l.shares ≡ ok s
    → (IsShared l.folders id s.items
        × ((f : Folder)
            → find_one id is_active_folder l.folders ≡ some f
            → (view : FolderView) × (browse_share_folder env slug id l ≡ ok view)
              × (view.name_encrypted ≡ f.name_encrypted)
              × All (λ (g : File). is_active_file_in id g ≡ true) view.files)
        × (find_one id is_active_folder l.folders ≡ none
            → browse_share_folder env slug id l ≡ err not_found))
      ⊎ ((¬ IsShared l.folders id s.items) × (browse_share_folder env slug id l ≡ err forbidden))
unfolding browse_share_folder
browse_share_folder-decides env slug id l s active_share =
    let (b, result, shared, not_shared) = is_folder_accessible-decides s.items id l.folders in
    let newest = λ (x y : File). leb y.created_at x.created_at in
    elim (Bool-cases b) [
      | inl allowed ↦
          let e : is_folder_accessible s.items id l.folders ≡ ok true =
            ground (arith, result, allowed) in
          inl (
            shared allowed,
            λ f found. (
              view_of id f l,
              rw (active_share, e, found) refl,
              refl,
              All-sort_with newest (λ (g : File). is_active_file_in id g ≡ true)
                  (select (is_active_file_in id) l.drive.files)
                  (All-select (is_active_file_in id) l.drive.files),
            ),
            λ absent. rw (active_share, e, absent) refl,
          )
      | inr outside ↦
          let e : is_folder_accessible s.items id l.folders ≡ ok false =
            ground (arith, result, outside) in
          inr (not_shared outside, rw (active_share, e) refl)
    ]
