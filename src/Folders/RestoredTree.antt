-- ===== src/Folders/RestoredTree.antt =====
-- The folder tree after `restoreFolder`.
use native.Mathlib.Decide.{ℕ_discrete}
use aamenn_backend.Base.{
  Bool-cases, List, Option, Option-cases, ap, arith, inl, inr, member, none, ok, refl, some, suc,
  sym, true, zero, ◌∙◌, ◌≡◌, ◌≢◌, ◌⊎◌,
}
use aamenn_backend.Table.{IsKeyed, find_one, get, key-get}
use aamenn_backend.Entities.Library.{Folder, folder_entity}
use aamenn_backend.Entities.Scalars.{Uuid}
use aamenn_backend.Folders.Chains.{IsAcyclic-restrict, up}
use aamenn_backend.Folders.Descendants.{IsBelow, is_kept, kept_parent}
use aamenn_backend.Folders.Restore.{
  Restored, restore_folder-Restored, restored_root, untrash_folder,
}
use aamenn_backend.Folders.Service.{is_own, is_own_in, restore_folder, surviving_parent}
use aamenn_backend.Folders.Store.{Env, Library, is_active, is_own_active}
use aamenn_backend.Folders.Tree.{IsParent, IsTree, parent_of}

surviving_parent-active :
    (u : Uuid) (o : Option Uuid) (t : List Folder) (p : Uuid)
    → surviving_parent u o t ≡ some p
    → (o ≡ some p) × (q : Folder) × (get p t ≡ some q) × (q.user_id ≡ u) × (is_active q ≡ true)
surviving_parent-active u none t p h = ground arith
surviving_parent-active u (some r) t p h = elim (Option-cases (find_one r (is_own_active u) t)) [
  | inl e ↦ ground (arith, e, h)
  | inr (q, e) ↦
      let this : r ≡ p = ground (arith, e, h) in
      (ap some this, q, ground (arith, e, this), ground (arith, e), ground (arith, e))
]

-- The parent of a folder below `root` is `root`, or a folder of the user below it.
IsBelow-parent :
    (u root : Uuid) (t : List Folder) (id p : Uuid) (h : Folder)
    → get id t ≡ some h
    → h.user_id ≡ u
    → h.parent_folder_id ≡ some p
    → IsBelow u true t root id
    → (p ≡ root) ⊎ (IsBelow u true t root p × (q : Folder) × (get p t ≡ some q) × (q.user_id ≡ u))
IsBelow-parent u root t id p h at own par (zero, e) = inl (ground (arith, at, own, par, e))
IsBelow-parent u root t id p h at own par (suc n, e) =
    let further : up (kept_parent u true t) (suc n) p ≡ some root =
      ground (arith, at, own, par, e) in
    elim (Option-cases (find_one p (is_kept u true) t)) [
      | inl gone_p ↦ ground (arith, gone_p, further)
      | inr (q, e_q) ↦ inr ((n, further), q, ground (arith, e_q), ground (arith, e_q))
    ]

module _ (env : Env) (u root : Uuid) (f : Folder) (lib lib' : Library) (ids : List Uuid)
    (tree : IsTree lib.folders) (r : Restored env u root f lib lib' ids)
    (at_root : get root lib.folders ≡ some f) (own_root : f.user_id ≡ u) where
  -- A folder that was active, or that was chosen, is active afterwards.
  active_after :
      (p : Uuid) (q g : Folder)
      → get p lib.folders ≡ some q
      → q.user_id ≡ g.user_id
      → (is_active q ≡ true) ⊎ (is_own_in u ids q ≡ true)
      → IsParent lib'.folders g p
  active_after p q g at same on = elim (ℕ_discrete p root) [
    | yes e ↦
        let this : f ≡ q = ground (arith, e, at, at_root) in
        (
          restored_root env u lib.folders f,
          ground (arith, e, r.top),
          ap (λ (x : Folder). x.user_id) this ∙ same,
          refl,
        )
    | no ne ↦ elim (Bool-cases (is_own_in u ids q)) [
      | inl chosen ↦ (untrash_folder env q, ground (arith, r.others p ne, at, chosen), same, refl)
      | inr free ↦ (
        q,
        ground (arith, r.others p ne, at, free),
        same,
        elim on [ inl before ↦ before | inr chosen ↦ ground (arith, chosen, free) ],
      )
    ]
  ]

  -- The parent of a chosen folder was chosen too.
  chosen-IsParent :
      (id p : Uuid) (h g : Folder)
      → id ≢ root
      → get id lib.folders ≡ some h
      → is_own_in u ids h ≡ true
      → h.parent_folder_id ≡ some p
      → g.user_id ≡ u
      → IsParent lib'.folders g p
  chosen-IsParent id p h g ne at chosen par own =
      let key_h : h.id ≡ id = key-get id lib.folders at in
      let mem : member id ids ≡ true = rw (← key_h) (ground (arith, chosen)) in
      let own_h : h.user_id ≡ u = ground (arith, chosen) in
      let mem_root : member root ids ≡ true = (r.subtree root).1 (inl refl) in
      elim ((r.subtree id).0 mem) [
        | inl top ↦ absurd (ne top)
        | inr below ↦ elim (IsBelow-parent u root lib.folders id p h at own_h par below) [
          | inl up_root ↦
              let key_f : f.id ≡ root = key-get root lib.folders at_root in
              active_after p f g (ground (arith, up_root, at_root)) (own_root ∙ sym own)
                (inr (ground (arith, key_f, mem_root, own_root)))
          | inr (below_p, q, at_p, own_p) ↦
              let key_q : q.id ≡ p = key-get p lib.folders at_p in
              let mem_p : member p ids ≡ true = (r.subtree p).1 (inr below_p) in
              active_after p q g at_p (own_p ∙ sym own) (inr (ground (arith, key_q, mem_p, own_p)))
        ]
      ]

  Restored-parents :
      (id : Uuid) (g : Folder)
      → get id lib'.folders ≡ some g
      → is_active g ≡ true
      → (p : Uuid) → g.parent_folder_id ≡ some p
      → IsParent lib'.folders g p
  Restored-parents id g at on p par = elim (ℕ_discrete id root) [
    | yes e ↦
        let this : restored_root env u lib.folders f ≡ g = ground (arith, e, at, r.top) in
        let sur : surviving_parent u f.parent_folder_id lib.folders ≡ some p =
          ap (λ (x : Folder). x.parent_folder_id) this ∙ par in
        let (_, q, at_p, own_p, alive) =
          surviving_parent-active u f.parent_folder_id lib.folders p sur in
        active_after p q g at_p (own_p ∙ sym own_root ∙ ap (λ (x : Folder). x.user_id) this)
          (inl alive)
    | no ne ↦ elim (Option-cases (get id lib.folders)) [
      | inl e ↦ ground (arith, r.others id ne, e, at)
      | inr (h, e) ↦ elim (Bool-cases (is_own_in u ids h)) [
        | inl chosen ↦
            let this : untrash_folder env h ≡ g = ground (arith, r.others id ne, e, at, chosen) in
            chosen-IsParent id p h g ne e chosen
              (ap (λ (x : Folder). x.parent_folder_id) this ∙ par)
              (sym (ap (λ (x : Folder). x.user_id) this) ∙ ground (arith, chosen))
        | inr free ↦
            let this : h ≡ g = ground (arith, r.others id ne, e, at, free) in
            let (q, at_p, same, alive) = tree.parents id g (e ∙ ap some this) on p par in
            active_after p q g at_p same (inl alive)
      ]
    ]
  ]

  Restored-parent_of :
      (x q : Uuid) → parent_of lib'.folders x ≡ some q → parent_of lib.folders x ≡ some q
  Restored-parent_of x q h = elim (ℕ_discrete x root) [
    | yes e ↦
        let sur : surviving_parent u f.parent_folder_id lib.folders ≡ some q =
          ground (arith, e, r.top, h) in
        let (par, _, _, _, _) = surviving_parent-active u f.parent_folder_id lib.folders q sur in
        ground (arith, e, at_root, par)
    | no ne ↦ ground (arith, r.others x ne, h)
  ]

-- Restoring a folder of the user succeeds and keeps the tree, where the table is a tree with
-- unique ids: what comes out of the trash has an active parent or lies at the root.
pub restore_folder-IsTree :
    (env : Env) (root u : Uuid) (lib : Library) (f : Folder)
    → IsTree lib.folders
    → IsKeyed lib.folders
    → find_one root (is_own u) lib.folders ≡ some f
    → (lib' : Library) × (restore_folder env root u lib ≡ ok lib') × IsTree lib'.folders
restore_folder-IsTree env root u lib f tree keyed own =
    let (ids, lib', e, r) = restore_folder-Restored env root u lib f tree keyed own in
    let at_root : get root lib.folders ≡ some f = ground (arith, own) in
    let own_root : f.user_id ≡ u = ground (arith, own) in
    (
      lib',
      e,
      record {
        acyclic =
            IsAcyclic-restrict (parent_of lib.folders) (parent_of lib'.folders)
              (Restored-parent_of env u root f lib lib' ids tree r at_root own_root) tree.acyclic;
        parents = Restored-parents env u root f lib lib' ids tree r at_root own_root;
      },
    )
