-- ===== src/Folders/Saves.antt =====
-- What `save` of one folder row does to the invariant of the folder table.
use native.Mathlib.Decide.{ℕ_discrete}
use aamenn_backend.Base.{List, arith, some, sym, true, ℕ, ◌∙◌, ◌≡◌, ◌≢◌}
use aamenn_backend.Table.{get, get-save, save}
use aamenn_backend.Entities.Library.{Folder, folder_entity}
use aamenn_backend.Entities.Scalars.{Uuid}
use aamenn_backend.Folders.Chains.{IsAcyclic-redirect, up}
use aamenn_backend.Folders.Store.{is_active}
use aamenn_backend.Folders.Tree.{IsParent, IsTree, parent_of}

-- Saving an active folder over its old row keeps every parent that there was.
pub IsParent-save :
    (t : List Folder) (f' f : Folder) (p : Uuid)
    → ((g : Folder) → get f'.id t ≡ some g → f'.user_id ≡ g.user_id)
    → is_active f' ≡ true
    → IsParent t f p
    → IsParent (save f' t) f p
IsParent-save t f' f p same alive (h, found, own, on) = elim (ℕ_discrete f'.id p) [
  | yes this ↦ (f', ground (arith, get-save p f' t), same h (rw this found) ∙ own, alive)
  | no other ↦ (h, ground (arith, get-save p f' t), own, on)
]

-- Saving a folder that is active and whose parent is fit keeps all parents fit.
pub save-parents :
    (t : List Folder) (f' : Folder)
    → IsTree t
    → ((g : Folder) → get f'.id t ≡ some g → f'.user_id ≡ g.user_id)
    → is_active f' ≡ true
    → ((p : Uuid) → f'.parent_folder_id ≡ some p → IsParent t f' p)
    → (id : Uuid) (f : Folder) → get id (save f' t) ≡ some f
    → is_active f ≡ true
    → (p : Uuid) → f.parent_folder_id ≡ some p
    → IsParent (save f' t) f p
save-parents t f' tree same alive fit id f e on p par =
    IsParent-save t f' f p same alive (elim (ℕ_discrete f'.id id) [
      | yes this ↦
          let here : f' ≡ f = ground (arith, get-save id f' t) in rw (← here) (fit p (rw here par))
      | no other ↦ tree.parents id f (ground (arith, get-save id f' t)) on p par
    ])

pub parent_of-save :
    (t : List Folder) (f' : Folder) (x : Uuid) → x ≢ f'.id → parent_of (save f' t) x ≡ parent_of t x
parent_of-save t f' x h = ground (arith, get-save x f' t)

pub parent_of-save_self :
    (t : List Folder) (f' : Folder) → parent_of (save f' t) f'.id ≡ f'.parent_folder_id
parent_of-save_self t f' = ground (arith, get-save f'.id f' t)

-- Saving a folder under a fit parent that does not lie below it keeps the tree.
pub save-IsTree :
    (t : List Folder) (f' : Folder)
    → IsTree t
    → ((g : Folder) → get f'.id t ≡ some g → f'.user_id ≡ g.user_id)
    → is_active f' ≡ true
    → ((p : Uuid) → f'.parent_folder_id ≡ some p → IsParent t f' p)
    → ((p : Uuid) (k : ℕ) → f'.parent_folder_id ≡ some p → up (parent_of t) k p ≢ some f'.id)
    → IsTree (save f' t)
save-IsTree t f' tree same alive fit apart = record {
  acyclic =
      IsAcyclic-redirect (parent_of t) (parent_of (save f' t)) f'.id (parent_of-save t f')
        tree.acyclic (λ q k e. apart q k (sym (parent_of-save_self t f') ∙ e));
  parents = save-parents t f' tree same alive fit;
}
