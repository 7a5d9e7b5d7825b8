-- ===== src/Folders/Tests.antt =====
-- The theorems on the folder tree at sample tables, and runs of the handlers.
use aamenn_backend.Base.{
  List, [], arith, bad_request, err, false, length, member, none, ok, refl, some, true, ℕ, ◌↔◌, ◌∷◌,
  ◌≡◌, ◌≤◌,
}
use aamenn_backend.Cache.{Cache}
use aamenn_backend.Table.{save}
use aamenn_backend.Entities.Library.{Folder, file_entity, folder_entity}
use aamenn_backend.Entities.Scalars.{Uuid}
use aamenn_backend.Folders.Chains.{IsAcyclic, IsAcyclic-of_lt}
use aamenn_backend.Folders.Creation.{create_folder-IsTree}
use aamenn_backend.Folders.Depth.{
  AreOwnActive, update_folder-refuses_descendant, update_folder_deep_cycle,
}
use aamenn_backend.Folders.Descendants.{IsBelow, collect_descendants}
use aamenn_backend.Folders.Moves.{update_folder-IsTree}
use aamenn_backend.Folders.Purge.{Purged, delete_folder_permanently-Purged}
use aamenn_backend.Folders.Restore.{Restored, restore_folder-Restored}
use aamenn_backend.Folders.RestoredTree.{restore_folder-IsTree}
use aamenn_backend.Folders.Samples.{
  chain, chain-IsKeyed, chain-IsTree, get-chain, node, parent-le, up-chain, up-chain-none,
}
use aamenn_backend.Folders.Service.{
  check_move, create_folder, delete_folder, delete_folder_permanently, move_to, restore_folder,
  touch, update_folder, updated, verify_parent,
}
use aamenn_backend.Folders.Store.{
  Env, Library, collect_descendant_folder_ids, descends_within, is_folder_descendant, own_parent,
  verify_folder_ownership,
}
use aamenn_backend.Folders.Trash.{Trashed, delete_folder-IsTree, delete_folder-Trashed}
use aamenn_backend.Folders.Tree.{IsTree, parent_of}

abbrev cache : Cache
cache = record { is_healthy = true; failure_count = 0; answers = true; versions = λ u k. 0 }

abbrev store : List Folder → Library
store t = record { folders = t; files = []; cache = cache; b2_deletions = [] }

abbrev env : Env
env = record { now = 1000; fresh_id = 99 }

own_ends : (n i j : ℕ) → i ≤ n → j ≤ n → AreOwnActive i j 7 (chain n)
own_ends n i j h k = record {
  folder = node i;
  at_folder = ground (arith, get-chain n i h);
  parent = node j;
  at_parent = ground (arith, get-chain n j k);
}

own_folder : verify_folder_ownership 1 7 (chain 3) ≡ ok (node 1)
unfolding verify_folder_ownership chain
own_folder = refl

-- folder 3 of a chain of four moves to the root folder 0
abbrev moved : Folder
moved = updated env none (move_to 0) (node 3)

update_folder-IsTree_example : IsTree (save moved (chain 3))
unfolding update_folder check_move verify_folder_ownership is_folder_descendant descends_within
    own_parent chain
update_folder-IsTree_example =
    update_folder-IsTree env 3 7 none (move_to 0) (store (chain 3))
      (touch 7 (record (store (chain 3)) { folders = save moved (chain 3) })) moved (chain-IsTree 3)
      (λ k h. up-chain-none 3 k 0 (omega arith) (omega arith)) refl

update_folder-refuses_descendant_example :
    update_folder env 0 7 none (move_to 2) (store (chain 3)) ≡ err bad_request
update_folder-refuses_descendant_example =
    update_folder-refuses_descendant env 0 2 7 none (store (chain 3)) 2 (chain-IsTree 3)
      (own_ends 3 0 2 (omega arith) (omega arith)) (omega arith) (up-chain 3 2 0 (omega arith))

update_folder_deep_cycle_example :
    (f' : Folder) × (lib' : Library) × (update_folder env 0 7 none (move_to 51) (store (chain 51))
      ≡ ok (f', lib'))
    × (¬ IsAcyclic (parent_of lib'.folders))
update_folder_deep_cycle_example =
    update_folder_deep_cycle env 0 51 7 none (store (chain 51)) 1 (chain-IsTree 51)
      (own_ends 51 0 51 (omega arith) (omega arith)) (up-chain 51 51 0 (omega arith))

delete_folder-Trashed_example :
    (ids : List Uuid) × (lib' : Library) × (delete_folder env 1 7 (store (chain 3))
      ≡ ok (length ids, lib'))
    × Trashed env 7 1 (store (chain 3)) lib' ids
delete_folder-Trashed_example =
    delete_folder-Trashed env 1 7 (store (chain 3)) (node 1) (chain-IsTree 3) (chain-IsKeyed 3)
      own_folder

delete_folder-IsTree_example :
    (n : ℕ) × (lib' : Library) × (delete_folder env 1 7 (store (chain 3)) ≡ ok (n, lib'))
    × IsTree lib'.folders
delete_folder-IsTree_example =
    delete_folder-IsTree env 1 7 (store (chain 3)) (node 1) (chain-IsTree 3) (chain-IsKeyed 3)
      own_folder

collect_descendants_example :
    (r : List Uuid) × (collect_descendant_folder_ids 1 7 false (chain 3) ≡ ok r)
    × ((c : Uuid) → (member c r ≡ true) ↔ IsBelow 7 false (chain 3) 1 c)
collect_descendants_example =
    collect_descendants 7 1 false (chain 3) (chain-IsTree 3) (chain-IsKeyed 3)

collect_chain : collect_descendant_folder_ids 1 7 false (chain 3) ≡ ok (2 ∷ 3 ∷ [])
unfolding collect_descendant_folder_ids chain
collect_chain = refl

-- a folder 99 under folder 3
abbrev created : Folder
created = record {
  id = 99;
  user_id = 7;
  parent_folder_id = some 3;
  name_encrypted = "name";
  created_at = 1000;
  updated_at = 1000;
  deleted_at = none;
}

create_folder-IsTree_example : IsTree (save created (chain 3))
unfolding create_folder verify_parent verify_folder_ownership chain
create_folder-IsTree_example =
    create_folder-IsTree env 7 "name" (some 3) (store (chain 3))
      (touch 7 (record (store (chain 3)) { folders = save created (chain 3) })) created
      (chain-IsTree 3) (refl, λ x e. absurd (omega (arith, parent-le 3 x 99 e))) refl

-- folder 0, and folder 1 in it, which lies in the trash
abbrev trashed : List Folder
trashed = record (node 1) { deleted_at = some 500 } ∷ node 0 ∷ []

trashed-IsTree : IsTree trashed
trashed-IsTree = record {
  acyclic = IsAcyclic-of_lt (parent_of trashed) (λ x q e. ground arith);
  parents = λ id f at on p par. ground arith;
}

restore_folder-Restored_example :
    (ids : List Uuid) × (lib' : Library) × (restore_folder env 1 7 (store trashed) ≡ ok lib')
    × Restored env 7 1 (record (node 1) { deleted_at = some 500 }) (store trashed) lib' ids
restore_folder-Restored_example =
    restore_folder-Restored env 1 7 (store trashed) (record (node 1) { deleted_at = some 500 })
      trashed-IsTree (refl, (refl, tt)) refl

restore_folder-IsTree_example :
    (lib' : Library) × (restore_folder env 1 7 (store trashed) ≡ ok lib') × IsTree lib'.folders
restore_folder-IsTree_example =
    restore_folder-IsTree env 1 7 (store trashed) (record (node 1) { deleted_at = some 500 })
      trashed-IsTree (refl, (refl, tt)) refl

delete_folder_permanently-Purged_example :
    (ids : List Uuid) × (n : ℕ) × (lib' : Library) × (delete_folder_permanently 1 7 (store trashed)
      ≡ ok (n, lib'))
    × Purged 7 1 (store trashed) lib' ids
delete_folder_permanently-Purged_example =
    delete_folder_permanently-Purged 1 7 (store trashed) (record (node 1) { deleted_at = some 500 })
      trashed-IsTree (refl, (refl, tt)) refl
