-- ===== src/Folders/Samples.antt =====
-- A sample table: one chain of folders of user 7, where folder `i + 1` lies in folder `i`.
use native.Mathlib.Decide.{ℕ_discrete, dec_le}
use Prim.Native.Nat.add
use aamenn_backend.Base.{
  List, Option, [], ap, arith, none, refl, some, suc, true, zero, ℕ, ◌+◌, ◌<◌, ◌∷◌, ◌≡◌, ◌≤◌,
}
use aamenn_backend.Table.{IsKeyed, get}
use aamenn_backend.Entities.Library.{Folder, folder_entity}
use aamenn_backend.Entities.Scalars.{Uuid}
use aamenn_backend.Folders.Chains.{IsAcyclic-of_lt, up}
use aamenn_backend.Folders.Store.{is_active}
use aamenn_backend.Folders.Tree.{IsParent, IsTree, parent_of}

abbrev pub node_parent : ℕ → Option Uuid
node_parent zero = none
node_parent (suc i) = some i

abbrev pub node : ℕ → Folder
node i = record {
  id = i;
  user_id = 7;
  parent_folder_id = node_parent i;
  name_encrypted = "bmFtZQ==";
  created_at = 0;
  updated_at = 0;
  deleted_at = none;
}

unfoldable pub chain : ℕ → List Folder
chain zero = node zero ∷ []
chain (suc n) = node (suc n) ∷ chain n

pub get-chain : (n i : ℕ) → i ≤ n → get i (chain n) ≡ some (node i)
unfolding chain
get-chain zero zero h = refl
get-chain zero (suc i) h = absurd (omega arith)
get-chain (suc n) i h = elim (ℕ_discrete (suc n) i) [
  | yes top ↦ ground arith
  | no below ↦ ground (arith, get-chain n i (omega arith))
]

pub get-chain-none : (n i : ℕ) → n < i → get i (chain n) ≡ none
unfolding chain
get-chain-none zero i h = ground arith
get-chain-none (suc n) i h = ground (arith, get-chain-none n i (omega arith))

pub chain-IsKeyed : (n : ℕ) → IsKeyed (chain n)
unfolding chain
chain-IsKeyed zero = (refl, tt)
chain-IsKeyed (suc n) = (get-chain-none n (suc n) (omega arith), chain-IsKeyed n)

parent_of-chain : (n i : ℕ) → i ≤ n → parent_of (chain n) i ≡ node_parent i
parent_of-chain n i h = rw (get-chain n i h)

-- Folder `i` lies `k` levels below folder `i - k`.
pub up-chain : (n k i : ℕ) → k + i ≤ n → up (parent_of (chain n)) k (k + i) ≡ some i
up-chain n zero i h = ap some (add.zero i)
up-chain n (suc k) i h =
    rw (add.suc k i)
      (ground (arith, parent_of-chain n (suc (k + i)) (omega arith), up-chain n k i (omega arith)))

-- Ids fall along the way up.
parent-lt : (n i p : ℕ) → parent_of (chain n) i ≡ some p → p < i
parent-lt n zero p h = ground (arith, parent_of-chain n zero (omega arith))
parent-lt n (suc j) p h = elim (dec_le (suc j) n) [
  | yes low ↦ ground (arith, parent_of-chain n (suc j) low)
  | no high ↦ ground (arith, get-chain-none n (suc j) (omega arith))
]

chain-parents :
    (n id : ℕ) (f : Folder)
    → get id (chain n) ≡ some f
    → is_active f ≡ true
    → (p : Uuid) → f.parent_folder_id ≡ some p
    → IsParent (chain n) f p
chain-parents n zero f at on p par = ground (arith, get-chain n zero (omega arith), at)
chain-parents n (suc j) f at on p par = elim (dec_le (suc j) n) [
  | yes low ↦
      let here : node (suc j) ≡ f = ground (arith, get-chain n (suc j) low, at) in
      let same : p ≡ j = ground arith in
      (node j, rw same (get-chain n j (omega arith)), ground arith, refl)
  | no high ↦ ground (arith, get-chain-none n (suc j) (omega arith), at)
]

-- Folder `p` lies `p` levels deep.
pub up-chain-none : (n k p : ℕ) → p ≤ n → p < k → up (parent_of (chain n)) k p ≡ none
up-chain-none n zero p h lt = absurd (omega arith)
up-chain-none n (suc k) zero h lt = ground (arith, parent_of-chain n zero h)
up-chain-none n (suc k) (suc j) h lt =
    ground (arith, parent_of-chain n (suc j) h, up-chain-none n k j (omega arith) (omega arith))

pub chain-IsTree : (n : ℕ) → IsTree (chain n)
chain-IsTree n = record {
  acyclic = IsAcyclic-of_lt (parent_of (chain n)) (parent-lt n);
  parents = chain-parents n;
}

-- No folder of the chain has a parent beyond its end.
pub parent-le : (n i p : ℕ) → parent_of (chain n) i ≡ some p → p ≤ n
parent-le n i p h = elim (dec_le i n) [
  | yes low ↦ omega (arith, parent-lt n i p h)
  | no high ↦ ground (arith, get-chain-none n i (omega arith))
]
