-- ===== src/Files/Objects.antt =====
-- The objects of the store that rows of the files refer to.
use native.Mathlib.Decide.{ℕ_discrete}
use text.Mathlib.TextEquality.{eq_iff}
use aamenn_backend.Base.{
  ==_refl, All, Bool, Bool-cases, List, String, [], any, ap, arith, false, inl, inr, member, none,
  not, select, some, sym, true, ◌++◌, ◌∙◌, ◌∷◌, ◌≡◌, ◌⊎◌,
}
use aamenn_backend.Storage.{b2_paths, file_ids, text_member, text_member-append}
use aamenn_backend.Table.{IsKeyed, delete_keys, get, get-delete_keys, get-save, key-get, save}
use aamenn_backend.Entities.Library.{File, file_entity}
use aamenn_backend.Entities.Scalars.{Uuid}
use aamenn_backend.Files.Store.{is_kept_file}
use aamenn_backend.Files.Trash.{
  doomed_paths, doomed_paths_all, has_other_active_references, is_other_reference,
}
use aamenn_backend.Table.Keys.{IsKeyed-save, IsKeyed-select}

-- Ids are unique; rows that share an object are copies of one file; and no object of a row outside
-- the trash is among those whose deletion was asked.
pub record IsSafe (t : List File) (asked : List String) : Type 0 where
  pub keyed : IsKeyed t
  pub copies :
      (i j : Uuid) (f g : File)
      → get i t ≡ some f
      → get j t ≡ some g
      → (p : String) → text_member p (b2_paths f) ≡ true
      → text_member p (b2_paths g) ≡ true
      → f.b2_file_path ≡ g.b2_file_path
  pub kept :
      (i : Uuid) (f : File)
      → get i t ≡ some f
      → is_kept_file f ≡ true
      → (p : String) → text_member p (b2_paths f) ≡ true
      → text_member p asked ≡ false

-- The row has the objects of an earlier one, and is not active unless that was.
abbrev pub ComesFrom : List File → File → Type 0
ComesFrom t f' =
    (j : Uuid) × (f : File) × (get j t ≡ some f)
    × (b2_paths f' ≡ b2_paths f)
    × (f'.b2_file_path ≡ f.b2_file_path)
    × (is_kept_file f' ≡ true → is_kept_file f ≡ true)

pub ComesFrom-IsSafe :
    (t t' : List File) (asked : List String)
    → ((i : Uuid) (f' : File) → get i t' ≡ some f' → ComesFrom t f')
    → IsKeyed t'
    → IsSafe t asked
    → IsSafe t' asked
ComesFrom-IsSafe t t' asked from keyed v = record {
  keyed = keyed;
  copies = λ i j f g at_f at_g p in_f in_g.
      let (i', f', at_f', paths_f, path_f, _) = from i f at_f in
      let (j', g', at_g', paths_g, path_g, _) = from j g at_g in
      path_f
      ∙ v.copies i' j' f' g' at_f' at_g' p (ap (text_member p) (sym paths_f) ∙ in_f)
          (ap (text_member p) (sym paths_g) ∙ in_g)
      ∙ sym path_g;
  kept = λ i f at on p inside.
      let (i', f', at', paths, _, back) = from i f at in
      v.kept i' f' at' (back on) p (ap (text_member p) (sym paths) ∙ inside);
}

-- A row whose objects are new: no row refers to them, and their deletion was not asked.
abbrev pub HasNewObjects : List File → List String → File → Type 0
HasNewObjects t asked f =
    (p : String)
    → text_member p (b2_paths f) ≡ true
    → (text_member p asked ≡ false)
      × ((i : Uuid) (g : File) → get i t ≡ some g → text_member p (b2_paths g) ≡ false)

pub save-IsSafe :
    (t : List File) (asked : List String) (f : File)
    → HasNewObjects t asked f
    → IsSafe t asked
    → IsSafe (save f t) asked
save-IsSafe t asked f new v =
    let old : (i : Uuid) (g : File) → get i (save f t) ≡ some g → (f ≡ g) ⊎ (get i t ≡ some g) =
      λ i g at. elim (ℕ_discrete f.id i) [
        | yes this ↦ inl (ground (arith, get-save i f t, this, at))
        | no other ↦ inr (ground (arith, get-save i f t, other, at))
      ] in
    record {
      keyed = IsKeyed-save f t v.keyed;
      copies = λ i j g h at_g at_h p in_g in_h. elim (old i g at_g) [
        | inl e ↦ elim (old j h at_h) [
          | inl e' ↦ ap (λ (x : File). x.b2_file_path) (sym e ∙ e')
          | inr at ↦
              let absent = (new p (ap (λ x. text_member p (b2_paths x)) e ∙ in_g)).1 j h at in cc
        ]
        | inr at ↦ elim (old j h at_h) [
          | inl e' ↦
              let absent = (new p (ap (λ x. text_member p (b2_paths x)) e' ∙ in_h)).1 i g at in cc
          | inr at' ↦ v.copies i j g h at at' p in_g in_h
        ]
      ];
      kept = λ i g at on p inside. elim (old i g at) [
        | inl e ↦ (new p (ap (λ x. text_member p (b2_paths x)) e ∙ inside)).0
        | inr before ↦ v.kept i g before on p inside
      ];
    }

pub any-get :
    (q : File → Bool) (i : Uuid) (t : List File) (f : File)
    → get i t ≡ some f
    → q f ≡ true
    → any q t ≡ true
any-get q i [] f at h = cc
any-get q i (g ∷ t) f at h = ground (arith, any-get q i t f)

-- Rows of the table.
abbrev pub AreRows : List File → List File → Type 0
AreRows t = All (λ (f : File). get f.id t ≡ some f)

-- An object that is deleted with some rows belongs to one of them, to which nothing else refers.
doomed_paths_all-member :
    (t doomed : List File) (p : String)
    → AreRows t doomed
    → text_member p (doomed_paths_all t doomed) ≡ true
    → (f : File) × (get f.id t ≡ some f)
      × (member f.id (file_ids doomed) ≡ true)
      × (has_other_active_references f t ≡ false)
      × (text_member p (b2_paths f) ≡ true)
unfolding doomed_paths
doomed_paths_all-member t [] p rows h = cc
doomed_paths_all-member t (f ∷ fs) p rows h =
    elim (Bool-cases (text_member p (doomed_paths_all t fs))) [
      | inl later ↦
          let (g, at, m, alone, inside) = doomed_paths_all-member t fs p rows.1 later in
          (g, at, ground (arith, m), alone, inside)
      | inr no_later ↦ elim (Bool-cases (has_other_active_references f t)) [
        | inl shared ↦
            ground (arith, shared, no_later, h, text_member-append p [] (doomed_paths_all t fs))
        | inr alone ↦ (
          f,
          rows.0,
          ground arith,
          alone,
          ground (
            arith,
            alone,
            no_later,
            h,
            text_member-append p (b2_paths f) (doomed_paths_all t fs),
          ),
        )
      ]
    ]

-- Deleting rows for good takes no object from a row that stays outside the trash.
pub purge-IsSafe :
    (t doomed : List File) (asked : List String)
    → AreRows t doomed
    → IsSafe t asked
    → IsSafe (delete_keys (file_ids doomed) t) (asked ++ doomed_paths_all t doomed)
unfolding has_other_active_references
purge-IsSafe t doomed asked rows v =
    let ids = file_ids doomed in
    let before : (i : Uuid) (f : File)
        → get i (delete_keys ids t) ≡ some f
        → (get i t ≡ some f) × (member i ids ≡ false) =
      λ i f at. (
        ground (arith, get-delete_keys i ids t, at),
        ground (arith, get-delete_keys i ids t, at),
      ) in
    record {
      keyed = IsKeyed-select (λ f. not (member f.id ids)) t v.keyed;
      copies = λ i j f g at_f at_g. v.copies i j f g (before i f at_f).0 (before j g at_g).0;
      kept = λ i f at on p inside.
          let (at_t, free) = before i f at in
          elim (Bool-cases (text_member p (doomed_paths_all t doomed))) [
            | inr spared ↦ ground (
              arith,
              text_member-append p asked (doomed_paths_all t doomed),
              v.kept i f at_t on p inside,
              spared,
            )
            | inl doomed_p ↦
                let (g, at_g, m, alone, in_g) = doomed_paths_all-member t doomed p rows doomed_p in
                let same : f.b2_file_path ≡ g.b2_file_path =
                  v.copies i g.id f g at_t at_g p inside in_g in
                let key : f.id ≡ i = key-get i t at_t in
                let other : is_other_reference g f ≡ true =
                  ground (arith, (eq_iff f.b2_file_path g.b2_file_path).1 same, key, m, free, on) in
                let shared = any-get (is_other_reference g) i t f at_t other in cc
          ];
    }

-- Equal objects start with the same path.
pub first_path : (f g : File) → b2_paths f ≡ b2_paths g → f.b2_file_path ≡ g.b2_file_path
first_path f g e = cc

rows_later : (x : File) (t fs : List File) → get x.id t ≡ none → AreRows t fs → AreRows (x ∷ t) fs
rows_later x t [] h rows = tt
rows_later x t (f ∷ fs) h rows = (ground (arith, rows.0, h), rows_later x t fs h rows.1)

-- The rows that a query returns.
pub select-AreRows : (q : File → Bool) (t : List File) → IsKeyed t → AreRows t (select q t)
select-AreRows q [] k = tt
select-AreRows q (f ∷ t) k = elim (Bool-cases (q f)) [
  | inl chosen ↦
      rw chosen
        (ground (arith, ==_refl f.id), rows_later f t (select q t) k.0 (select-AreRows q t k.1))
  | inr other ↦ rw other (rows_later f t (select q t) k.0 (select-AreRows q t k.1))
]
