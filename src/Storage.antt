-- ===== src/Storage.antt =====
-- What the services ask of the object store (src/modules/storage/b2-storage.service.ts): the objects
-- of a row of the files.
use text.Mathlib.Text.{◌==◌ as str_eq}
use aamenn_backend.Base.{
  Bool, List, Option, String, [], arith, false, none, refl, some, ◌++◌, ◌||◌, ◌∷◌, ◌≡◌,
}
use aamenn_backend.Entities.Library.{File, file_entity}
use aamenn_backend.Entities.Scalars.{Uuid}

-- The paths that `B2StorageService.deleteFiles` is given, without the nulls.
abbrev pub path_list : Option String → List String
path_list none = []
path_list (some p) = p ∷ []

abbrev pub b2_paths : File → List String
b2_paths f =
    f.b2_file_path
    ∷ (path_list f.b2_thumb_small_path
        ++ (path_list f.b2_thumb_medium_path ++ path_list f.b2_thumb_large_path))

abbrev pub b2_paths_all : List File → List String
b2_paths_all [] = []
b2_paths_all (f ∷ fs) = b2_paths f ++ b2_paths_all fs

abbrev pub file_ids : List File → List Uuid
file_ids [] = []
file_ids (f ∷ fs) = f.id ∷ file_ids fs

abbrev pub text_member : String → List String → Bool
text_member p [] = false
text_member p (q ∷ qs) = str_eq q p || text_member p qs

pub text_member-append :
    (p : String) (xs ys : List String)
    → text_member p (xs ++ ys) ≡ (text_member p xs || text_member p ys)
text_member-append p [] ys = refl
text_member-append p (x ∷ xs) ys = ground (arith, text_member-append p xs ys)
