-- ===== src/Files/Views.antt =====
-- What the queries of `FilesService` return.
use native.Mathlib.Decide.{ℕ_discrete}
use aamenn_backend.Base.{
  ==_refl, All, Bool, List, Option, Option-cases, [], ap, arith, ceil_div, ceil_div-covers, drop,
  inl, inr, length, ltb, ltb-ceil_div, member, none, refl, select, some, suc, take, take-add,
  take_all, true, zero, ℕ, ◌&&◌, ◌*◌, ◌++◌, ◌+◌, ◌-◌, ◌∙◌, ◌∷◌, ◌≡◌, ◌≤◌,
}
use aamenn_backend.Table.{IsKeyed, find_one, get, key-get, option_filter}
use aamenn_backend.Entities.Library.{File, file_entity}
use aamenn_backend.Entities.Scalars.{Uuid}
use aamenn_backend.Files.Newest.{IsNewestFirst, IsOrder}
use aamenn_backend.Files.Reads.{
  FolderFilter, get_files_batch, in_order, is_listed, is_viewable, list_files, listed_files,
}
use aamenn_backend.Files.Store.{is_kept_file, is_own_file, is_own_listed}
use aamenn_backend.Table.Keys.{IsKeyed-select, get-select-none}

-- The answer for one requested id: a file of the user outside the trash that can be shown.
abbrev pub viewable_file : (File → Bool) → Uuid → List File → Uuid → Option File
viewable_file signs u t id =
    find_one id (λ f. is_own_file u f && is_kept_file f && is_viewable signs f) t

-- The answers that there are, in the order of the ids.
abbrev pub answers : (Uuid → Option File) → List Uuid → List File
answers find [] = []
answers find (id ∷ ids) = elim (find id) [ none ↦ answers find ids | some f ↦ f ∷ answers find ids ]

get-select :
    (p : File → Bool) (id : Uuid) (t : List File)
    → IsKeyed t
    → get id (select p t) ≡ find_one id p t
get-select p id [] k = refl
get-select p id (f ∷ t) k = elim (ℕ_discrete f.id id) [
  | yes this ↦
      let none_later : get id (select p t) ≡ none = get-select-none p id t (rw (← this) k.0) in
      ground (arith, this, none_later)
  | no other ↦ ground (arith, other, get-select p id t k.1)
]

in_order-answers : (ids : List Uuid) (t : List File) → in_order ids t ≡ answers (λ id. get id t) ids
unfolding in_order
in_order-answers [] t = refl
in_order-answers (id ∷ ids) t = elim (Option-cases (get id t)) [
  | inl e ↦ ground (arith, e, in_order-answers ids t)
  | inr (f, e) ↦ ground (arith, e, in_order-answers ids t)
]

answers_agree :
    (find find' : Uuid → Option File) (ids : List Uuid)
    → All (λ (id : Uuid). find id ≡ find' id) ids
    → answers find ids ≡ answers find' ids
answers_agree find find' [] h = refl
answers_agree find find' (id ∷ ids) h = ground (arith, h.0, answers_agree find find' ids h.1)

All-ids :
    (P : Uuid → Type 0) (ids : List Uuid) → ((id : Uuid) → member id ids ≡ true → P id) → All P ids
All-ids P [] h = tt
All-ids P (id ∷ ids) h =
    (h id (ground (arith, ==_refl id)), All-ids P ids (λ j m. h j (ground (arith, m))))

both_tests :
    (signs : File → Bool) (ids : List Uuid) (u : Uuid) (t : List File) (id : Uuid)
    → member id ids ≡ true
    → option_filter
        (is_viewable signs)
        (find_one id (λ f. is_own_listed u ids f && is_kept_file f) t)
      ≡ viewable_file signs u t id
both_tests signs ids u t id m = elim (Option-cases (get id t)) [
  | inl e ↦ rw e refl
  | inr (f, e) ↦
      let key : f.id ≡ id = key-get id t e in
      let listed_id : member f.id ids ≡ true = ap (λ i. member i ids) key ∙ m in
      ground (arith, e, listed_id)
]

-- A batch answers the requested ids in their order, an id as often as it is requested: each by
-- the user's file outside the trash with that id, where it has its key, all signed URLs are made,
-- and it has all three thumbnails. The ids of files are unique.
pub get_files_batch-answers :
    (signs : File → Bool) (ids : List Uuid) (u : Uuid) (t : List File)
    → IsKeyed t
    → get_files_batch signs ids u t ≡ answers (viewable_file signs u t) ids
unfolding get_files_batch
get_files_batch-answers signs ids u t k =
    let p = λ (f : File). is_own_listed u ids f && is_kept_file f in
    let k' = IsKeyed-select p t k in
    in_order-answers ids (select (is_viewable signs) (select p t))
    ∙ answers_agree (λ id. get id (select (is_viewable signs) (select p t)))
        (viewable_file signs u t) ids
        (All-ids
          (λ id. get id (select (is_viewable signs) (select p t)) ≡ viewable_file signs u t id) ids
          (λ id m.
            get-select (is_viewable signs) id (select p t) k'
            ∙ ap (option_filter (is_viewable signs)) (get-select p id t k)
            ∙ both_tests signs ids u t id m))

-- The files of the first pages, one after the other, where each page misses the cache.
abbrev pub pages :
    (List File → List File) → Uuid → ℕ → Option Bool → FolderFilter → ℕ → List File → List File
pages order u limit favorite place zero t = []
pages order u limit favorite place (suc n) t =
    pages order u limit favorite place n t
    ++ (list_files order none u (suc n) limit favorite place t).0.files

pages-take :
    (order : List File → List File) (u limit : ℕ) (favorite : Option Bool) (place : FolderFilter)
    (n : ℕ) (t : List File)
    → pages order u limit favorite place n t
      ≡ take (n * limit) (listed_files order u favorite place t)
unfolding list_files
pages-take order u limit favorite place zero t =
    ap (λ k. take k (listed_files order u favorite place t))
      (let e : 0 ≡ 0 * limit = omega arith in e)
pages-take order u limit favorite place (suc n) t =
    let xs = listed_files order u favorite place t in
    ap (λ ys. ys ++ take limit (drop ((suc n - 1) * limit) xs))
      (pages-take order u limit favorite place n t)
    ∙ ap (λ k. take (n * limit) xs ++ take limit (drop (k * limit) xs))
        (let e : suc n - 1 ≡ n = omega arith in e)
    ∙ take-add (n * limit) limit xs
    ∙ ap (λ k. take k xs) (let e : n * limit + limit ≡ suc n * limit = grind arith in e)

-- With a limit of at least one, where every page misses the cache and nothing changes between
-- them, the pages up to `totalPages` are together the whole listing, the newest first: for any
-- test on files, as many files pass it in the pages as among the user's files outside the trash
-- that are no avatars and pass the filters. `hasMore` says of each of those pages whether it is not
-- the last. The condition is that the database orders the rows of the query by their times, the
-- newest first, and orders rows with equal times the same way for every page, which SQL does not
-- promise.
pub list_files-pages :
    (order : List File → List File) (u limit : ℕ) (favorite : Option Bool) (place : FolderFilter)
    (t : List File)
    → IsOrder order
    → 1 ≤ limit
    → let last = (list_files order none u 1 limit favorite place t).0.total_pages in
      let found = pages order u limit favorite place last t in
      IsNewestFirst found
      × ((q : File → Bool)
          → length (select q found) ≡ length (select q (select (is_listed u favorite place) t)))
      × ((n : ℕ)
          → (list_files order none u n limit favorite place t).0.has_more ≡ some (ltb n last))
unfolding list_files
list_files-pages order u limit favorite place t o pos =
    let rows = select (is_listed u favorite place) t in
    let last = ceil_div (length rows) limit in
    let covers : length (order rows) ≤ last * limit =
      rw (o.rows rows) (ceil_div-covers (length rows) limit pos) in
    let whole : pages order u limit favorite place last t ≡ order rows =
      pages-take order u limit favorite place last t
      ∙ take_all (last * limit) (order rows) covers in
    (
      rw whole (o.newest_first rows),
      λ q. ap (λ xs. length (select q xs)) whole ∙ o.members q rows,
      λ n. ap some (ltb-ceil_div n (length rows) limit pos),
    )
