-- ===== src/Uploads/Reached.antt =====
-- What holds of every upload session, however requests and jobs follow one another.
use native.Mathlib.Decide.{ℕ_discrete}
use aamenn_backend.Base.{
  Bool-cases, List, Option-cases, arith, false, inl, inr, refl, some, ◌∙◌, ◌≡◌,
}
use aamenn_backend.Table.{IsKeyed, get, get-save, get-update_where}
use aamenn_backend.Entities.Scalars.{Uuid}
use aamenn_backend.Entities.Uploads.{UploadSession, session_entity}
use aamenn_backend.Table.Keys.{IsKeyed-save, IsKeyed-update_where}
use aamenn_backend.Uploads.Changes.{UploadStep-Change}
use aamenn_backend.Uploads.Parts.{AreParts}
use aamenn_backend.Uploads.Sessions.{Change, UploadReach, each, here, insert, next, replace, stay}
use aamenn_backend.Uploads.Store.{Uploads, is_open}

Change-IsKeyed : {t t' : List UploadSession} → Change t t' → IsKeyed t → IsKeyed t'
Change-IsKeyed stay keyed = keyed
Change-IsKeyed {t} (insert s _ _) keyed = IsKeyed-save s t keyed
Change-IsKeyed {t} (replace s s' _ _) keyed = IsKeyed-save s' t keyed
Change-IsKeyed {t} (each q g key _) keyed = IsKeyed-update_where q g key t keyed

UploadReach-IsKeyed : {a b : Uploads} → IsKeyed a.sessions → UploadReach a b → IsKeyed b.sessions
UploadReach-IsKeyed k here = k
UploadReach-IsKeyed k (next r s) =
    let k' = UploadReach-IsKeyed k r in Change-IsKeyed (UploadStep-Change s k') k'

abbrev pub SameEnd : UploadSession → UploadSession → Type 0
SameEnd s s' = (s'.status ≡ s.status) × (s'.completed_parts ≡ s.completed_parts)

Change-final :
    (id : Uuid) (s : UploadSession) {t t' : List UploadSession}
    → Change t t'
    → get id t ≡ some s
    → is_open s.status ≡ false
    → (s' : UploadSession) × (get id t' ≡ some s') × SameEnd s s'
Change-final id s stay at closed = (s, at, (refl, refl))
Change-final id s {t} (insert r fresh empty) at closed =
    (s, ground (arith, get-save id r t), (refl, refl))
Change-final id s {t} (replace r r' at_r l) at closed = elim (ℕ_discrete r.id id) [
  | yes e ↦
      let this : r ≡ s = ground (arith, e) in
      (r', ground (arith, l.id, get-save id r' t), rw (← this) (l.ended (ground (arith, this))))
  | no ne ↦ (s, ground (arith, ne, l.id, get-save id r' t), (refl, refl))
]
Change-final id s {t} (each q g key later) at closed = elim (Bool-cases (q s)) [
  | inl h ↦ (g s, ground (arith, get-update_where id q g key t), (later s h).ended closed)
  | inr h ↦ (s, ground (arith, get-update_where id q g key t), (refl, refl))
]

-- Where ids are unique, a session that was completed, cancelled or expired keeps that status and
-- its parts through all later requests and jobs on uploads, but for the deletion of the account;
-- new sessions get new ids, and the object store lists each part number once, within its range.
pub UploadReach-final :
    (id : Uuid) (s : UploadSession) {a b : Uploads}
    → IsKeyed a.sessions
    → UploadReach a b
    → get id a.sessions ≡ some s
    → is_open s.status ≡ false
    → (s' : UploadSession) × (get id b.sessions ≡ some s') × SameEnd s s'
UploadReach-final id s v here at closed = (s, at, (refl, refl))
UploadReach-final id s v (next r c) at closed =
    let (s1, at1, (e1, e2)) = UploadReach-final id s v r at closed in
    let (s2, at2, (f1, f2)) =
      Change-final id s1 (UploadStep-Change c (UploadReach-IsKeyed v r)) at1 (rw e1 closed) in
    (s2, at2, (f1 ∙ e1, f2 ∙ e2))

-- Every session in the table has its parts in order.
abbrev pub AllParts : List UploadSession → Type 0
AllParts t = (id : Uuid) (s : UploadSession) → get id t ≡ some s → AreParts s.completed_parts

Change-AllParts : {t t' : List UploadSession} → Change t t' → AllParts t → AllParts t'
Change-AllParts stay a id s at = a id s at
Change-AllParts {t} (insert r fresh empty) a id s at = elim (ℕ_discrete r.id id) [
  | yes e ↦ let this : r ≡ s = ground (arith, e, get-save id r t) in rw (← this, empty) (tt, tt)
  | no ne ↦ a id s (ground (arith, ne, get-save id r t))
]
Change-AllParts {t} (replace r r' at_r l) a id s at = elim (ℕ_discrete r'.id id) [
  | yes e ↦
      let this : r' ≡ s = ground (arith, e, get-save id r' t) in
      rw (← this) (l.parts (a r.id r at_r))
  | no ne ↦ a id s (ground (arith, ne, get-save id r' t))
]
Change-AllParts {t} (each q g key later) a id s at = elim (Option-cases (get id t)) [
  | inl e ↦ ground (arith, get-update_where id q g key t, e)
  | inr (r, e) ↦ elim (Bool-cases (q r)) [
    | inl h ↦
        let this : g r ≡ s = ground (arith, get-update_where id q g key t, e) in
        rw (← this) ((later r h).parts (a id r e))
    | inr h ↦ a id s (ground (arith, get-update_where id q g key t, e))
  ]
]

-- If at the start the ids are unique and every session records each whole number at most once as
-- a part number, within 1 to 10,000, then so it is after all requests and jobs on uploads but the
-- deletion of the account, where the object store lists parts in this way and new sessions get new
-- ids. Nothing is said of a value that is no whole number, such as a text: the handler records it,
-- too, next to the number that it stands for.
pub UploadReach-AllParts :
    {a b : Uploads}
    → IsKeyed a.sessions
    → AllParts a.sessions
    → UploadReach a b
    → AllParts b.sessions
UploadReach-AllParts v p here = p
UploadReach-AllParts v p (next r c) =
    Change-AllParts (UploadStep-Change c (UploadReach-IsKeyed v r)) (UploadReach-AllParts v p r)
