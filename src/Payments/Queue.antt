-- ===== src/Payments/Queue.antt =====
-- The queue of manual payments: one place for each user, and a review is final.
use native.Mathlib.Decide.{ℕ_discrete}
use aamenn_backend.Base.{
  Bool-cases, List, arith, false, inl, inr, length, refl, select, some, true, ◌∙◌, ◌≡◌, ◌≤◌,
}
use aamenn_backend.Table.{IsKeyed, get, get-save, get-update_where}
use aamenn_backend.Entities.Accounts.{user_entity}
use aamenn_backend.Entities.Billing.{InstapayPayment, instapay_entity}
use aamenn_backend.Entities.Scalars.{Uuid}
use aamenn_backend.Payments.Instapay.{Instapay, is_unreviewed, is_unreviewed_of}
use aamenn_backend.Payments.Submissions.{
  Change, Change-IsKeyed, InstapayReach, InstapayStep-Change, Later, SameReview, each, insert,
  none_of, replace, start, step,
}
use aamenn_backend.Table.Counts.{any-false, count-insert, count-replace-le, count-update_where-le}

-- Unique ids, and at most one submission of a user in the queue.
pub record IsQueue (b : Instapay) : Type 0 where
  pub keyed : IsKeyed b.submissions
  pub single : (u : Uuid) → length (select (is_unreviewed_of u) b.submissions) ≤ 1

Later-back :
    (u : Uuid) (s s' : InstapayPayment)
    → Later s s'
    → is_unreviewed_of u s' ≡ true
    → is_unreviewed_of u s ≡ true
Later-back u s s' l h = ground (arith, l.user, l.queue)

Change-single :
    (u : Uuid) {t t' : List InstapayPayment}
    → Change t t'
    → length (select (is_unreviewed_of u) t) ≤ 1
    → length (select (is_unreviewed_of u) t') ≤ 1
Change-single u none_of h = h
Change-single u {t} (insert s fresh idle) h = elim (ℕ_discrete u s.user_id) [
  | yes e ↦ ground (
    arith,
    e,
    count-insert (is_unreviewed_of u) s t fresh,
    any-false (is_unreviewed_of s.user_id) t idle,
  )
  | no ne ↦ ground (arith, ne, count-insert (is_unreviewed_of u) s t fresh)
]
Change-single u {t} (replace s s' at l) h =
    omega
      (arith, h, count-replace-le (is_unreviewed_of u) s' s t (rw l.id at) (Later-back u s s' l))
Change-single u {t} (each q g key later) h = omega (
  arith,
  h,
  count-update_where-le (is_unreviewed_of u) q g (λ r k. Later-back u r (g r) (later r k)) t,
)

-- From a table with unique ids and at most one unreviewed submission of each user, submissions,
-- reviews, clean-ups of screenshots and runs of the job that expires submissions lead only to such
-- tables; new submissions get new ids.
pub InstapayReach-IsQueue : {a b : Instapay} → IsQueue a → InstapayReach a b → IsQueue b
InstapayReach-IsQueue v start = v
InstapayReach-IsQueue v (step r s) =
    let w = InstapayReach-IsQueue v r in
    let c = InstapayStep-Change s w.keyed in
    record { keyed = Change-IsKeyed c w.keyed; single = λ u. Change-single u c (w.single u) }

Change-final :
    (id : Uuid) (s : InstapayPayment) {t t' : List InstapayPayment}
    → Change t t'
    → get id t ≡ some s
    → is_unreviewed s.status ≡ false
    → (s' : InstapayPayment) × (get id t' ≡ some s') × SameReview s s'
Change-final id s none_of at closed = (s, at, (refl, refl, refl, refl))
Change-final id s {t} (insert r fresh idle) at closed =
    (s, ground (arith, get-save id r t), (refl, refl, refl, refl))
Change-final id s {t} (replace r r' at_r l) at closed = elim (ℕ_discrete r.id id) [
  | yes e ↦
      let this : r ≡ s = ground (arith, e) in
      (r', ground (arith, l.id, get-save id r' t), rw (← this) (l.review (ground (arith, this))))
  | no ne ↦ (s, ground (arith, ne, l.id, get-save id r' t), (refl, refl, refl, refl))
]
Change-final id s {t} (each q g key later) at closed = elim (Bool-cases (q s)) [
  | inl h ↦ (g s, ground (arith, get-update_where id q g key t), (later s h).review closed)
  | inr h ↦ (s, ground (arith, get-update_where id q g key t), (refl, refl, refl, refl))
]

-- From a table with unique ids and at most one unreviewed submission of each user, a submission
-- that was approved, rejected or expired keeps its status, its reviewer, the time of the review
-- and the note through all later submissions, reviews, clean-ups of screenshots and runs of the
-- job that expires submissions; new submissions get new ids. The deletion of an account, of the
-- user or of the reviewer, is none of these steps.
pub InstapayReach-final :
    (id : Uuid) (s : InstapayPayment) {a b : Instapay}
    → IsQueue a
    → InstapayReach a b
    → get id a.submissions ≡ some s
    → is_unreviewed s.status ≡ false
    → (s' : InstapayPayment) × (get id b.submissions ≡ some s') × SameReview s s'
InstapayReach-final id s v start at closed = (s, at, (refl, refl, refl, refl))
InstapayReach-final id s v (step r c) at closed =
    let (s1, at1, (e1, e2, e3, e4)) = InstapayReach-final id s v r at closed in
    let w = InstapayReach-IsQueue v r in
    let (s2, at2, (f1, f2, f3, f4)) =
      Change-final id s1 (InstapayStep-Change c w.keyed) at1 (rw e1 closed) in
    (s2, at2, (f1 ∙ e1, f2 ∙ e2, f3 ∙ e3, f4 ∙ e4))
