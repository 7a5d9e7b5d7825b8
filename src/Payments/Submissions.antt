-- ===== src/Payments/Submissions.antt =====
-- The life of a manual payment: submitted, and reviewed or expired for good.
use aamenn_backend.Base.{
  >>=-eq-ok, Bool, Bool-cases, List, Option, Option-cases, Result, String, [], any, arith,
  bad_request, conflict, false, inl, inr, ltb, none, not, ok, or_throw, refl, select, some,
  throw_if, true, update_where, ◌&&◌, ◌++◌, ◌==◌, ◌∷◌, ◌≡◌,
}
use aamenn_backend.Table.{IsKeyed, get, key-get, save}
use aamenn_backend.Entities.Accounts.{user_entity}
use aamenn_backend.Entities.Billing.{
  InstapayPayment, InstapayPaymentStatus, instapay_entity, plan_entity,
}
use aamenn_backend.Entities.Scalars.{Uuid}
use aamenn_backend.Payments.Instapay.{
  Instapay, InstapayEnv, ReviewAction, approve, approve_submission, available_plan,
  cleanup_prior_screenshots, drop_loop, drop_screenshot, expire_stale_requests, expire_submission,
  is_overdue, is_prior, is_too_long, is_unreviewed, is_unreviewed_of, new_submission, path_of,
  reject, reject_submission, review_payment, submit_payment, with_review,
}
use aamenn_backend.Payments.Screenshots.{Screenshot, is_screenshot_type, max_screenshot_bytes}
use aamenn_backend.Payments.Service.{activate_subscription}
use aamenn_backend.Table.Keys.{IsKeyed-save, IsKeyed-update_where}
use aamenn_backend.Table.Loops.{save_loop, save_loop-update_where}

abbrev pub SameReview : InstapayPayment → InstapayPayment → Type 0
SameReview s s' =
    (s'.status ≡ s.status)
    × (s'.reviewed_by ≡ s.reviewed_by)
    × (s'.reviewed_at ≡ s.reviewed_at)
    × (s'.admin_note ≡ s.admin_note)

-- What may become of a row: it does not return to the queue, and its review stays.
pub record Later (s s' : InstapayPayment) : Type 0 where
  pub id : s'.id ≡ s.id
  pub user : s'.user_id ≡ s.user_id
  pub queue : is_unreviewed s'.status ≡ true → is_unreviewed s.status ≡ true
  pub review : is_unreviewed s.status ≡ false → SameReview s s'

-- A request or a job. A new submission gets an id that the table does not have.
pub data InstapayStep : Instapay → Instapay → Type 0 where
  submit :
      (env : InstapayEnv) (enabled : Bool) (u plan_id : Uuid) (shot : Option Screenshot)
      (reference : String) (sender_name : Option String) (uploaded : Result (Unit {0}))
      (b b' : Instapay) (s : InstapayPayment)
      → get env.fresh_submission b.submissions ≡ none
      → submit_payment env enabled u plan_id shot reference sender_name uploaded b ≡ ok (s, b')
      → InstapayStep b b'
  review :
      (env : InstapayEnv) (id reviewer : Uuid) (action : ReviewAction) (remark : Option String)
      (b : Instapay)
      → InstapayStep b (review_payment env id reviewer action remark b).1
  clean_up :
      (env : InstapayEnv) (u kept : Uuid) (b : Instapay)
      → InstapayStep b (cleanup_prior_screenshots env u kept b)
  expire : (env : InstapayEnv) (b : Instapay) → InstapayStep b (expire_stale_requests env b)

pub data InstapayReach (a : Instapay) : Instapay → Type 0 where
  start : InstapayReach a a
  step : {b c : Instapay} → InstapayReach a b → InstapayStep b c → InstapayReach a c

-- What each step does to the table.
pub data Change (t : List InstapayPayment) : List InstapayPayment → Type 0 where
  none_of : Change t t
  insert :
      (s : InstapayPayment)
      → get s.id t ≡ none
      → any (is_unreviewed_of s.user_id) t ≡ false
      → Change t (save s t)
  replace : (s s' : InstapayPayment) → get s.id t ≡ some s → Later s s' → Change t (save s' t)
  each :
      (q : InstapayPayment → Bool) (g : InstapayPayment → InstapayPayment)
      → ((r : InstapayPayment) → (g r).id ≡ r.id)
      → ((r : InstapayPayment) → q r ≡ true → Later r (g r))
      → Change t (update_where q g t)

drop_loop-save_loop :
    (g : InstapayPayment → InstapayPayment) (rows : List InstapayPayment) (b : Instapay)
    → (drop_loop g rows b).submissions ≡ save_loop (λ s. true) g rows b.submissions
unfolding drop_loop save_loop
drop_loop-save_loop g [] b = refl
drop_loop-save_loop g (s ∷ rows) b = drop_loop-save_loop g rows (record b {
  submissions = save (g s) b.submissions;
  b2_deletions = b.b2_deletions ++ path_of s.screenshot_b2_path;
})

-- The loop over the rows of a query is one update of the table.
drop_loop-Change :
    (q : InstapayPayment → Bool) (g : InstapayPayment → InstapayPayment) (b : Instapay)
    → IsKeyed b.submissions
    → ((r : InstapayPayment) → (g r).id ≡ r.id)
    → ((r : InstapayPayment) → q r ≡ true → Later r (g r))
    → Change b.submissions (drop_loop g (select q b.submissions) b).submissions
drop_loop-Change q g b keyed key later =
    rw
      (
        drop_loop-save_loop g (select q b.submissions) b,
        save_loop-update_where (λ s. true) g key q b.submissions keyed,
      )
      (each (λ s. q s && true) g key (λ r h. later r (ground arith)))

submit-Change :
    (env : InstapayEnv) (enabled : Bool) (u plan_id : Uuid) (shot : Option Screenshot)
    (reference : String) (sender_name : Option String) (uploaded : Result (Unit {0}))
    (b b' : Instapay) (s : InstapayPayment)
    → get env.fresh_submission b.submissions ≡ none
    → submit_payment env enabled u plan_id shot reference sender_name uploaded b ≡ ok (s, b')
    → Change b.submissions b'.submissions
unfolding submit_payment
submit-Change env enabled u plan_id shot reference sender_name uploaded b b' s fresh h =
    let (_, _, h1) = >>=-eq-ok (throw_if (not enabled) bad_request) _ h in
    let (f, _, h2) = >>=-eq-ok (or_throw shot bad_request) _ h1 in
    let (_, _, h3) = >>=-eq-ok (throw_if (f.size == 0) bad_request) _ h2 in
    let (_, _, h4) = >>=-eq-ok (throw_if (ltb max_screenshot_bytes f.size) bad_request) _ h3 in
    let (_, _, h5) = >>=-eq-ok (throw_if (not (is_screenshot_type f.mime_type)) bad_request) _ h4 in
    let (plan, _, h6) =
      >>=-eq-ok (or_throw (available_plan plan_id b.ledger.plans) bad_request) _ h5 in
    let (_, idle, h7) =
      >>=-eq-ok (throw_if (any (is_unreviewed_of u) b.submissions) conflict) _ h6 in
    let (_, _, h8) = >>=-eq-ok uploaded _ h7 in
    let made = new_submission env u plan f.mime_type reference sender_name in
    let e : b'.submissions ≡ save made b.submissions = ground arith in
    rw e (insert made fresh (ground arith))

reviewed :
    (env : InstapayEnv) (reviewer : Uuid) (remark : Option String) (status : InstapayPaymentStatus)
    (s : InstapayPayment)
    → is_unreviewed s.status ≡ true
    → is_unreviewed status ≡ false
    → Later s (with_review env reviewer remark status s)
reviewed env reviewer remark status s before after = record {
  id = refl;
  user = refl;
  queue = λ h. before;
  review = λ h. ground arith;
}

approve-Change :
    (env : InstapayEnv) (reviewer : Uuid) (remark : Option String) (s : InstapayPayment)
    (b : Instapay)
    → get s.id b.submissions ≡ some s
    → is_unreviewed s.status ≡ true
    → Change b.submissions (approve_submission env reviewer remark s b).1.submissions
unfolding approve_submission activate_subscription
approve-Change env reviewer remark s b at waiting =
    let after = (approve_submission env reviewer remark s b).1.submissions in
    let done = with_review env reviewer remark InstapayPaymentStatus.approved s in
    elim (Bool-cases (is_too_long s)) [
      | inl long ↦ let kept : after ≡ b.submissions = ground (arith, long) in rw kept none_of
      | inr short ↦ elim (Option-cases (get s.plan_id b.ledger.plans)) [
        | inl e ↦ let kept : after ≡ b.submissions = ground (arith, e, short) in rw kept none_of
        | inr (plan, e) ↦
            let stored : after ≡ save done b.submissions = ground (arith, e, short) in
            rw stored (
              replace s done at
                (reviewed env reviewer remark InstapayPaymentStatus.approved s waiting refl))
      ]
    ]

review_waiting :
    (env : InstapayEnv) (id reviewer : Uuid) (action : ReviewAction) (remark : Option String)
    (b : Instapay) (s : InstapayPayment)
    → get id b.submissions ≡ some s
    → get s.id b.submissions ≡ some s
    → is_unreviewed s.status ≡ true
    → Change b.submissions (review_payment env id reviewer action remark b).1.submissions
unfolding review_payment reject_submission
review_waiting env id reviewer approve remark b s e at waiting =
    let stored : (review_payment env id reviewer approve remark b).1.submissions
        ≡ (approve_submission env reviewer remark s b).1.submissions =
      ground (arith, e, waiting) in
    rw stored (approve-Change env reviewer remark s b at waiting)
review_waiting env id reviewer reject remark b s e at waiting =
    let done = record (with_review env reviewer remark InstapayPaymentStatus.rejected s) {
      screenshot_b2_path = none;
    } in
    let stored : (review_payment env id reviewer reject remark b).1.submissions
        ≡ save done b.submissions =
      ground (arith, e, waiting) in
    rw stored (
      replace s done at
        (record { id = refl; user = refl; queue = λ h. waiting; review = λ h. ground arith }))

review-Change :
    (env : InstapayEnv) (id reviewer : Uuid) (action : ReviewAction) (remark : Option String)
    (b : Instapay)
    → Change b.submissions (review_payment env id reviewer action remark b).1.submissions
unfolding review_payment reject_submission
review-Change env id reviewer action remark b =
    let after = (review_payment env id reviewer action remark b).1.submissions in
    elim (Option-cases (get id b.submissions)) [
      | inl e ↦ let kept : after ≡ b.submissions = ground (arith, e) in rw kept none_of
      | inr (s, e) ↦
          let at : get s.id b.submissions ≡ some s =
            ground (arith, key-get id b.submissions e, e) in
          elim (Bool-cases (is_unreviewed s.status)) [
            | inr closed ↦
                let kept : after ≡ b.submissions = ground (arith, e, closed) in rw kept none_of
            | inl waiting ↦ review_waiting env id reviewer action remark b s e at waiting
          ]
    ]

-- The ids of submissions are unique.
pub InstapayStep-Change :
    {b c : Instapay} → InstapayStep b c → IsKeyed b.submissions → Change b.submissions c.submissions
unfolding cleanup_prior_screenshots expire_stale_requests
InstapayStep-Change
      (submit env enabled u plan_id shot reference sender_name uploaded b b' s fresh h) keyed =
    submit-Change env enabled u plan_id shot reference sender_name uploaded b b' s fresh h
InstapayStep-Change (review env id reviewer action remark b) keyed =
    review-Change env id reviewer action remark b
InstapayStep-Change (clean_up env u kept b) keyed =
    drop_loop-Change (is_prior u kept) (drop_screenshot env) b keyed (λ r. refl)
      (λ r h. record {
        id = refl;
        user = refl;
        queue = λ k. k;
        review = λ k. (refl, refl, refl, refl);
      })
InstapayStep-Change (expire env b) keyed =
    drop_loop-Change (is_overdue env) (expire_submission env) b keyed (λ r. refl)
      (λ r h. record {
        id = refl;
        user = refl;
        queue = λ k. ground arith;
        review = λ k. ground arith;
      })

pub Change-IsKeyed : {t t' : List InstapayPayment} → Change t t' → IsKeyed t → IsKeyed t'
Change-IsKeyed none_of keyed = keyed
Change-IsKeyed {t} (insert s _ _) keyed = IsKeyed-save s t keyed
Change-IsKeyed {t} (replace s s' _ _) keyed = IsKeyed-save s' t keyed
Change-IsKeyed {t} (each q g key _) keyed = IsKeyed-update_where q g key t keyed
