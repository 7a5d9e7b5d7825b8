-- ===== src/Entities/Billing.antt =====
-- The rows of `plans`, `subscriptions`, `payments` and `instapay_payments`
-- (src/database/entities).
use aamenn_backend.Base.{ℕ, Bool, Option, String}
use aamenn_backend.Table.{Entity}
use aamenn_backend.Entities.Scalars.{Uuid, Time}

pub record Plan : Type 0 where
  pub id : Uuid
  pub name : String
  pub display_name : String
  pub storage_gb : ℕ
  pub price_egp : ℕ
  pub price_piasters : ℕ
  pub duration_days : ℕ
  pub is_active : Bool
  pub created_at : Time
  pub updated_at : Time

instance abbrev pub plan_entity : Entity Plan
plan_entity = record { key = λ p. p.id }

pub data SubscriptionStatus : Type 0 where
  active grace expired cancelled : SubscriptionStatus

pub record Subscription : Type 0 where
  pub id : Uuid
  pub user_id : Uuid
  pub plan_id : Uuid
  pub status : SubscriptionStatus
  pub current_period_start : Time
  pub current_period_end : Time
  pub grace_ends_at : Option Time
  pub paymob_transaction_id : Option String
  pub created_at : Time
  pub updated_at : Time

instance abbrev pub subscription_entity : Entity Subscription
subscription_entity = record { key = λ s. s.id }

pub data PaymentStatus : Type 0 where
  pending success failed refunded expired : PaymentStatus

pub record Payment : Type 0 where
  pub id : Uuid
  pub user_id : Uuid
  pub subscription_id : Option Uuid
  pub plan_id : Uuid
  pub amount_piasters : ℕ
  pub currency : String
  pub status : PaymentStatus
  pub paymob_order_id : Option String
  pub paymob_transaction_id : Option String
  pub paymob_intention_id : Option String
  pub payment_method : Option String
  pub failure_reason : Option String
  pub paid_at : Option Time
  pub created_at : Time
  pub updated_at : Time

instance abbrev pub payment_entity : Entity Payment
payment_entity = record { key = λ p. p.id }

pub data InstapayPaymentStatus : Type 0 where
  pending_verification approved rejected expired : InstapayPaymentStatus

pub record InstapayPayment : Type 0 where
  pub id : Uuid
  pub user_id : Uuid
  pub plan_id : Uuid
  pub amount_piasters : ℕ
  pub status : InstapayPaymentStatus
  pub screenshot_b2_path : Option String
  pub screenshot_mime_type : String
  pub instapay_reference : String
  pub sender_name : Option String
  pub admin_note : Option String
  pub reviewed_by : Option Uuid
  pub reviewed_at : Option Time
  pub created_at : Time
  pub updated_at : Time

instance abbrev pub instapay_entity : Entity InstapayPayment
instapay_entity = record { key = λ p. p.id }
