-- ===== src/So5.antt =====
-- The words of SObjectizer that the components of this repository speak: message boxes, messages,
-- deliveries, exceptions. SObjectizer itself is not part of the repository.
pub mod Errors
pub mod Subscription
use so5extra.Prelude.{ℕ, ◌≡◌, refl, ◌⊎◌, inl, inr}

pub data MboxType : Type 0 where
  multi_producer_multi_consumer multi_producer_single_consumer : MboxType

-- `other_mode` stands for the modes that this library passes on and does not name.
pub data DeliveryMode : Type 0 where
  ordinary : DeliveryMode
  other_mode : ℕ → DeliveryMode

pub data Mutability : Type 0 where
  immutable_message mutable_message : Mutability

-- What an exception carries: the code of this library's own errors, or SObjectizer's.
pub data Error : Type 0 where
  extra : ℕ → Error
  rc_not_implemented rc_mutable_msg_cannot_be_delivered_via_mpmc_mbox : Error

-- A message box as another one sees it: its identity and its type.
pub record MboxRef : Type 0 where
  pub id : ℕ
  pub type : MboxType

pub data Result {ℓ} (A : Type ℓ) : Type ℓ where
  ok : A → Result A
  throw : Error → Result A

infixl 5 ◌>>=◌ ◌>>◌
abbrev pub ◌>>=◌ {ℓ κ} : {A : Type ℓ} {B : Type κ} → Result A → (A → Result B) → Result B
ok a >>= f = f a
throw e >>= f = throw e

abbrev pub ◌>>◌ {ℓ} : {B : Type ℓ} → Result (Unit {0}) → Result B → Result B
m >> k = m >>= λ _. k

pub Result-cases {ℓ} :
    {A : Type ℓ} (r : Result A) → ((a : A) × (r ≡ ok a)) ⊎ ((e : Error) × (r ≡ throw e))
Result-cases (ok a) = inl (a, refl)
Result-cases (throw e) = inr (e, refl)

-- What a `noexcept` function does with an exception: the program ends by `std::terminate`.
pub data Noexcept {ℓ} (A : Type ℓ) : Type ℓ where
  returns : A → Noexcept A
  terminates : Noexcept A

abbrev pub noexcept_call {ℓ} : {A : Type ℓ} → Result A → Noexcept A
noexcept_call (ok a) = returns a
noexcept_call (throw e) = terminates

-- The arguments of `do_deliver_message`, over message types `T` and messages `M`.
pub record Delivery (T M : Type 0) : Type 0 where
  pub delivery_mode : DeliveryMode
  pub msg_type : T
  pub message : M
  pub redirection_deep : ℕ

-- A call of `push_event` of the sink: what a message box does with a message for a subscriber.
pub record Push (T S M : Type 0) : Type 0 where
  pub sink : S
  pub mbox_id : ℕ
  pub delivery : Delivery T M

-- The calls that a message box passes on to another one, with filters `F`.
pub data Call (T S F M : Type 0) : Type 0 where
  subscribe_event_handler unsubscribe_event_handler drop_delivery_filter : T → S → Call T S F M
  set_delivery_filter : T → F → S → Call T S F M
  do_deliver_message : Delivery T M → Call T S F M

-- What a mbox does with a message for one of its subscribers: it calls `push_event`, or tells the
-- tracer that the sink's filter rejects the message.
pub data Reaction (T S M : Type 0) : Type 0 where
  pushed : Push T S M → Reaction T S M
  message_rejected : S → Reaction T S M
