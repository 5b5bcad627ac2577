-- ===== src/Mboxes/Collecting.antt =====
-- dev/so_5_extra/mboxes/collecting_mbox.hpp: `details::actual_mbox_t` over one of the two builders of
-- bunches. The lock makes a delivery one step. `message_kind` and
-- `extract_payload_for_message_transformation` are SObjectizer's. A store out of the range of the
-- storage has no result (`none`). The target's `do_deliver_message` returns.
pub mod Messages
pub mod Signals
pub mod Bunches
mod Tests
use so5extra.Prelude.{
  ℕ, ◌+◌, Bool, true, false, not, Option, none, some, List, [], ◌∷◌, Ord, ltb, leb, if◌then◌else◌,
  length, set, replicate, ◌<◌, ◌≡◌, ◌++◌,
}
use so5extra.So5.{
  MboxType, multi_producer_single_consumer, multi_producer_multi_consumer, MboxRef, Mutability,
  immutable_message, mutable_message, Error, extra,
  rc_mutable_msg_cannot_be_delivered_via_mpmc_mbox, Result, ok, throw, ◌>>=◌, ◌>>◌, DeliveryMode,
  Delivery,
}
use so5extra.So5.Errors.{collecting_mbox_errors}

abbrev pub rc_subscribe_event_handler_be_used_on_collecting_mbox : Error
rc_subscribe_event_handler_be_used_on_collecting_mbox = extra collecting_mbox_errors

abbrev pub rc_delivery_filter_cannot_be_used_on_collecting_mbox : Error
rc_delivery_filter_cannot_be_used_on_collecting_mbox = extra (collecting_mbox_errors + 1)

abbrev pub rc_different_message_type : Error
rc_different_message_type = extra (collecting_mbox_errors + 2)

-- What the mbox asks of a builder with the state `B`, over messages `M` and bunches `C`.
pub record BunchBuilder (B M C : Type 0) : Type 0 where
  pub new : B
  pub store : M → ℕ → B → Option B
  pub is_ready_to_be_sent : ℕ → B → Bool
  pub extract_message : B → C × B

-- What a builder has to do for the mbox, for bunches of `n`: `Holds b ms` says that the messages `ms`
-- are stored in `b`, and `Shows c ms` that the bunch `c` has the messages `ms`.
pub record IsBunchBuilder {B M C : Type 0} (n : ℕ) (o : BunchBuilder B M C) : Type 1 where
  pub Holds : B → List M → Type 0
  pub Shows : C → List M → Type 0
  -- What is stored of a message, if anything.
  pub stored : M → Option M
  pub new_lem : Holds o.new []
  pub store_none : (m : M) (b : B) → stored m ≡ none → o.store m n b ≡ some b
  pub store_some :
      (m x : M) (b : B) (ms : List M)
      → stored m ≡ some x
      → Holds b ms
      → length ms < n
      → (b' : B) × (o.store m n b ≡ some b') × Holds b' (ms ++ x ∷ [])
  pub ready_lem : (b : B) (ms : List M) → Holds b ms → o.is_ready_to_be_sent n b ≡ leb n (length ms)
  pub extract_lem :
      (b : B) (ms : List M)
      → Holds b ms
      → length ms ≡ n
      → 0 < n
      → Shows (o.extract_message b).0 ms × Holds (o.extract_message b).1 []

-- `collected_messages_bunch_builder_t`. A message of the bunch is a pointer, null at first.
pub record MessagesBuilder (M : Type 0) : Type 0 where
  pub current_msg : Option (List (Option M))
  pub collected_messages : ℕ

unfoldable pub detect_message_to_store : {M : Type 0} → (M → Bool) → (M → Option M) → M → Option M
detect_message_to_store is_enveloped extract_payload what =
    if is_enveloped what then extract_payload what else some what

module _ {M : Type 0} (is_enveloped : M → Bool) (extract_payload : M → Option M) where
  unfoldable pub store : M → ℕ → MessagesBuilder M → Option (MessagesBuilder M)
  unfolding detect_message_to_store
  store message messages_to_collect b =
      elim (detect_message_to_store is_enveloped extract_payload message) [
        | none ↦ some b
        | some msg ↦
            let storage : List (Option M) = elim b.current_msg [
              | none ↦ replicate messages_to_collect none
              | some storage ↦ storage
            ] in
            if ltb b.collected_messages (length storage)
            then some (record {
              current_msg = some (set storage b.collected_messages (some msg));
              collected_messages = b.collected_messages + 1;
            })
            else none
      ]

  unfoldable pub messages_builder : BunchBuilder (MessagesBuilder M) M (Option (List (Option M)))
  unfolding store
  messages_builder = record {
    new = record { current_msg = none; collected_messages = 0 };
    store = store;
    is_ready_to_be_sent = λ messages_to_collect b. leb messages_to_collect b.collected_messages;
    extract_message = λ b. (b.current_msg, record { current_msg = none; collected_messages = 0 });
  }

-- `collected_signals_bunch_builder_t`, whose state is the count and whose bunch is a count as well.
unfoldable pub signals_builder : {M : Type 0} → BunchBuilder ℕ M ℕ
signals_builder = record {
  new = 0;
  store = λ message messages_to_collect count. some (count + 1);
  is_ready_to_be_sent = λ messages_to_collect count. leb messages_to_collect count;
  extract_message = λ count. (count, 0);
}

pub record Mbox (B : Type 0) : Type 0 where
  pub id : ℕ
  pub target : MboxRef
  pub messages_to_collect : ℕ
  pub msg_builder : B

-- The call of the target's `do_deliver_message`, less the type of the bunch.
pub record Bunch (C : Type 0) : Type 0 where
  pub delivery_mode : DeliveryMode
  pub messages : C
  pub redirection_deep : ℕ

pub check_mutability_validity_for_target_mbox : Mutability → MboxRef → Result (Unit {0})
check_mutability_validity_for_target_mbox immutable_message target = ok tt
check_mutability_validity_for_target_mbox mutable_message target = elim target.type [
  | multi_producer_multi_consumer ↦ throw rc_mutable_msg_cannot_be_delivered_via_mpmc_mbox
  | multi_producer_single_consumer ↦ ok tt
]

module _ {B M C : Type 0} (o : BunchBuilder B M C) where
  unfoldable pub make : Mutability → ℕ → MboxRef → ℕ → Result (Mbox B)
  unfolding check_mutability_validity_for_target_mbox
  make mutability id target messages_to_collect = do
    check_mutability_validity_for_target_mbox mutability target
    ok (record {
      id = id;
      target = target;
      messages_to_collect = messages_to_collect;
      msg_builder = o.new;
    })

  unfoldable pub collect_new_message :
      DeliveryMode → M → Mbox B → Option (Mbox B × Option (Bunch C))
  collect_new_message delivery_mode message b =
      elim (o.store message b.messages_to_collect b.msg_builder) [
        | none ↦ none
        | some stored ↦ some (
            if o.is_ready_to_be_sent b.messages_to_collect stored
            then (let (msg_to_send, rest) = o.extract_message stored in
                (
                  record b { msg_builder = rest },
                  some (record {
                    delivery_mode = delivery_mode;
                    messages = msg_to_send;
                    redirection_deep = 1;
                  }),
                ))
            else (record b { msg_builder = stored }, none))
      ]

  module _ {T : Type 0} ⦃ot : Ord T⦄ (expected_type_id : T) where
    pub ensure_valid_message_type : T → Result (Unit {0})
    ensure_valid_message_type t =
        if not (ot.eqb expected_type_id t) then throw rc_different_message_type else ok tt

    unfoldable pub do_deliver_message :
        Delivery T M → Mbox B → Result (Option (Mbox B × Option (Bunch C)))
    unfolding ensure_valid_message_type collect_new_message
    do_deliver_message d b = do
      ensure_valid_message_type d.msg_type
      ok (collect_new_message d.delivery_mode d.message b)

pub type : {B : Type 0} → Mbox B → MboxType
type b = b.target.type

pub subscribe_event_handler : {B T S : Type 0} → T → S → Mbox B → Result (Unit {0})
subscribe_event_handler t subscriber b = throw rc_subscribe_event_handler_be_used_on_collecting_mbox

pub unsubscribe_event_handler : {B T S : Type 0} → T → S → Mbox B → Mbox B
unsubscribe_event_handler t subscriber b = b

pub set_delivery_filter : {B T F S : Type 0} → T → F → S → Mbox B → Result (Unit {0})
set_delivery_filter t filter subscriber b =
    throw rc_delivery_filter_cannot_be_used_on_collecting_mbox

pub drop_delivery_filter : {B T S : Type 0} → T → S → Mbox B → Mbox B
drop_delivery_filter t subscriber b = b
