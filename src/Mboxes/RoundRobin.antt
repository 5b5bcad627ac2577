-- ===== src/Mboxes/RoundRobin.antt =====
-- dev/so_5_extra/mboxes/round_robin.hpp: `details::subscriber_container_t` and
-- `details::mbox_template_t`. The lock makes each method one step. A sink is known by its address,
-- which the code compares; a `push_event` of a sink returns.
pub mod Absence
pub mod Erasure
pub mod Invariant
pub mod Turns
pub mod Rotation
mod Tests
pub mod Subscribers
use so5extra.Prelude.{
  ℕ, suc, ◌+◌, Bool, true, false, Option, none, some, List, [], ◌∷◌, ◌++◌, Ord, leb, length,
  get_elem?, erase_at, if◌then◌else◌,
}
use so5extra.Std.Map
use so5extra.So5.{
  MboxType, multi_producer_single_consumer, Error, extra, Result, throw, Delivery, Push,
}
use so5extra.So5.Errors.{mboxes_round_robin_errors}

abbrev pub rc_delivery_filter_cannot_be_used_on_round_robin_mbox : Error
rc_delivery_filter_cannot_be_used_on_round_robin_mbox = extra mboxes_round_robin_errors

pub record Container (S : Type 0) : Type 0 where
  pub subscribers : List S
  pub current_subscriber : ℕ

-- The position of the first match; the end iterator is `none`.
pub find_if {ℓ} : {A : Type ℓ} → (A → Bool) → List A → Option ℕ
find_if p [] = none
find_if p (x ∷ xs) =
    if p x then some 0 else (elim (find_if p xs) [ none ↦ none | some i ↦ some (suc i) ])

module _ {S : Type 0} where
  abbrev pub empty_container : Container S
  empty_container = record { subscribers = []; current_subscriber = 0 }

  pub empty : Container S → Bool
  empty c = elim c.subscribers [ [] ↦ true | _ ∷ _ ↦ false ]

  pub emplace_back : S → Container S → Container S
  emplace_back sink c = record c { subscribers = c.subscribers ++ sink ∷ [] }

  pub ensure_valid_current_subscriber_index : Container S → Container S
  ensure_valid_current_subscriber_index c =
      if leb (length c.subscribers) c.current_subscriber
      then record c { current_subscriber = 0 }
      else c

  pub erase : ℕ → Container S → Container S
  unfolding ensure_valid_current_subscriber_index
  erase it c =
      ensure_valid_current_subscriber_index (record c { subscribers = erase_at c.subscribers it })

  -- `none` stands for a read past the end of the vector.
  pub current : Container S → Option S
  current c = get_elem? c.subscribers c.current_subscriber

  pub switch_current_subscriber : Container S → Container S
  unfolding ensure_valid_current_subscriber_index
  switch_current_subscriber c =
      ensure_valid_current_subscriber_index
        (record c { current_subscriber = c.current_subscriber + 1 })

module _ {S : Type 0} ⦃o : Ord S⦄ where
  pub find : S → Container S → Option ℕ
  unfolding find_if
  find sink c = find_if (λ info. o.eqb info sink) c.subscribers

  -- The branches of `subscribe_event_handler` and `unsubscribe_event_handler` on a known type.
  pub add_if_new : S → Container S → Container S
  unfolding find emplace_back
  add_if_new subscriber sinks = elim (find subscriber sinks) [
    | none ↦ emplace_back subscriber sinks
    | some pos ↦ sinks
  ]

  pub erase_if_found : S → Container S → Container S
  unfolding find erase
  erase_if_found subscriber sinks = elim (find subscriber sinks) [
    | none ↦ sinks
    | some pos ↦ erase pos sinks
  ]

pub record Mbox (T S : Type 0) : Type 0 where
  pub id : ℕ
  pub subscribers : List (T × Container S)

-- What one call of `do_deliver_message` does: it tells the tracer that there is nobody, or calls
-- `push_event` of one sink. `undefined` stands for a read past the end of the vector.
pub data Outcome (T S M : Type 0) : Type 0 where
  no_subscribers undefined : Outcome T S M
  pushed : Push T S M → Outcome T S M

module _ {T S : Type 0} ⦃ot : Ord T⦄ ⦃os : Ord S⦄ where
  pub subscribe_event_handler : T → S → Mbox T S → Mbox T S
  unfolding add_if_new emplace_back
  subscribe_event_handler msg_type subscriber b = elim (Map.find msg_type b.subscribers) [
    | none ↦ record b {
      subscribers = Map.emplace msg_type (emplace_back subscriber empty_container) b.subscribers;
    }
    | some sinks ↦ record b {
      subscribers = Map.modify msg_type (add_if_new subscriber) b.subscribers;
    }
  ]

  pub unsubscribe_event_handler : T → S → Mbox T S → Mbox T S
  unfolding erase_if_found empty
  unsubscribe_event_handler msg_type subscriber b = elim (Map.find msg_type b.subscribers) [
    | none ↦ b
    | some sinks ↦
        let changed = Map.modify msg_type (erase_if_found subscriber) b.subscribers in
        record b {
          subscribers =
              if empty (erase_if_found subscriber sinks)
              then Map.erase msg_type changed
              else changed;
        }
  ]

  pub do_deliver_message : {M : Type 0} → Delivery T M → Mbox T S → Mbox T S × Outcome T S M
  unfolding current switch_current_subscriber
  do_deliver_message d b = elim (Map.find d.msg_type b.subscribers) [
    | none ↦ (b, no_subscribers)
    | some sinks ↦ (
      record b { subscribers = Map.modify d.msg_type switch_current_subscriber b.subscribers },
      elim (current sinks) [
        | none ↦ undefined
        | some sink ↦ pushed (record { sink = sink; mbox_id = b.id; delivery = d })
      ],
    )
  ]

  pub set_delivery_filter : T → S → Mbox T S → Result (Mbox T S)
  set_delivery_filter msg_type subscriber b =
      throw rc_delivery_filter_cannot_be_used_on_round_robin_mbox

  pub drop_delivery_filter : T → S → Mbox T S → Mbox T S
  drop_delivery_filter msg_type subscriber b = b

pub type : {T S : Type 0} → Mbox T S → MboxType
type b = multi_producer_single_consumer
