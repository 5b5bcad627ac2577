-- ===== src/Mboxes/Retained/History.antt =====
-- The mbox as a function of the calls that it got: what is retained, and the block of each subscriber.
use so5extra.Prelude.{Bool, ◌&&◌, Option, none, some, List, [], ◌∷◌, Ord, if◌then◌else◌}
use so5extra.Std.Map
use so5extra.Std.Map.{IsSorted}
use so5extra.So5.{
  Mutability, immutable_message, mutable_message, Result, ok, throw, Delivery, Reaction,
}
use so5extra.So5.Subscription.{SubscriptionInfo}
use so5extra.Mboxes.Retained.{
  Mbox, table_item, subscribe_event_handler, unsubscribe_event_handler, set_delivery_filter,
  drop_delivery_filter, do_deliver_message,
}

pub data Call (T S F M : Type 0) : Type 0 where
  subscribes unsubscribes drops_filter : T → S → Call T S F M
  sets_filter : T → F → S → Call T S F M
  delivers : Delivery T M → Call T S F M

module _ {T S I M : Type 0} where
  -- A caller that gets an exception leaves the mbox as it is.
  abbrev pub after : Mbox T S I M → Result (Mbox T S I M × List (Reaction T S M)) → Mbox T S I M
  after b (ok r) = r.0
  after b (throw e) = b

module _ {I : Type 0} where
  abbrev pub created_or : I → (I → I) → Option I → Option I
  created_or maker changer none = some maker
  created_or maker changer (some i) = some (changer i)

  abbrev pub unless_empty : (I → Bool) → (I → I) → Option I → Option I
  unless_empty is_empty changer none = none
  unless_empty is_empty changer (some i) = if is_empty (changer i) then none else some (changer i)

module _ {T S I F M : Type 0} ⦃ot : Ord T⦄ ⦃os : Ord S⦄ (o : SubscriptionInfo I S F M)
    (message_mutability : M → Mutability) where
  unfoldable pub step : Mbox T S I M → Call T S F M → Mbox T S I M
  step b (subscribes t s) = (subscribe_event_handler o t s b).0
  step b (unsubscribes t s) = unsubscribe_event_handler o t s b
  step b (drops_filter t s) = drop_delivery_filter o t s b
  step b (sets_filter t f s) = (set_delivery_filter o t f s b).0
  step b (delivers d) = after b (do_deliver_message o message_mutability d b)

  unfoldable pub run : Mbox T S I M → List (Call T S F M) → Mbox T S I M
  unfolding step
  run b [] = b
  run b (c ∷ cs) = run (step b c) cs

  -- What a call makes of the block of the sink `s` for the type `t`.
  unfoldable pub block_after : T → S → Option I → Call T S F M → Option I
  block_after t s block (subscribes u r) =
      if ot.eqb u t && os.eqb r s
      then created_or o.subscription_present o.subscription_defined block
      else block
  block_after t s block (unsubscribes u r) =
      if ot.eqb u t && os.eqb r s then unless_empty o.empty o.subscription_dropped block else block
  block_after t s block (drops_filter u r) =
      if ot.eqb u t && os.eqb r s then unless_empty o.empty o.drop_filter block else block
  block_after t s block (sets_filter u f r) =
      if ot.eqb u t && os.eqb r s then created_or (o.of_filter f) (o.set_filter f) block else block
  block_after t s block (delivers d) = block

  unfoldable pub block_in : T → S → Option I → List (Call T S F M) → Option I
  unfolding block_after
  block_in t s block [] = block
  block_in t s block (c ∷ cs) = block_in t s (block_after t s block c) cs

  unfoldable pub message_after : T → Option M → Call T S F M → Option M
  message_after t last (delivers d) =
      if ot.eqb d.msg_type t
      then (elim (message_mutability d.message) [
        | immutable_message ↦ some d.message
        | mutable_message ↦ last
      ])
      else last
  message_after t last _ = last

  -- The last immutable message of the type `t` among the calls.
  unfoldable pub last_message : T → Option M → List (Call T S F M) → Option M
  unfolding message_after
  last_message t last [] = last
  last_message t last (c ∷ cs) = last_message t (message_after t last c) cs

module _ {T S I M : Type 0} ⦃ot : Ord T⦄ ⦃os : Ord S⦄ where
  unfoldable pub block_of : T → S → Mbox T S I M → Option I
  block_of t s b = Map.find s (table_item t b.messages_table).subscribers

  unfoldable pub retained_of : T → Mbox T S I M → Option M
  retained_of t b = (table_item t b.messages_table).retained_msg

  abbrev pub AllSorted : Mbox T S I M → Type 0
  AllSorted b = (t : T) → IsSorted (table_item t b.messages_table).subscribers
