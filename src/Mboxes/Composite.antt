-- ===== src/Mboxes/Composite.antt =====
-- dev/so_5_extra/mboxes/composite.hpp: the builder and `impl::actual_mbox_t`, which passes each call on
-- to the mbox that was added for its message type. The message types `T` are ordered as
-- `std::type_index`; `message_mutability` is SObjectizer's. `std::move` of a smart pointer leaves a
-- null one.
pub mod Routing
mod Tests
use so5extra.Prelude.{
  ℕ, ◌+◌, Bool, true, false, not, ◌&&◌, Option, none, some, List, [], ◌∷◌, Ord, if◌then◌else◌,
}
use so5extra.Std.Map
use so5extra.Std.SortedVector.{find_at}
use so5extra.So5.{
  MboxType, multi_producer_multi_consumer, multi_producer_single_consumer, MboxRef, Mutability,
  immutable_message, mutable_message, Error, extra,
  rc_mutable_msg_cannot_be_delivered_via_mpmc_mbox, Result, ok, throw, ◌>>=◌, ◌>>◌, Delivery, Call,
}
use so5extra.So5.Errors.{mboxes_composite_errors}

abbrev pub rc_no_sink_for_message_type : Error
rc_no_sink_for_message_type = extra mboxes_composite_errors

abbrev pub rc_message_type_already_has_sink : Error
rc_message_type_already_has_sink = extra (mboxes_composite_errors + 1)

abbrev pub rc_mpmc_sink_can_be_used_with_mpsc_composite : Error
rc_mpmc_sink_can_be_used_with_mpsc_composite = extra (mboxes_composite_errors + 2)

abbrev pub rc_null_as_default_destination_mbox : Error
rc_null_as_default_destination_mbox = extra (mboxes_composite_errors + 3)

-- `type_not_found_reaction_t`. The mbox of the first case is null only after a move.
pub data TypeNotFoundReaction : Type 0 where
  redirect_to_if_not_found_case : Option MboxRef → TypeNotFoundReaction
  throw_if_not_found_case drop_if_not_found_case : TypeNotFoundReaction

unfoldable pub redirect_to_if_not_found : Option MboxRef → Result TypeNotFoundReaction
redirect_to_if_not_found none = throw rc_null_as_default_destination_mbox
redirect_to_if_not_found (some dest) = ok (redirect_to_if_not_found_case (some dest))

pub record Target (T : Type 0) : Type 0 where
  pub msg_type : T
  pub dest : MboxRef

pub record Mbox (T : Type 0) : Type 0 where
  pub id : ℕ
  pub mbox_type : MboxType
  pub unknown_type_reaction : TypeNotFoundReaction
  pub targets : List (Target T)

pub record MboxBuilder (T : Type 0) : Type 0 where
  pub mbox_type : MboxType
  pub unknown_type_reaction : TypeNotFoundReaction
  pub targets : List (T × MboxRef)

unfoldable pub builder : {T : Type 0} → MboxType → TypeNotFoundReaction → MboxBuilder T
builder mbox_type unknown_type_reaction = record {
  mbox_type = mbox_type;
  unknown_type_reaction = unknown_type_reaction;
  targets = [];
}

-- What `std::move` leaves.
pub moved_from : TypeNotFoundReaction → TypeNotFoundReaction
moved_from (redirect_to_if_not_found_case dest) = redirect_to_if_not_found_case none
moved_from throw_if_not_found_case = throw_if_not_found_case
moved_from drop_if_not_found_case = drop_if_not_found_case

pub targets_to_vector : {T : Type 0} → List (T × MboxRef) → List (Target T)
targets_to_vector [] = []
targets_to_vector ((msg_type, dest) ∷ rest) =
    record { msg_type = msg_type; dest = dest } ∷ targets_to_vector rest

-- The mbox, and what is left of the builder.
unfoldable pub make : {T : Type 0} → ℕ → MboxBuilder T → Mbox T × MboxBuilder T
unfolding targets_to_vector moved_from
make id b = (
  record {
    id = id;
    mbox_type = b.mbox_type;
    unknown_type_reaction = b.unknown_type_reaction;
    targets = targets_to_vector b.targets;
  },
  record b { unknown_type_reaction = moved_from b.unknown_type_reaction },
)

-- The check of `add` for a mutable message type.
pub ensure_mutable_can_be_added : MboxType → MboxRef → Result (Unit {0})
ensure_mutable_can_be_added multi_producer_multi_consumer dest =
    throw rc_mutable_msg_cannot_be_delivered_via_mpmc_mbox
ensure_mutable_can_be_added multi_producer_single_consumer dest = elim dest.type [
  | multi_producer_multi_consumer ↦ throw rc_mpmc_sink_can_be_used_with_mpsc_composite
  | multi_producer_single_consumer ↦ ok tt
]

-- What a method of the mbox does with a call: it passes it on, ignores it, or uses a null pointer.
pub data Outcome (T S F M : Type 0) : Type 0 where
  passed_on : MboxRef → Call T S F M → Outcome T S F M
  ignored null_dereference : Outcome T S F M

pub pass_on : {T S F M : Type 0} → Option MboxRef → Call T S F M → Outcome T S F M
pass_on none call = null_dereference
pass_on (some dest) call = passed_on dest call

pub ensure_immutable_message : {T M : Type 0} → (M → Mutability) → M → Mbox T → Result (Unit {0})
ensure_immutable_message message_mutability what b = elim b.mbox_type [
  | multi_producer_multi_consumer ↦ elim (message_mutability what) [
    | immutable_message ↦ ok tt
    | mutable_message ↦ throw rc_mutable_msg_cannot_be_delivered_via_mpmc_mbox
  ]
  | multi_producer_single_consumer ↦ ok tt
]

module _ {T : Type 0} ⦃ot : Ord T⦄ where
  unfoldable pub add : Mutability → T → MboxRef → MboxBuilder T → Result (MboxBuilder T)
  unfolding ensure_mutable_can_be_added
  add mutability msg_type dest_mbox b = do
    elim mutability [
      | immutable_message ↦ ok tt
      | mutable_message ↦ ensure_mutable_can_be_added b.mbox_type dest_mbox
    ]
    elim (Map.find msg_type b.targets) [
      | none ↦ ok (record b { targets = Map.emplace msg_type dest_mbox b.targets })
      | some _ ↦ throw rc_message_type_already_has_sink
    ]

  pub try_find_target_for_msg_type : T → Mbox T → Option (Target T)
  try_find_target_for_msg_type msg_type b = find_at (λ target. target.msg_type) msg_type b.targets

  -- `unknown_msg_type_handlers` for the methods that throw, and for those that do not.
  pub visit : {S F M : Type 0} → Call T S F M → TypeNotFoundReaction → Result (Outcome T S F M)
  unfolding pass_on
  visit call (redirect_to_if_not_found_case dest) = ok (pass_on dest call)
  visit call throw_if_not_found_case = throw rc_no_sink_for_message_type
  visit call drop_if_not_found_case = ok ignored

  pub visit_noexcept : {S F M : Type 0} → Call T S F M → TypeNotFoundReaction → Outcome T S F M
  unfolding pass_on
  visit_noexcept call (redirect_to_if_not_found_case dest) = pass_on dest call
  visit_noexcept call throw_if_not_found_case = ignored
  visit_noexcept call drop_if_not_found_case = ignored

  module _ {S F M : Type 0} where
    unfoldable pub subscribe_event_handler : T → S → Mbox T → Result (Outcome T S F M)
    unfolding try_find_target_for_msg_type visit
    subscribe_event_handler msg_type subscriber b =
        let call = Call.subscribe_event_handler msg_type subscriber in
        elim (try_find_target_for_msg_type msg_type b) [
          | some target ↦ ok (passed_on target.dest call)
          | none ↦ visit call b.unknown_type_reaction
        ]

    unfoldable pub unsubscribe_event_handler : T → S → Mbox T → Outcome T S F M
    unfolding try_find_target_for_msg_type visit_noexcept
    unsubscribe_event_handler msg_type subscriber b =
        let call = Call.unsubscribe_event_handler msg_type subscriber in
        elim (try_find_target_for_msg_type msg_type b) [
          | some target ↦ passed_on target.dest call
          | none ↦ visit_noexcept call b.unknown_type_reaction
        ]

    unfoldable pub set_delivery_filter : T → F → S → Mbox T → Result (Outcome T S F M)
    unfolding try_find_target_for_msg_type visit
    set_delivery_filter msg_type filter subscriber b =
        let call = Call.set_delivery_filter msg_type filter subscriber in
        elim (try_find_target_for_msg_type msg_type b) [
          | some target ↦ ok (passed_on target.dest call)
          | none ↦ visit call b.unknown_type_reaction
        ]

    unfoldable pub drop_delivery_filter : T → S → Mbox T → Outcome T S F M
    unfolding try_find_target_for_msg_type visit_noexcept
    drop_delivery_filter msg_type subscriber b =
        let call = Call.drop_delivery_filter msg_type subscriber in
        elim (try_find_target_for_msg_type msg_type b) [
          | some target ↦ passed_on target.dest call
          | none ↦ visit_noexcept call b.unknown_type_reaction
        ]

    unfoldable pub do_deliver_message :
        (M → Mutability) → Delivery T M → Mbox T → Result (Outcome T S F M)
    unfolding ensure_immutable_message try_find_target_for_msg_type visit
    do_deliver_message message_mutability d b = do
      ensure_immutable_message message_mutability d.message b
      elim (try_find_target_for_msg_type d.msg_type b) [
        | some target ↦ ok (passed_on target.dest (Call.do_deliver_message d))
        | none ↦ visit (Call.do_deliver_message d) b.unknown_type_reaction
      ]
