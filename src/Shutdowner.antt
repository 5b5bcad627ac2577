-- ===== src/Shutdowner.antt =====
-- dev/so_5_extra/shutdowner/shutdowner.hpp: `details::notify_mbox_t` with its `status` types. The
-- subscriptions change under the lock; `do_initiate_shutdown` runs without it, so its two halves are
-- definitions of their own. The environment is seen by its stop guard and by the periodic message
-- `shutdown_time_elapsed_t`, whose delivery ends the program. The sinks `S` are ordered by
-- `special_sink_ptr_compare`; a `push_event` returns.
pub mod Calls
pub mod Completion
pub mod Order
pub mod Leaving
pub mod Race
mod Tests
use so5extra.Prelude.{
  ℕ, ◌+◌, Bool, true, false, not, ◌&&◌, none, some, List, [], ◌∷◌, Ord, if◌then◌else◌, erase_at,
}
use so5extra.Std.SortedVector.{insert_at, lower_bound, found}
use so5extra.So5.{
  MboxType, multi_producer_multi_consumer, Error, extra, rc_not_implemented, Result, ok, throw,
  ◌>>=◌, ◌>>◌, Noexcept, noexcept_call, DeliveryMode, Delivery, Push,
}
use so5extra.So5.Errors.{shutdowner_errors}

abbrev pub rc_subscription_disabled_during_shutdown : Error
rc_subscription_disabled_during_shutdown = extra (shutdowner_errors + 1)

abbrev pub rc_illegal_msg_type : Error
rc_illegal_msg_type = extra shutdowner_errors

-- `status::value_t` and `status::deferred_action_t`.
pub data Status : Type 0 where
  not_started started must_be_completed : Status

pub data DeferredAction : Type 0 where
  do_nothing complete : DeferredAction

-- `status::updater_t`, which refers to the holder: the pair of the status and the action.
pub record Updater : Type 0 where
  pub status : Status
  pub action : DeferredAction

pub updater : Status → Updater
updater status = record { status = status; action = do_nothing }

pub update : Status → Updater
update must_be_completed = record { status = must_be_completed; action = complete }
update not_started = record { status = not_started; action = do_nothing }
update started = record { status = started; action = do_nothing }

abbrev pub is_started : Status → Bool
is_started not_started = false
is_started started = true
is_started must_be_completed = false

-- The data of the mbox, and what it holds of the environment: whether its stop guard is set up and
-- its timer runs, and how many times it has completed the shutdown.
pub record Mbox (S : Type 0) : Type 0 where
  pub id : ℕ
  pub status : Status
  pub subscribers : List S
  pub shutdown_timer : Bool
  pub stop_guard : Bool
  pub completions : ℕ

-- The constructor sets the guard up.
unfoldable pub new_mbox : {S : Type 0} → ℕ → Mbox S
new_mbox id = record {
  id = id;
  status = not_started;
  subscribers = [];
  shutdown_timer = false;
  stop_guard = true;
  completions = 0;
}

pub type : {S : Type 0} → Mbox S → MboxType
type b = multi_producer_multi_consumer

pub complete_shutdown : {S : Type 0} → Mbox S → Mbox S
complete_shutdown b = record b {
  shutdown_timer = false;
  stop_guard = false;
  completions = b.completions + 1;
}

pub perform : {S : Type 0} → DeferredAction → Mbox S → Mbox S
unfolding complete_shutdown
perform do_nothing b = b
perform complete b = complete_shutdown b

pub start_shutdown_clock : {S : Type 0} → Mbox S → Mbox S
start_shutdown_clock b = record b { shutdown_timer = true }

module _ {T : Type 0} ⦃ot : Ord T⦄ (shutdown_initiated : T) where
  pub ensure_valid_message_type : T → Result (Unit {0})
  ensure_valid_message_type t =
      if not (ot.eqb t shutdown_initiated) then throw rc_illegal_msg_type else ok tt

abbrev pub address : {S : Type 0} → S → S
address s = s

module _ {S : Type 0} ⦃os : Ord S⦄ where
  pub do_event_subscription : S → Mbox S → Result (Mbox S)
  do_event_subscription subscriber b = elim b.status [
    | not_started ↦ ok (record b {
      subscribers =
          insert_at b.subscribers (lower_bound address subscriber b.subscribers) subscriber;
    })
    | started ↦ throw rc_subscription_disabled_during_shutdown
    | must_be_completed ↦ throw rc_subscription_disabled_during_shutdown
  ]

  abbrev pub is_empty : List S → Bool
  is_empty [] = true
  is_empty (s ∷ l) = false

  pub do_event_unsubscripton : S → Mbox S → Mbox S × DeferredAction
  unfolding updater update
  do_event_unsubscripton subscriber b =
      let status_updater = updater b.status in
      if found address subscriber b.subscribers
      then (let left = erase_at b.subscribers (lower_bound address subscriber b.subscribers) in
          let status_updater' =
            if is_started status_updater.status && is_empty left
            then update must_be_completed
            else status_updater in
          (
            record b { subscribers = left; status = status_updater'.status },
            status_updater'.action,
          ))
      else (b, status_updater.action)

  -- The first half of `do_initiate_shutdown`: the status, and whether messages are to be sent.
  pub begin_shutdown : Mbox S → Mbox S × DeferredAction × Bool
  unfolding updater update
  begin_shutdown b = elim b.status [
    | not_started ↦
        if not (is_empty b.subscribers)
        then (record b { status = (update started).status }, (update started).action, true)
        else (
          record b { status = (update must_be_completed).status },
          (update must_be_completed).action,
          false,
        )
    | started ↦ (b, do_nothing, false)
    | must_be_completed ↦ (b, do_nothing, false)
  ]

  module _ {T M : Type 0} where
    pub send_shutdown_initated_to_all : ℕ → Delivery T M → List S → List (Push T S M)
    send_shutdown_initated_to_all id d [] = []
    send_shutdown_initated_to_all id d (subscriber ∷ rest) =
        record { sink = subscriber; mbox_id = id; delivery = record d { redirection_deep = 0 } }
        ∷ send_shutdown_initated_to_all id d rest

    pub do_initiate_shutdown : Delivery T M → Mbox S → Mbox S × DeferredAction × List (Push T S M)
    unfolding begin_shutdown send_shutdown_initated_to_all start_shutdown_clock
    do_initiate_shutdown d b =
        let (begun, action, sends) = begin_shutdown b in
        if sends
        then (
          start_shutdown_clock begun,
          action,
          send_shutdown_initated_to_all begun.id d begun.subscribers,
        )
        else (begun, action, [])

  module _ {T : Type 0} ⦃ot : Ord T⦄ (shutdown_initiated : T) where
    unfoldable pub subscribe_event_handler : T → S → Mbox S → Result (Mbox S)
    unfolding ensure_valid_message_type do_event_subscription
    subscribe_event_handler t subscriber b = do
      ensure_valid_message_type shutdown_initiated t
      do_event_subscription subscriber b

    -- The method is `noexcept`, and its check of the type throws.
    unfoldable pub unsubscribe_event_handler : T → S → Mbox S → Noexcept (Mbox S)
    unfolding ensure_valid_message_type do_event_unsubscripton perform
    unsubscribe_event_handler t subscriber b = noexcept_call (do
      ensure_valid_message_type shutdown_initiated t
      let (left, action) = do_event_unsubscripton subscriber b in ok (perform action left))

    unfoldable pub do_deliver_message :
        {M : Type 0} → Delivery T M → Mbox S → Result (Mbox S × List (Push T S M))
    unfolding ensure_valid_message_type do_initiate_shutdown perform
    do_deliver_message d b = do
      ensure_valid_message_type shutdown_initiated d.msg_type
      let (initiated, action, pushes) = do_initiate_shutdown d b in
          ok (perform action initiated, pushes)

    unfoldable pub set_delivery_filter : {F : Type 0} → T → F → S → Mbox S → Result (Unit {0})
    unfolding ensure_valid_message_type
    set_delivery_filter t filter subscriber b = do
      ensure_valid_message_type shutdown_initiated t
      throw rc_not_implemented
