-- ===== src/AsyncOp/TimeLimited.antt =====
-- dev/so_5_extra/async_op/time_limited.hpp: the data of an operation, its activation with the
-- rollbacks, and its three ends. A subscription is named by what `so_create_event_subscription` gets: `C` stands for the mbox, the
-- message type and the state of a completion handler, `St` for the state of a timeout handler. All
-- calls are made on the owner's thread.
pub mod Rollback
pub mod Settled
mod Tests
use so5extra.Prelude.{
  ◌+◌, Bool, true, false, Option, none, some, List, [], ◌∷◌, ◌++◌, map, ◌≡◌, if◌then◌else◌,
}
use so5extra.So5.{Error, extra, Result, ok, throw}
use so5extra.So5.Errors.{async_op_errors}
use so5extra.AsyncOp.Subscriptions.{Subscriptions, IsSubscriptions, drop_each, create_each}

abbrev pub rc_op_cant_be_activated : Error
rc_op_cant_be_activated = extra (async_op_errors + 2)

abbrev pub rc_msg_type_mismatch : Error
rc_msg_type_mismatch = extra (async_op_errors + 3)

pub data Key (C St : Type 0) : Type 0 where
  completion : C → Key C St
  timeout : St → Key C St
  deadletter : Key C St

pub data Status : Type 0 where
  unknown_moved_away not_activated activated completed cancelled timedout : Status

-- `op_data_t`; `timer` tells whether the timeout timer runs.
pub record OpData (C St : Type 0) : Type 0 where
  pub status : Status
  pub completion_handlers : List C
  pub timeout_handlers : List St
  pub timer : Bool

unfoldable pub new_op : {C St : Type 0} → OpData C St
new_op = record {
  status = not_activated;
  completion_handlers = [];
  timeout_handlers = [];
  timer = false;
}

-- A definition point, the operation, which the cancellation point and the event handlers share with it,
-- and its owner. `is_activable` tells whether the definition point still refers to the operation.
pub record DefinitionPoint (C St O : Type 0) : Type 0 where
  pub is_activable : Bool
  pub op : OpData C St
  pub owner : O

unfoldable pub ensure_activable : {C St O : Type 0} → DefinitionPoint C St O → Result (Unit {0})
ensure_activable w = if w.is_activable then ok tt else throw rc_op_cant_be_activated

-- A definition point is empty after its activation (`ensure_activable`).
unfoldable pub completed_on : {C St : Type 0} → C → Option (OpData C St) → Result (OpData C St)
completed_on c none = throw rc_op_cant_be_activated
completed_on c (some op) = ok (record op { completion_handlers = op.completion_handlers ++ c ∷ [] })

-- `is_timeout_msg_type` tells whether the handler is one for the operation's timeout message.
unfoldable pub timeout_handler :
    {C St : Type 0} → Bool → St → Option (OpData C St) → Result (OpData C St)
timeout_handler is_timeout_msg_type st none = throw rc_op_cant_be_activated
timeout_handler is_timeout_msg_type st (some op) =
    if is_timeout_msg_type
    then ok (record op { timeout_handlers = op.timeout_handlers ++ st ∷ [] })
    else throw rc_msg_type_mismatch

module _ {C St O : Type 0} (s : Subscriptions (Key C St) O) where
  abbrev pub completions : List C → List (Key C St)
  completions l = map completion l

  abbrev pub timeouts : List St → List (Key C St)
  timeouts l = map timeout l

  -- `create_timeout_handlers_subscriptions`.
  unfoldable pub create_timeouts : OpData C St → O → O × Result (Unit {0})
  unfolding create_each
  create_timeouts op o =
      let (o', made) = create_each s [] (timeouts op.timeout_handlers) o in
      elim made [
        | throw e ↦ (o', throw e)
        | ok _ ↦ elim (s.create deadletter o') [
          | ok o'' ↦ (o'', ok tt)
          | throw e ↦ (s.destroy deadletter o', throw e)
        ]
      ]

  unfoldable pub do_activation_actions : OpData C St → O → O × Result (Unit {0})
  unfolding create_each create_timeouts drop_each
  do_activation_actions op o =
      let (o', made) = create_each s [] (completions op.completion_handlers) o in
      elim made [
        | throw e ↦ (o', throw e)
        | ok _ ↦
            let (o'', made') = create_timeouts op o' in
            elim made' [
              | ok _ ↦ (o'', ok tt)
              | throw e ↦ (drop_each s (completions op.completion_handlers) o'', throw e)
            ]
      ]

  unfoldable pub do_cancellation_actions : OpData C St → O → OpData C St × O
  unfolding drop_each
  do_cancellation_actions op o = (
    record op { completion_handlers = []; timeout_handlers = []; timer = false },
    drop_each s (completions op.completion_handlers)
        (drop_each s (timeouts op.timeout_handlers) (s.destroy deadletter o)),
  )

  unfoldable pub clean_with_status : Status → OpData C St → O → OpData C St × O
  unfolding do_cancellation_actions
  clean_with_status status op o =
      let (op', o') = do_cancellation_actions op o in (record op' { status = status }, o')

  -- The part of `activate` that is rolled back on an exception. `send_timer` is what `send_periodic`
  -- does: it may throw.
  unfoldable pub activate_op :
      Result (Unit {0}) → OpData C St → O → OpData C St × O × Result (Unit {0})
  unfolding do_activation_actions clean_with_status
  activate_op send_timer op o =
      let (o', done) = do_activation_actions op o in
      elim done [
        | throw e ↦ let (op', o'') = clean_with_status cancelled op o' in (op', o'', throw e)
        | ok _ ↦ elim send_timer [
          | throw e ↦ let (op', o'') = clean_with_status cancelled op o' in (op', o'', throw e)
          | ok _ ↦ (record op { timer = true; status = activated }, o', ok tt)
        ]
      ]

  -- `definition_point_t::activate`: the point lets go of the operation before the activation begins.
  unfoldable pub activate :
      Result (Unit {0}) → DefinitionPoint C St O → DefinitionPoint C St O × Result (Unit {0})
  unfolding ensure_activable activate_op
  activate send_timer w = elim (ensure_activable w) [
    | throw e ↦ (w, throw e)
    | ok _ ↦
        let (op', o', done) = activate_op send_timer w.op w.owner in
        (record { is_activable = false; op = op'; owner = o' }, done)
  ]

  -- `cancellation_point_t::cancel`, where the point still has the operation.
  unfoldable pub cancel : OpData C St → O → OpData C St × O
  unfolding clean_with_status
  cancel op o = elim op.status [
    | activated ↦ clean_with_status cancelled op o
    | unknown_moved_away ↦ (op, o)
    | not_activated ↦ (op, o)
    | completed ↦ (op, o)
    | cancelled ↦ (op, o)
    | timedout ↦ (op, o)
  ]

  -- The handler of a subscription, which SObjectizer calls while there is the subscription.
  unfoldable pub handle : Key C St → OpData C St → O → OpData C St × O
  unfolding clean_with_status
  handle (completion c) op o =
      if s.holds (completion c) o then clean_with_status completed op o else (op, o)
  handle (timeout st) op o =
      if s.holds (timeout st) o then clean_with_status timedout op o else (op, o)
  handle deadletter op o = if s.holds deadletter o then clean_with_status timedout op o else (op, o)
