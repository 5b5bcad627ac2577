-- ===== src/AsyncOp/TimeUnlimited.antt =====
-- dev/so_5_extra/async_op/time_unlimited.hpp: an operation, its definition point and its cancellation
-- point. `K` stands for what names a subscription: the mbox, the message type and the state. The operation
-- is a counted object: its points hold it, and each of its handlers, in `subscriptions` and among
-- the owner's subscriptions, has a pointer to it too.
pub mod Ends
pub mod Leak
mod Tests
use so5extra.Prelude.{
  ◌+◌, Bool, true, false, ◌&&◌, Option, none, some, List, [], ◌∷◌, ◌++◌, ◌≡◌, if◌then◌else◌,
}
use so5extra.So5.{Error, extra, Result, ok, throw, ◌>>=◌, ◌>>◌}
use so5extra.So5.Errors.{async_op_errors}
use so5extra.AsyncOp.Subscriptions.{Subscriptions, drop_each, create_each}

abbrev pub rc_async_op_activated : Error
rc_async_op_activated = extra async_op_errors

abbrev pub rc_no_completion_handler : Error
rc_no_completion_handler = extra (async_op_errors + 1)

abbrev pub rc_op_cant_be_activated : Error
rc_op_cant_be_activated = extra (async_op_errors + 2)

abbrev pub rc_empty_definition_point_object : Error
rc_empty_definition_point_object = extra (async_op_errors + 4)

pub data Status : Type 0 where
  unknown_moved_away not_activated activated completed cancelled : Status

pub record OpData (K : Type 0) : Type 0 where
  pub status : Status
  pub subscriptions : List K

-- The operation, and whether `m_op` of the two points is not null.
pub record World (K : Type 0) : Type 0 where
  pub op : OpData K
  pub definition_point : Bool
  pub cancellation_point : Bool

-- `make`.
unfoldable pub make : {K : Type 0} → World K
make = record {
  op = record { status = not_activated; subscriptions = [] };
  definition_point = true;
  cancellation_point = false;
}

pub is_activated : Status → Bool
is_activated activated = true
is_activated unknown_moved_away = false
is_activated not_activated = false
is_activated completed = false
is_activated cancelled = false

pub has_completion_handlers : {K : Type 0} → OpData K → Bool
has_completion_handlers op = elim op.subscriptions [ [] ↦ false | _ ∷ _ ↦ true ]

pub ensure_not_activated : {K : Type 0} → OpData K → Result (Unit {0})
unfolding is_activated
ensure_not_activated op = if is_activated op.status then throw rc_async_op_activated else ok tt

unfoldable pub add_completion_handler : {K : Type 0} → K → OpData K → Result (OpData K)
unfolding ensure_not_activated
add_completion_handler k op = do
  ensure_not_activated op
  ok (record op { subscriptions = op.subscriptions ++ k ∷ [] })

-- `definition_point_t::completed_on`.
unfoldable pub completed_on : {K : Type 0} → K → World K → Result (World K)
unfolding add_completion_handler
completed_on k w = elim w.definition_point [
  | false ↦ throw rc_empty_definition_point_object
  | true ↦ do op ← add_completion_handler k w.op; ok (record w { op = op })
]

unfoldable pub is_activable : {K : Type 0} → World K → Bool
unfolding has_completion_handlers
is_activable w = w.definition_point && has_completion_handlers w.op

-- `cancellation_point_t::status`.
unfoldable pub status : {K : Type 0} → World K → Status
status w = if w.cancellation_point then w.op.status else unknown_moved_away

unfoldable pub is_cancellable : {K : Type 0} → World K → Bool
unfolding is_activated
is_cancellable w = w.cancellation_point && is_activated w.op.status

unfoldable pub cleanup : {K : Type 0} → World K → World K
cleanup w = record w { cancellation_point = false }

module _ {K O : Type 0} (s : Subscriptions K O) where
  pub destroy_and_clear_subscriptions : OpData K → O → OpData K × O
  unfolding drop_each
  destroy_and_clear_subscriptions op o =
      (record op { subscriptions = [] }, drop_each s op.subscriptions o)

  pub create_subscriptions : OpData K → O → O × Result (Unit {0})
  unfolding create_each
  create_subscriptions op o = create_each s [] op.subscriptions o

  unfoldable pub activate_op : OpData K → O → OpData K × O × Result (Unit {0})
  unfolding ensure_not_activated has_completion_handlers create_subscriptions
  activate_op op o = elim (ensure_not_activated op) [
    | throw e ↦ (op, o, throw e)
    | ok _ ↦ elim (has_completion_handlers op) [
      | false ↦ (op, o, throw rc_no_completion_handler)
      | true ↦
          let (o', made) = create_subscriptions op o in
          elim made [
            | throw e ↦ (op, o', throw e)
            | ok _ ↦ (record op { status = activated }, o', ok tt)
          ]
    ]
  ]

  unfoldable pub cancel_op : OpData K → O → OpData K × O
  unfolding destroy_and_clear_subscriptions
  cancel_op op o = elim op.status [
    | activated ↦
        let (op', o') = destroy_and_clear_subscriptions op o in
        (record op' { status = cancelled }, o')
    | not_activated ↦ (record op { subscriptions = [] }, o)
    | unknown_moved_away ↦ (op, o)
    | completed ↦ (op, o)
    | cancelled ↦ (op, o)
  ]

  unfoldable pub completed_op : OpData K → O → OpData K × O
  unfolding destroy_and_clear_subscriptions
  completed_op op o =
      let (op', o') = destroy_and_clear_subscriptions op o in
      (record op' { status = completed }, o')

  -- `cancellation_point_t::cancel`.
  unfoldable pub cancel : World K → O → World K × O
  unfolding is_cancellable cancel_op
  cancel w o = elim (is_cancellable w) [
    | true ↦ let (op', o') = cancel_op w.op o in (record w { op = op' }, o')
    | false ↦ (w, o)
  ]

  -- The destructor of the definition point.
  unfoldable pub destroy_definition_point : World K → O → World K × O
  unfolding cancel_op
  destroy_definition_point w o = elim w.definition_point [
    | true ↦
        let (op', o') = cancel_op w.op o in (record w { op = op'; definition_point = false }, o')
    | false ↦ (w, o)
  ]

  -- `definition_point_t::activate`; `action` tells whether the activation action throws. If there is
  -- an exception, the pointer that was moved from the definition point is lost.
  unfoldable pub activate : Result (Unit {0}) → World K → O → World K × O × Result (Unit {0})
  unfolding is_activable activate_op cancel_op
  activate action w o = elim (is_activable w) [
    | false ↦ (w, o, throw rc_op_cant_be_activated)
    | true ↦
        let (op', o', done) = activate_op w.op o in
        elim done [
          | throw e ↦ (record w { op = op'; definition_point = false }, o', throw e)
          | ok _ ↦ elim action [
            | throw e ↦
                let (op'', o'') = cancel_op op' o' in
                (record w { op = op''; definition_point = false }, o'', throw e)
            | ok _ ↦ (
              record { op = op'; definition_point = false; cancellation_point = true },
              o',
              ok tt,
            )
          ]
        ]
  ]

  -- The handler of a subscription, which SObjectizer calls while there is the subscription. The
  -- user's handler comes after `completed` and is not modelled.
  unfoldable pub handle : K → World K → O → World K × O
  unfolding completed_op
  handle k w o =
      if s.holds k o
      then (let (op', o') = completed_op w.op o in (record w { op = op' }, o'))
      else (w, o)
