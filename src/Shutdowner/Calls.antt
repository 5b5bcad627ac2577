-- ===== src/Shutdowner/Calls.antt =====
-- A call of the shutdowner's mbox as a value, and runs of calls.
use so5extra.Prelude.{Bool, true, false, List, [], ◌∷◌, ◌++◌, Ord}
use so5extra.So5.{Result, ok, throw, Noexcept, returns, terminates, Delivery, Push}
use so5extra.Shutdowner.{
  Status, not_started, started, must_be_completed, Mbox, subscribe_event_handler,
  unsubscribe_event_handler, do_deliver_message,
}

pub data Call (T S M : Type 0) : Type 0 where
  subscribes unsubscribes : T → S → Call T S M
  delivers : Delivery T M → Call T S M

abbrev pub is_completed : Status → Bool
is_completed not_started = false
is_completed started = false
is_completed must_be_completed = true

abbrev pub is_idle : Status → Bool
is_idle not_started = true
is_idle started = false
is_idle must_be_completed = false

module _ {S : Type 0} where
  -- A caller that gets an exception leaves the mbox as it is; `std::terminate`, for a wrong type, is no
  -- state, and taken as the end of the changes.
  abbrev pub survives : Mbox S → Noexcept (Mbox S) → Mbox S
  survives b (returns b') = b'
  survives b terminates = b

  abbrev pub after : Mbox S → Result (Mbox S) → Mbox S
  after b (ok b') = b'
  after b (throw e) = b

module _ {S T M : Type 0} where
  abbrev pub after_delivery :
      Mbox S → Result (Mbox S × List (Push T S M)) → Mbox S × List (Push T S M)
  after_delivery b (ok r) = r
  after_delivery b (throw e) = (b, [])

module _ {S T M : Type 0} ⦃os : Ord S⦄ ⦃ot : Ord T⦄ (shutdown_initiated : T) where
  unfoldable pub step : Mbox S → Call T S M → Mbox S × List (Push T S M)
  step b (subscribes t s) = (after b (subscribe_event_handler shutdown_initiated t s b), [])
  step b (unsubscribes t s) = (survives b (unsubscribe_event_handler shutdown_initiated t s b), [])
  step b (delivers d) = after_delivery b (do_deliver_message shutdown_initiated d b)

  unfoldable pub run : Mbox S → List (Call T S M) → Mbox S × List (Push T S M)
  unfolding step
  run b [] = (b, [])
  run b (c ∷ cs) =
      let (b', pushes) = step b c in let (b'', later) = run b' cs in (b'', pushes ++ later)
