-- ===== src/Shutdowner/Order.antt =====
-- The vector of the subscribers stays sorted by `special_sink_ptr_compare`, with no sink twice.
use so5extra.Prelude.{
  ℕ, ◌≡◌, false, ◌&&◌, List, [], ◌∷◌, arith, Ord, inl, inr, Bool-cases, if◌then◌else◌,
}
use so5extra.Std.SortedVector.{
  IsStrict, has_key, insert_at, lower_bound, found, erase_key, insert-IsStrict, erase-IsStrict,
  found-has_key,
}
use so5extra.So5.{Delivery}
use so5extra.Shutdowner.{
  Mbox, new_mbox, address, perform, complete_shutdown, start_shutdown_clock,
  ensure_valid_message_type, do_event_subscription, do_event_unsubscripton, begin_shutdown,
  do_initiate_shutdown, subscribe_event_handler, unsubscribe_event_handler, do_deliver_message,
}
use so5extra.Shutdowner.Calls.{is_idle, Call, subscribes, unsubscribes, delivers, step, run}

module _ {S T : Type 0} (M : Type 0) ⦃os : Ord S⦄ ⦃ot : Ord T⦄ (shutdown_initiated : T) where
  unsubscription-subscribers :
      (b : Mbox S) (t : T) (s : S)
      → (step {M = M} shutdown_initiated b (unsubscribes t s)).0.subscribers
        ≡ (if ot.eqb t shutdown_initiated then erase_key address s b.subscribers else b.subscribers)
  unfolding step unsubscribe_event_handler ensure_valid_message_type do_event_unsubscripton perform
      complete_shutdown erase_key
  unsubscription-subscribers b t s = ground arith

  subscription-subscribers :
      (b : Mbox S) (t : T) (s : S)
      → (step {M = M} shutdown_initiated b (subscribes t s)).0.subscribers ≡ (
          if ot.eqb t shutdown_initiated && is_idle b.status
          then insert_at b.subscribers (lower_bound address s b.subscribers) s
          else b.subscribers)
  unfolding step subscribe_event_handler ensure_valid_message_type do_event_subscription
  subscription-subscribers b t s = ground arith

module _ {S T M : Type 0} ⦃os : Ord S⦄ ⦃ot : Ord T⦄ (shutdown_initiated : T) where
  -- SObjectizer subscribes a sink only if it is not subscribed.
  abbrev pub IsAllowed : Mbox S → Call T S M → Type 0
  IsAllowed b (subscribes t s) = has_key address s b.subscribers ≡ false
  IsAllowed b (unsubscribes t s) = Unit
  IsAllowed b (delivers d) = Unit

  abbrev pub IsAllowedRun : Mbox S → List (Call T S M) → Type 0
  IsAllowedRun b [] = Unit
  IsAllowedRun b (c ∷ cs) = IsAllowed b c × IsAllowedRun (step shutdown_initiated b c).0 cs

  delivery-subscribers :
      (b : Mbox S) (d : Delivery T M)
      → (step shutdown_initiated b (delivers d)).0.subscribers ≡ b.subscribers
  unfolding step do_deliver_message ensure_valid_message_type do_initiate_shutdown begin_shutdown
      perform complete_shutdown start_shutdown_clock
  delivery-subscribers b d = ground arith

  step-IsStrict :
      (b : Mbox S) (c : Call T S M)
      → IsAllowed b c
      → IsStrict address b.subscribers
      → IsStrict address (step shutdown_initiated b c).0.subscribers
  step-IsStrict b (subscribes t s) fresh v =
      elim (Bool-cases (ot.eqb t shutdown_initiated && is_idle b.status)) [
        | inl added ↦
            rw (subscription-subscribers M shutdown_initiated b t s, added)
              (insert-IsStrict address s b.subscribers fresh v)
        | inr refused ↦ rw (subscription-subscribers M shutdown_initiated b t s, refused) v
      ]
  step-IsStrict b (unsubscribes t s) a v = elim (Bool-cases (ot.eqb t shutdown_initiated)) [
    | inl same ↦
        rw (unsubscription-subscribers M shutdown_initiated b t s, same)
          (erase-IsStrict address s b.subscribers v)
    | inr other ↦ rw (unsubscription-subscribers M shutdown_initiated b t s, other) v
  ]
  step-IsStrict b (delivers d) a v = rw (delivery-subscribers b d) v

  run_keeps :
      (b : Mbox S) (cs : List (Call T S M))
      → IsAllowedRun b cs
      → IsStrict address b.subscribers
      → IsStrict address (run shutdown_initiated b cs).0.subscribers
  unfolding run
  run_keeps b [] a v = v
  run_keeps b (c ∷ cs) a v =
      run_keeps (step shutdown_initiated b c).0 cs a.1 (step-IsStrict b c a.0 v)

  -- From a new mbox, if a sink subscribes only when it is not subscribed, the vector of the subscribers
  -- is always sorted with no sink twice, and the search by bisection finds a sink exactly if it is
  -- there.
  pub run-new_mbox-IsStrict :
      (id : ℕ) (cs : List (Call T S M)) (s : S)
      → IsAllowedRun (new_mbox id) cs
      → let subscribers = (run shutdown_initiated (new_mbox id) cs).0.subscribers in
        IsStrict address subscribers × (found address s subscribers ≡ has_key address s subscribers)
  unfolding new_mbox
  run-new_mbox-IsStrict id cs s a =
      let sorted = run_keeps (new_mbox id) cs a tt in
      (
        sorted,
        found-has_key address s (run shutdown_initiated (new_mbox id) cs).0.subscribers sorted,
      )
