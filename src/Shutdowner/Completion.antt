-- ===== src/Shutdowner/Completion.antt =====
-- Runs of calls, each one as a whole: the shutdown is completed once, and told of once.
use so5extra.Prelude.{
  ℕ, ◌≡◌, refl, true, false, not, List, [], ◌∷◌, ◌++◌, arith, Ord, inl, inr, Bool-cases,
  if◌then◌else◌, sym, ◌∙◌, ap, append-nil, append_assoc, map,
}
use so5extra.So5.{ok, Delivery, Push}
use so5extra.Shutdowner.{
  not_started, started, must_be_completed, is_started, Mbox, new_mbox, complete_shutdown, perform,
  start_shutdown_clock, ensure_valid_message_type, do_event_subscription, is_empty,
  do_event_unsubscripton, begin_shutdown, send_shutdown_initated_to_all, do_initiate_shutdown,
  subscribe_event_handler, unsubscribe_event_handler, do_deliver_message,
}
use so5extra.Shutdowner.Calls.{
  Call, subscribes, unsubscribes, delivers, is_completed, is_idle, step, run,
}

module _ {S : Type 0} ⦃os : Ord S⦄ where
  -- What each status says of the rest: the guard stands until the shutdown is completed, the timer
  -- runs while it is started, it is completed at most once, it waits for somebody while it is started
  -- and for nobody when it is completed.
  pub record IsValid (b : Mbox S) : Type 0 where
    pub guarded : b.stop_guard ≡ not (is_completed b.status)
    pub timed : b.shutdown_timer ≡ is_started b.status
    pub counted : b.completions ≡ (if is_completed b.status then 1 else 0)
    pub waiting : is_empty b.subscribers ≡ (elim b.status [
      | not_started ↦ is_empty b.subscribers
      | started ↦ false
      | must_be_completed ↦ true
    ])

  new_mbox-IsValid : (id : ℕ) → IsValid (new_mbox {S = S} id)
  unfolding new_mbox
  new_mbox-IsValid id = record { guarded = refl; timed = refl; counted = refl; waiting = refl }

  subscription-IsValid :
      (s : S) (b : Mbox S) (b' : Mbox S)
      → IsValid b
      → do_event_subscription s b ≡ ok b'
      → IsValid b'
  unfolding do_event_subscription
  subscription-IsValid s b b' v e = ground (arith, v.guarded, v.timed, v.counted, v.waiting, e)

  unsubscription-IsValid :
      (s : S) (b : Mbox S)
      → IsValid b
      → IsValid (perform (do_event_unsubscripton s b).1 (do_event_unsubscripton s b).0)
  unfolding do_event_unsubscripton perform complete_shutdown
  unsubscription-IsValid s b v = ground (arith, v.guarded, v.timed, v.counted, v.waiting)

  initiate-IsValid :
      {T M : Type 0} (d : Delivery T M) (b : Mbox S)
      → IsValid b
      → IsValid (perform (do_initiate_shutdown d b).1 (do_initiate_shutdown d b).0)
  unfolding do_initiate_shutdown begin_shutdown start_shutdown_clock perform complete_shutdown
  initiate-IsValid d b v = ground (arith, v.guarded, v.timed, v.counted, v.waiting)

module _ {S T M : Type 0} ⦃os : Ord S⦄ ⦃ot : Ord T⦄ (shutdown_initiated : T) where
  step-IsValid : (b : Mbox S) (c : Call T S M) → IsValid b → IsValid (step shutdown_initiated b c).0
  unfolding step subscribe_event_handler unsubscribe_event_handler do_deliver_message
      ensure_valid_message_type do_event_subscription
  step-IsValid b (subscribes t s) v = ground (arith, v.guarded, v.timed, v.counted, v.waiting)
  step-IsValid b (unsubscribes t s) v = elim (Bool-cases (ot.eqb t shutdown_initiated)) [
    | inl same ↦ rw same (unsubscription-IsValid s b v)
    | inr other ↦ rw other v
  ]
  step-IsValid b (delivers d) v = elim (Bool-cases (ot.eqb d.msg_type shutdown_initiated)) [
    | inl same ↦ rw same (initiate-IsValid d b v)
    | inr other ↦ rw other v
  ]

  pub run-IsValid :
      (b : Mbox S) (cs : List (Call T S M)) → IsValid b → IsValid (run shutdown_initiated b cs).0
  unfolding run
  run-IsValid b [] v = v
  run-IsValid b (c ∷ cs) v = run-IsValid (step shutdown_initiated b c).0 cs (step-IsValid b c v)

  -- After any calls of a new mbox, each made as a whole: the stop guard stands exactly until the
  -- shutdown is completed, which happens at most once; the timer that ends the program runs exactly
  -- while the shutdown is started; a started shutdown waits for some sink, and a completed one for
  -- none.
  pub run-new_shutdowner-IsValid :
      (id : ℕ) (cs : List (Call T S M)) → IsValid (run shutdown_initiated (new_mbox id) cs).0
  run-new_shutdowner-IsValid id cs = run-IsValid (new_mbox id) cs (new_mbox-IsValid id)

  step_idle :
      (b : Mbox S) (c : Call T S M)
      → is_idle (step shutdown_initiated b c).0.status ≡ true
      → (is_idle b.status ≡ true) × ((step shutdown_initiated b c).1 ≡ [])
  unfolding step subscribe_event_handler unsubscribe_event_handler do_deliver_message
      ensure_valid_message_type do_event_subscription do_event_unsubscripton begin_shutdown
      do_initiate_shutdown perform complete_shutdown start_shutdown_clock
  step_idle b (subscribes t s) h = ground (arith, h)
  step_idle b (unsubscribes t s) h = ground (arith, h)
  step_idle b (delivers d) h = ground (arith, h)

  step_busy :
      (b : Mbox S) (c : Call T S M)
      → is_idle b.status ≡ false
      → (is_idle (step shutdown_initiated b c).0.status ≡ false)
        × ((step shutdown_initiated b c).1 ≡ [])
  unfolding step subscribe_event_handler unsubscribe_event_handler do_deliver_message
      ensure_valid_message_type do_event_subscription do_event_unsubscripton begin_shutdown
      do_initiate_shutdown perform complete_shutdown start_shutdown_clock
  step_busy b (subscribes t s) h = ground (arith, h)
  step_busy b (unsubscribes t s) h = ground (arith, h)
  step_busy b (delivers d) h = ground (arith, h)

  run_idle :
      (b : Mbox S) (cs : List (Call T S M))
      → is_idle (run shutdown_initiated b cs).0.status ≡ true
      → (is_idle b.status ≡ true) × ((run shutdown_initiated b cs).1 ≡ [])
  unfolding run
  run_idle b [] h = (h, refl)
  run_idle b (c ∷ cs) h =
      let (idle, nothing) = run_idle (step shutdown_initiated b c).0 cs h in
      let (idle', nothing') = step_idle b c idle in (idle', rw (nothing', nothing) refl)

  run_busy :
      (b : Mbox S) (cs : List (Call T S M))
      → is_idle b.status ≡ false
      → (run shutdown_initiated b cs).1 ≡ []
  unfolding run
  run_busy b [] h = refl
  run_busy b (c ∷ cs) h =
      let (busy, nothing) = step_busy b c h in
      rw (nothing, run_busy (step shutdown_initiated b c).0 cs busy) refl

  run-append :
      (b : Mbox S) (cs more : List (Call T S M))
      → (run shutdown_initiated b (cs ++ more)).1
        ≡ (run shutdown_initiated b cs).1
          ++ (run shutdown_initiated (run shutdown_initiated b cs).0 more).1
  unfolding run
  run-append b [] more = refl
  run-append b (c ∷ cs) more =
      ap (λ l. (step shutdown_initiated b c).1 ++ l)
        (run-append (step shutdown_initiated b c).0 cs more)
      ∙ sym (append_assoc (step shutdown_initiated b c).1 _ _)

  -- The push that tells the sink of the shutdown.
  abbrev pub told_push : ℕ → Delivery T M → S → Push T S M
  told_push id d s = record {
    sink = s;
    mbox_id = id;
    delivery = record {
      delivery_mode = d.delivery_mode;
      msg_type = d.msg_type;
      message = d.message;
      redirection_deep = 0;
    };
  }

  send-each :
      (id : ℕ) (d : Delivery T M) (l : List S)
      → send_shutdown_initated_to_all id d l ≡ map (told_push id d) l
  unfolding send_shutdown_initated_to_all
  send-each id d [] = refl
  send-each id d (s ∷ l) = ap (λ rest. told_push id d s ∷ rest) (send-each id d l)

  initiating :
      (b : Mbox S) (d : Delivery T M)
      → ot.eqb d.msg_type shutdown_initiated ≡ true
      → is_idle b.status ≡ true
      → (is_idle (step shutdown_initiated b (delivers d)).0.status ≡ false)
        × ((step shutdown_initiated b (delivers d)).1
            ≡ send_shutdown_initated_to_all b.id d b.subscribers)
  unfolding step do_deliver_message ensure_valid_message_type begin_shutdown do_initiate_shutdown
      perform complete_shutdown start_shutdown_clock send_shutdown_initated_to_all
  initiating b d same idle = elim (Bool-cases (is_empty b.subscribers)) [
    | inl nobody ↦ ground (arith, same, idle, nobody)
    | inr somebody ↦ ground (arith, same, idle, somebody)
  ]

  -- The first delivery of the right type tells the sinks that are subscribed then, in the order of the
  -- vector and once for each entry of it; no call before it and no call after it sends anything.
  pub told_once :
      (b : Mbox S) (before later : List (Call T S M)) (d : Delivery T M)
      → is_idle (run shutdown_initiated b before).0.status ≡ true
      → ot.eqb d.msg_type shutdown_initiated ≡ true
      → (run shutdown_initiated b (before ++ delivers d ∷ later)).1
        ≡ map
            (told_push (run shutdown_initiated b before).0.id d)
            (run shutdown_initiated b before).0.subscribers
  unfolding run
  told_once b before later d idle same =
      let b' = (run shutdown_initiated b before).0 in
      let (busy, told) = initiating b' d same idle in
      run-append b before (delivers d ∷ later)
      ∙ rw
          (
            (run_idle b before idle).1,
            told,
            run_busy (step shutdown_initiated b' (delivers d)).0 later busy,
          )
          (append-nil _ ∙ send-each b'.id d b'.subscribers)
