-- ===== src/Mboxes/RoundRobin/Absence.antt =====
-- A sink that has unsubscribed gets no message until it subscribes again.
use so5extra.Prelude.{
  ℕ, zero, suc, ◌≡◌, ◌≢◌, ◌⊎◌, inl, inr, false, some, List, [], ◌∷◌, arith, Ord, Option-cases, All,
  get_elem?, erase_at,
}
use so5extra.So5.{Delivery, Push}
use so5extra.Std.Map
use so5extra.Mboxes.RoundRobin.{
  Container, Mbox, pushed, empty_container, emplace_back, current, find_if,
  ensure_valid_current_subscriber_index, add_if_new, erase_if_found, switch_current_subscriber,
  subscribe_event_handler, unsubscribe_event_handler, do_deliver_message,
}
use so5extra.Mboxes.RoundRobin.Subscribers.{
  Without, Without-append, Without-erase_at, erase_if_found-Without,
}
use so5extra.Mboxes.RoundRobin.Invariant.{
  IsValid, Call, subscribes, unsubscribes, delivers, step, run, unsubscribe-IsValid, step-IsValid,
}

module _ {S : Type 0} ⦃os : Ord S⦄ where
  get_elem?-Without :
      (s x : S) (xs : List S) (i : ℕ) → get_elem? xs i ≡ some x → Without s xs → os.eqb x s ≡ false
  get_elem?-Without s x [] i h w = cc
  get_elem?-Without s x (y ∷ xs) zero h w = ground (arith, h, w.0)
  get_elem?-Without s x (y ∷ xs) (suc i) h w = get_elem?-Without s x xs i h w.1

  fresh-Without :
      (s a : S) → os.eqb a s ≡ false → Without s (emplace_back a empty_container).subscribers
  unfolding emplace_back
  fresh-Without s a ne = (ne, tt)

  add_if_new-Without :
      (s a : S) (c : Container S)
      → os.eqb a s ≡ false
      → Without s c.subscribers
      → Without s (add_if_new a c).subscribers
  unfolding add_if_new
  add_if_new-Without s a c ne w = elim (Option-cases (find_if (λ x. os.eqb x a) c.subscribers)) [
    | inl h ↦ rw (h, add_if_new) (Without-append s a c.subscribers w ne)
    | inr (i, h) ↦ rw (h, add_if_new) w
  ]

  ensure_valid-subscribers :
      (c : Container S) → (ensure_valid_current_subscriber_index c).subscribers ≡ c.subscribers
  unfolding ensure_valid_current_subscriber_index
  ensure_valid-subscribers c = ground arith

  erase-Without :
      (s a : S) (c : Container S)
      → Without s c.subscribers
      → Without s (erase_if_found a c).subscribers
  unfolding erase_if_found
  erase-Without s a c w = elim (Option-cases (find_if (λ x. os.eqb x a) c.subscribers)) [
    | inl h ↦ rw (h, erase_if_found) w
    | inr (i, h) ↦
        rw (h, erase_if_found)
          (rw (ensure_valid-subscribers (record c { subscribers = erase_at c.subscribers i }))
            (Without-erase_at s c.subscribers i w))
  ]

  switch-Without :
      (s : S) (c : Container S)
      → Without s c.subscribers
      → Without s (switch_current_subscriber c).subscribers
  unfolding switch_current_subscriber
  switch-Without s c w = rw (ensure_valid-subscribers _) w

module _ {T S : Type 0} ⦃ot : Ord T⦄ ⦃os : Ord S⦄ where
  abbrev pub IsAbsent : T → S → Mbox T S → Type 0
  IsAbsent t s b = (c : Container S) → Map.find t b.subscribers ≡ some c → Without s c.subscribers

  -- A change of one container that keeps the sink out of it.
  modify-IsAbsent :
      (t u : T) (s : S) (f : Container S → Container S) (b : Mbox T S)
      → ((c : Container S) → Without s c.subscribers → Without s (f c).subscribers)
      → IsAbsent t s b
      → IsAbsent t s (record b { subscribers = Map.modify u f b.subscribers })
  modify-IsAbsent t u s f b keep a c h = elim (Option-cases (Map.find t b.subscribers)) [
    | inl e ↦ ground (arith, Map.find-modify u t f b.subscribers, ot.eqb_iff u t)
    | inr (w, e) ↦
        ground (arith, Map.find-modify u t f b.subscribers, ot.eqb_iff u t, a w e, keep w (a w e))
  ]

  unsubscribe-IsAbsent :
      (t : T) (s : S) (b : Mbox T S) → IsValid b → IsAbsent t s (unsubscribe_event_handler t s b)
  unfolding unsubscribe_event_handler
  unsubscribe-IsAbsent t s b v c h = elim (Option-cases (Map.find t b.subscribers)) [
    | inl e ↦ ground (arith, e, h)
    | inr (w, e) ↦ ground (
      arith,
      e,
      h,
      Map.find-erase t t changed (Map.modify-IsSorted t _ b.subscribers v.sorted),
      Map.find-modify t t (erase_if_found s) b.subscribers,
      ot.eqb_iff t t,
      erase_if_found-Without s w (v.good t w e),
    )
  ]
    where
      changed : List (T × Container S)
      changed = Map.modify t (erase_if_found s) b.subscribers

  subscribe-IsAbsent :
      (t u : T) (s a : S) (b : Mbox T S)
      → (ot.eqb u t ≡ false) ⊎ (os.eqb a s ≡ false)
      → IsAbsent t s b
      → IsAbsent t s (subscribe_event_handler u a b)
  unfolding subscribe_event_handler
  subscribe-IsAbsent t u s a b o h c e = elim (Option-cases (Map.find u b.subscribers)) [
    | inl g ↦ ground (
      arith,
      e,
      g,
      Map.find-emplace u t (emplace_back a empty_container) b.subscribers,
      h c,
      fresh-Without s a,
    )
    | inr (w, g) ↦ elim o [
      | inl ne ↦ h c (ground (arith, e, g, Map.find-modify u t (add_if_new a) b.subscribers))
      | inr ne ↦
          modify-IsAbsent t u s (add_if_new a) b (λ x. add_if_new-Without s a x ne) h c
            (ground (arith, e, g))
    ]
  ]

  found_after_unsubscribe :
      (t u : T) (a : S) (b : Mbox T S) (c w : Container S)
      → IsValid b
      → Map.find u b.subscribers ≡ some w
      → Map.find t (unsubscribe_event_handler u a b).subscribers ≡ some c
      → Map.find t (Map.modify u (erase_if_found a) b.subscribers) ≡ some c
  unfolding unsubscribe_event_handler
  found_after_unsubscribe t u a b c w v g e = ground (
    arith,
    e,
    g,
    Map.find-erase u t (Map.modify u (erase_if_found a) b.subscribers)
        (Map.modify-IsSorted u _ b.subscribers v.sorted),
  )

  module _ {M : Type 0} where
    abbrev pub IsOther : T → S → Call T S M → Type 0
    IsOther t s (subscribes u a) = (ot.eqb u t ≡ false) ⊎ (os.eqb a s ≡ false)
    IsOther t s c = Unit

    step-IsAbsent :
        (t : T) (s : S) (b : Mbox T S) (c : Call T S M)
        → IsValid b
        → IsOther t s c
        → IsAbsent t s b
        → IsAbsent t s (step b c)
    unfolding step unsubscribe_event_handler do_deliver_message
    step-IsAbsent t s b (subscribes u a) v o h c e = subscribe-IsAbsent t u s a b o h c e
    step-IsAbsent t s b (unsubscribes u a) v o h c e =
        elim (Option-cases (Map.find u b.subscribers)) [
          | inl g ↦ h c (ground (arith, e, g))
          | inr (w, g) ↦
              modify-IsAbsent t u s (erase_if_found a) b (erase-Without s a) h c
                (found_after_unsubscribe t u a b c w v g e)
        ]
    step-IsAbsent t s b (delivers d) v o h c e =
        elim (Option-cases (Map.find d.msg_type b.subscribers)) [
          | inl n ↦ h c (ground (arith, n, e))
          | inr (w, g) ↦
              modify-IsAbsent t d.msg_type s switch_current_subscriber b (switch-Without s) h c
                (ground (arith, g, e))
        ]

    run-IsAbsent :
        (t : T) (s : S) (b : Mbox T S) (cs : List (Call T S M))
        → IsValid b
        → All (IsOther t s) cs
        → IsAbsent t s b
        → IsAbsent t s (run b cs)
    unfolding run
    run-IsAbsent t s b [] v o h = h
    run-IsAbsent t s b (c ∷ cs) v o h =
        run-IsAbsent t s (step b c) cs (step-IsValid b c v) o.1 (step-IsAbsent t s b c v o.0 h)

    push-IsAbsent :
        (s : S) (b : Mbox T S) (d : Delivery T M) (p : Push T S M)
        → IsAbsent d.msg_type s b
        → (do_deliver_message d b).1 ≡ pushed p
        → os.eqb p.sink s ≡ false
    unfolding do_deliver_message current
    push-IsAbsent s b d p h e = elim (Option-cases (Map.find d.msg_type b.subscribers)) [
      | inl n ↦ ground (arith, n, e)
      | inr (w, g) ↦
          get_elem?-Without s p.sink w.subscribers w.current_subscriber (ground (arith, g, e))
            (h w g)
    ]

    -- After a sink has unsubscribed from a type, and whatever calls follow but a subscription of this
    -- sink to this type, no message of the type is pushed to the sink.
    pub no_push_after_unsubscribe :
        (s : S) (b : Mbox T S) (cs : List (Call T S M)) (d : Delivery T M) (p : Push T S M)
        → IsValid b
        → All (IsOther d.msg_type s) cs
        → (do_deliver_message d (run (unsubscribe_event_handler d.msg_type s b) cs)).1 ≡ pushed p
        → p.sink ≢ s
    no_push_after_unsubscribe s b cs d p v o e same =
        let t = d.msg_type in
        let gone =
          run-IsAbsent t s _ cs (unsubscribe-IsValid t s b v) o (unsubscribe-IsAbsent t s b v) in
        ground (arith, push-IsAbsent s _ d p gone e, os.eqb_iff p.sink s)
