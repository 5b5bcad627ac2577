-- ===== src/MsgHierarchy/Deliver/Receivers.antt =====
-- Who receives a message from a demuxer: at most one mbox of each consumer.
use so5extra.Prelude.{
  ℕ, ◌≡◌, refl, Option, none, some, List, [], ◌∷◌, ◌++◌, map, append-nil, append_assoc, arith, Ord,
  nat_ord, Option-cases, inl, inr, ◌⊎◌, All, sym, subst, ap, ◌∙◌,
}
use so5extra.So5.{
  MboxType, multi_producer_multi_consumer, multi_producer_single_consumer, Mutability,
  immutable_message, mutable_message, Delivery, Error, Result, Result-cases, ok, throw,
}
use so5extra.MsgHierarchy.Upcaster.{TypeIndex, UpcasterFactory}
use so5extra.MsgHierarchy.Controller.{Controller}
use so5extra.MsgHierarchy.Deliver.{
  Message, MessageRef, Ended, returned, thrown, SingleDestInfo, Sent, send_to,
  do_delivery_procedure_for_immutable_message, detect_receiver,
  detect_receiver_for_mutable_msg_or_throw, ensure_root, deliver_immutable, deliver_mutable,
  multi_do_deliver_message, single_do_deliver_message, do_deliver_message,
  rc_more_than_one_subscriber_for_mutable_msg,
}
use so5extra.MsgHierarchy.Deliver.Climb.{types, nearest, find_receiver-nearest}

module _ {C B : Type 0} ⦃o : Ord (TypeIndex C)⦄ where
  unfoldable pub cons_some :
      Option (SingleDestInfo C B) → List (SingleDestInfo C B) → List (SingleDestInfo C B)
  cons_some none rest = rest
  cons_some (some dest) rest = dest ∷ rest

  -- For each consumer that has an mbox for one of the types, the mbox of the first such type.
  unfoldable pub receivers :
      List (TypeIndex C) → List (ℕ × List (TypeIndex C × B)) → List (SingleDestInfo C B)
  unfolding cons_some
  receivers ts [] = []
  receivers ts ((id, consumer_map) ∷ rest) = cons_some (nearest ts consumer_map) (receivers ts rest)

module _ {S : Type 0} where
  -- The calls that are made when these are to be made in turn and an exception stops them.
  unfoldable pub until_thrown : (S → Result (Unit {0})) → List S → List S × Ended (Unit {0})
  until_thrown receive [] = ([], returned tt)
  until_thrown receive (s ∷ rest) =
      let (more, ended) = until_thrown receive rest in
      elim (receive s) [ ok _ ↦ (s ∷ more, ended) | throw e ↦ (s ∷ [], thrown e) ]

module _ {C B : Type 0} ⦃o : Ord (TypeIndex C)⦄ where
  procedure-receivers :
      {P : Type 0} (receive : Sent C B P → Result (Unit {0})) (m : Mutability)
      (factory : UpcasterFactory C) (d : Delivery (TypeIndex C) (MessageRef C P))
      (consumers : List (ℕ × List (TypeIndex C × B))) (sent : List (Sent C B P))
      → let (more, ended) =
          until_thrown receive (map (send_to d) (receivers (types m factory) consumers)) in
        do_delivery_procedure_for_immutable_message receive m factory d consumers sent
        ≡ (sent ++ more, ended)
  unfolding do_delivery_procedure_for_immutable_message receivers until_thrown
  procedure-receivers receive m factory d [] sent = rw append-nil
  procedure-receivers receive m factory d ((id, consumer_map) ∷ rest) sent =
      elim (Option-cases (nearest (types m factory) consumer_map)) [
        | inl e ↦ ground (
          arith,
          find_receiver-nearest m factory consumer_map,
          procedure-receivers receive m factory d rest sent,
        )
        | inr (dest, e) ↦ ground (
          arith,
          find_receiver-nearest m factory consumer_map,
          procedure-receivers receive m factory d rest (sent ++ send_to d dest ∷ []),
          append_assoc sent (send_to d dest ∷ [])
              (until_thrown receive (map (send_to d) (receivers (types m factory) rest))).0,
        )
      ]

  -- What becomes of a mutable message with these receivers.
  unfoldable pub the_only : List (SingleDestInfo C B) → Ended (Option (SingleDestInfo C B))
  the_only [] = returned none
  the_only (dest ∷ []) = returned (some dest)
  the_only (dest ∷ other ∷ rest) = thrown rc_more_than_one_subscriber_for_mutable_msg

  detect-receivers :
      (factory : UpcasterFactory C) (consumers : List (ℕ × List (TypeIndex C × B)))
      (result : Option (SingleDestInfo C B))
      → detect_receiver factory consumers result
        ≡ the_only (cons_some result (receivers (types mutable_message factory) consumers))
  unfolding detect_receiver receivers the_only cons_some
  detect-receivers factory [] none = refl
  detect-receivers factory [] (some dest) = refl
  detect-receivers factory ((id, consumer_map) ∷ rest) none =
      elim (Option-cases (nearest (types mutable_message factory) consumer_map)) [
        | inl e ↦ ground (
          arith,
          find_receiver-nearest mutable_message factory consumer_map,
          detect-receivers factory rest none,
        )
        | inr (dest, e) ↦ ground (
          arith,
          find_receiver-nearest mutable_message factory consumer_map,
          detect-receivers factory rest (some dest),
        )
      ]
  detect-receivers factory ((id, consumer_map) ∷ rest) (some dest) = ground (
    arith,
    find_receiver-nearest mutable_message factory consumer_map,
    detect-receivers factory rest (some dest),
  )

module _ {C B P : Type 0} (receive : Sent C B P → Result (Unit {0})) where
  -- What is sent of a mutable message with these receivers.
  unfoldable pub to_the_only :
      Delivery (TypeIndex C) (MessageRef C P)
      → List (SingleDestInfo C B)
      → List (Sent C B P) × Ended (Unit {0})
  unfolding until_thrown
  to_the_only d [] = ([], returned tt)
  to_the_only d (dest ∷ []) = until_thrown receive (send_to d dest ∷ [])
  to_the_only d (dest ∷ other ∷ rest) = ([], thrown rc_more_than_one_subscriber_for_mutable_msg)

  -- How a sequence of calls ends: without an exception, when all the mboxes that have been called have
  -- returned; or with the exception of the last one, when all the others have returned.
  abbrev pub Stops : List (Sent C B P) × Ended (Unit {0}) → Type 0
  Stops r =
      ((sent : List (Sent C B P)) × All (λ s. receive s ≡ ok tt) sent × (r ≡ (sent, returned tt)))
      ⊎ ((before : List (Sent C B P)) × (last : Sent C B P) × (e : Error) × All
            (λ s. receive s ≡ ok tt) before
          × (receive last ≡ throw e)
          × (r ≡ (before ++ last ∷ [], thrown e)))

  -- How a delivery ends: with an exception before any call, or with the calls.
  abbrev pub Ends : List (Sent C B P) × Ended (Unit {0}) → Type 0
  Ends r = ((e : Error) × (r ≡ ([], thrown e))) ⊎ Stops r

  until_thrown-ok :
      (s : Sent C B P) (l : List (Sent C B P))
      → receive s ≡ ok tt
      → let (more, ended) = until_thrown receive l in
        until_thrown receive (s ∷ l) ≡ (s ∷ more, ended)
  unfolding until_thrown
  until_thrown-ok s l h = ground (arith, h)

  until_thrown-throw :
      (s : Sent C B P) (l : List (Sent C B P)) (e : Error)
      → receive s ≡ throw e
      → until_thrown receive (s ∷ l) ≡ (s ∷ [], thrown e)
  unfolding until_thrown
  until_thrown-throw s l e h = ground (arith, h)

  until_thrown-Stops : (l : List (Sent C B P)) → Stops (until_thrown receive l)
  unfolding until_thrown
  until_thrown-Stops [] = inl ([], tt, refl)
  until_thrown-Stops (s ∷ l) = elim (Result-cases (receive s)) [
    | inr (e, h) ↦ inr ([], s, e, tt, h, until_thrown-throw s l e h)
    | inl (u, h) ↦
        let again : List (Sent C B P) × Ended (Unit {0}) → List (Sent C B P) × Ended (Unit {0}) =
          λ r. (s ∷ r.0, r.1) in
        elim (until_thrown-Stops l) [
          | inl (sent, all, same) ↦ inl (s ∷ sent, (h, all), until_thrown-ok s l h ∙ ap again same)
          | inr (before, last, e, all, stops, same) ↦
              inr (s ∷ before, last, e, (h, all), stops, until_thrown-ok s l h ∙ ap again same)
        ]
  ]

  to_the_only-Ends :
      (d : Delivery (TypeIndex C) (MessageRef C P)) (l : List (SingleDestInfo C B))
      → Ends (to_the_only d l)
  unfolding to_the_only until_thrown
  to_the_only-Ends d [] = inr (inl ([], tt, refl))
  to_the_only-Ends d (dest ∷ []) = inr (until_thrown-Stops (send_to d dest ∷ []))
  to_the_only-Ends d (dest ∷ other ∷ rest) = inl (_, refl)

module _ {C B P : Type 0} ⦃o : Ord (TypeIndex C)⦄ (receive : Sent C B P → Result (Unit {0})) where
  deliver-the_only :
      (d : Delivery (TypeIndex C) (MessageRef C P)) (l : List (SingleDestInfo C B))
      → deliver_mutable receive d (the_only (cons_some none l)) ≡ to_the_only receive d l
  unfolding deliver_mutable the_only cons_some to_the_only until_thrown
  deliver-the_only d [] = refl
  deliver-the_only d (dest ∷ []) = refl
  deliver-the_only d (dest ∷ other ∷ rest) = refl

module _ {C B P : Type 0} ⦃o : Ord (TypeIndex C)⦄ (message_mutability : MessageRef C P → Mutability)
    (receive : Sent C B P → Result (Unit {0})) where
  -- An immutable message whose class is in a hierarchy is delivered once for each consumer that has an
  -- mbox for one of the types of the message, to the mbox of the first such type from the most derived one
  -- to the root and under that type, one after the other until one of them throws; no other call is
  -- made.
  pub immutable-receivers :
      (d : Delivery (TypeIndex C) (MessageRef C P)) (c : Controller C B) (raw_msg : Message C P)
      (factory : UpcasterFactory C)
      → d.message ≡ some raw_msg
      → raw_msg.root ≡ some factory
      → message_mutability d.message ≡ immutable_message
      → do_deliver_message message_mutability receive d c
        ≡ until_thrown receive
            (map (send_to d) (receivers (types immutable_message factory) c.consumers_with_mboxes))
  unfolding do_deliver_message multi_do_deliver_message single_do_deliver_message
  immutable-receivers d c raw_msg factory hm hr hi =
      ground
        (arith, procedure-receivers receive immutable_message factory d c.consumers_with_mboxes [])

  -- Through a single-consumer demuxer a mutable message whose class is in a hierarchy is delivered
  -- to the one receiver there is, whose exception is passed on, is ignored if there is none, and if
  -- there are two or more `rc_more_than_one_subscriber_for_mutable_msg` is thrown and nobody receives
  -- it.
  pub mutable-receivers :
      (d : Delivery (TypeIndex C) (MessageRef C P)) (c : Controller C B) (raw_msg : Message C P)
      (factory : UpcasterFactory C)
      → c.mbox_type ≡ multi_producer_single_consumer
      → d.message ≡ some raw_msg
      → raw_msg.root ≡ some factory
      → message_mutability d.message ≡ mutable_message
      → do_deliver_message message_mutability receive d c
        ≡ to_the_only receive d (receivers (types mutable_message factory) c.consumers_with_mboxes)
  unfolding do_deliver_message single_do_deliver_message detect_receiver_for_mutable_msg_or_throw
  mutable-receivers d c raw_msg factory ht hm hr hi = ground (
    arith,
    detect-receivers factory c.consumers_with_mboxes none,
    deliver-the_only receive d (receivers (types mutable_message factory) c.consumers_with_mboxes),
  )

  immutable-Ends :
      (d : Delivery (TypeIndex C) (MessageRef C P)) (c : Controller C B)
      (factory : UpcasterFactory C)
      → Ends receive (deliver_immutable message_mutability receive d c factory)
  unfolding deliver_immutable
  immutable-Ends d c factory =
      subst (Ends receive)
        (sym (
          procedure-receivers receive (message_mutability d.message) factory d
            c.consumers_with_mboxes []))
        (inr (until_thrown-Stops receive _))

  mutable-Ends :
      (d : Delivery (TypeIndex C) (MessageRef C P)) (c : Controller C B)
      (factory : UpcasterFactory C)
      → Ends receive
          (deliver_mutable receive d (detect_receiver_for_mutable_msg_or_throw factory c))
  unfolding detect_receiver_for_mutable_msg_or_throw
  mutable-Ends d c factory = rw (detect-receivers factory c.consumers_with_mboxes none) (
      rw
        (deliver-the_only receive d
          (receivers (types mutable_message factory) c.consumers_with_mboxes))
        (to_the_only-Ends receive d _))

  ends :
      (t : MboxType) (m : Mutability) (r : Result (UpcasterFactory C))
      (d : Delivery (TypeIndex C) (MessageRef C P)) (c : Controller C B)
      → c.mbox_type ≡ t
      → message_mutability d.message ≡ m
      → ensure_root d.message ≡ r
      → Ends receive (do_deliver_message message_mutability receive d c)
  unfolding do_deliver_message multi_do_deliver_message single_do_deliver_message
  ends multi_producer_multi_consumer mutable_message r d c ht hm hr =
      rw (ht, hm, do_deliver_message, multi_do_deliver_message) (inl (_, refl))
  ends multi_producer_multi_consumer immutable_message (ok factory) d c ht hm hr =
      rw (ht, hm, hr, do_deliver_message, multi_do_deliver_message) (immutable-Ends d c factory)
  ends multi_producer_multi_consumer immutable_message (throw e) d c ht hm hr =
      rw (ht, hm, hr, do_deliver_message, multi_do_deliver_message) (inl (_, refl))
  ends multi_producer_single_consumer m (throw e) d c ht hm hr =
      rw (ht, hr, do_deliver_message, single_do_deliver_message) (inl (_, refl))
  ends multi_producer_single_consumer mutable_message (ok factory) d c ht hm hr =
      rw (ht, hr, hm, do_deliver_message, single_do_deliver_message) (mutable-Ends d c factory)
  ends multi_producer_single_consumer immutable_message (ok factory) d c ht hm hr =
      rw (ht, hr, hm, do_deliver_message, single_do_deliver_message) (immutable-Ends d c factory)

  -- A call of `do_deliver_message` always ends. If it ends with an exception, then either no mbox has
  -- received the message, or the exception is the one that the last mbox that received it has thrown,
  -- after all the mboxes before it returned. If it ends without an exception, then all the mboxes
  -- that received the message have returned.
  pub deliver-Ends :
      (d : Delivery (TypeIndex C) (MessageRef C P)) (c : Controller C B)
      → Ends receive (do_deliver_message message_mutability receive d c)
  deliver-Ends d c =
      ends c.mbox_type (message_mutability d.message) (ensure_root d.message) d c refl refl refl
