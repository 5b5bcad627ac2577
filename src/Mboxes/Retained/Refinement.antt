-- ===== src/Mboxes/Retained/Refinement.antt =====
-- Each call does to the table what it does to the cell of its type and sink.
use so5extra.Prelude.{
  ◌≡◌, refl, ◌&&◌, Option, some, List, [], ◌∷◌, arith, Ord, inl, inr, Option-cases, Bool-cases,
  if◌then◌else◌, sym, subst, ◌∙◌, ap,
}
use so5extra.Std.Map
use so5extra.Std.Map.{IsSorted}
use so5extra.So5.{Mutability, immutable_message, mutable_message, Delivery}
use so5extra.So5.Subscription.{SubscriptionInfo}
use so5extra.Mboxes.Retained.{
  MessagesTableItem, Mbox, table_item, insert_or_modify, insert_or_modify_subscriber,
  modify_and_remove_subscriber_if_needed, subscribe_event_handler, unsubscribe_event_handler,
  set_delivery_filter, drop_delivery_filter, do_deliver_message, do_deliver_message_impl,
  ensure_immutable_message,
}
use so5extra.Mboxes.Retained.History.{
  Call, subscribes, unsubscribes, sets_filter, drops_filter, delivers, after, step, run, created_or,
  unless_empty, block_after, block_in, message_after, last_message, block_of, retained_of,
  AllSorted,
}
use so5extra.Mboxes.Retained.Cells.{
  table_item-set, insert-find, insert-IsSorted, removed_from, removed-find, removed-IsSorted,
  removed-retained,
}

module _ {T S I F M : Type 0} ⦃ot : Ord T⦄ ⦃os : Ord S⦄ (o : SubscriptionInfo I S F M)
    (message_mutability : M → Mutability) where
  insert-item :
      (t q : T) (s : S) (maker : I) (changer : I → I) (b : Mbox T S I M)
      → table_item q (insert_or_modify_subscriber o t s maker changer b).0.messages_table ≡ (
          if ot.eqb t q
          then record (table_item t b.messages_table) {
            subscribers =
                (insert_or_modify s maker changer (table_item t b.messages_table).subscribers).0;
          }
          else table_item q b.messages_table)
  unfolding insert_or_modify_subscriber
  insert-item t q s maker changer b = table_item-set t q _ b.messages_table

  remove-item :
      (t q : T) (s : S) (changer : I → I) (b : Mbox T S I M)
      → table_item q (modify_and_remove_subscriber_if_needed o t s changer b).messages_table ≡ (
          if ot.eqb t q
          then removed_from o.empty s changer (table_item t b.messages_table)
          else table_item q b.messages_table)
  unfolding modify_and_remove_subscriber_if_needed table_item removed_from Map.find
  remove-item t q s changer b = elim (Option-cases (Map.find t b.messages_table)) [
    | inl h ↦ ground (arith, h, ot.eqb_iff t q)
    | inr (item, h) ↦ elim (Option-cases (Map.find s item.subscribers)) [
      | inl g ↦ ground (arith, h, g, ot.eqb_iff t q)
      | inr (w, g) ↦ ground (
        arith,
        h,
        g,
        ot.eqb_iff t q,
        Map.find-modify t q
            (λ _. record item {
              subscribers =
                  if o.empty (changer w)
                  then Map.erase s (Map.modify s changer item.subscribers)
                  else Map.modify s changer item.subscribers;
            })
            b.messages_table,
      )
    ]
  ]

  deliver-item :
      (q : T) (d : Delivery T M) (b : Mbox T S I M)
      → table_item q (do_deliver_message_impl o d b).0.messages_table ≡ (
          if ot.eqb d.msg_type q
          then record (table_item d.msg_type b.messages_table) { retained_msg = some d.message }
          else table_item q b.messages_table)
  unfolding do_deliver_message_impl
  deliver-item q d b = table_item-set d.msg_type q _ b.messages_table

  -- What is to be shown of the items of the type `q` before and after the call `c`.
  abbrev Cell : Call T S F M → T → MessagesTableItem S I M → MessagesTableItem S I M → Type 0
  Cell c q before later =
      IsSorted later.subscribers
      × ((r : S)
          → Map.find r later.subscribers
            ≡ block_after o message_mutability q r (Map.find r before.subscribers) c)
      × (later.retained_msg ≡ message_after o message_mutability q before.retained_msg c)

  insert-Cell :
      (c : Call T S F M) (t q : T) (s : S) (maker : I) (changer : I → I) (b : Mbox T S I M)
      → IsSorted (table_item q b.messages_table).subscribers
      → ((r : S) (i : Option I)
          → block_after o message_mutability q r i c
            ≡ (if ot.eqb t q && os.eqb s r then created_or maker changer i else i))
      → ((m : Option M) → message_after o message_mutability q m c ≡ m)
      → Cell c q
          (table_item q b.messages_table)
          (table_item q (insert_or_modify_subscriber o t s maker changer b).0.messages_table)
  insert-Cell c t q s maker changer b v block last =
      let item = table_item q b.messages_table in
      elim (Bool-cases (ot.eqb t q)) [
        | inl same ↦
            rw (insert-item t q s maker changer b, same, (ot.eqb_iff t q).0 same)
              (
                insert-IsSorted s maker changer item.subscribers v,
                (λ r. ground (
                  arith,
                  insert-find s r maker changer item.subscribers,
                  block r (Map.find r item.subscribers),
                  same,
                )),
                sym (last _),
              )
        | inr other ↦
            rw (insert-item t q s maker changer b, other)
              (v, (λ r. ground (arith, block r (Map.find r item.subscribers), other)), sym (last _))
      ]

  remove-Cell :
      (c : Call T S F M) (t q : T) (s : S) (changer : I → I) (b : Mbox T S I M)
      → IsSorted (table_item q b.messages_table).subscribers
      → ((r : S) (i : Option I)
          → block_after o message_mutability q r i c
            ≡ (if ot.eqb t q && os.eqb s r then unless_empty o.empty changer i else i))
      → ((m : Option M) → message_after o message_mutability q m c ≡ m)
      → Cell c q
          (table_item q b.messages_table)
          (table_item q (modify_and_remove_subscriber_if_needed o t s changer b).messages_table)
  remove-Cell c t q s changer b v block last =
      let item = table_item q b.messages_table in
      elim (Bool-cases (ot.eqb t q)) [
        | inl same ↦
            rw (remove-item t q s changer b, same, (ot.eqb_iff t q).0 same)
              (
                removed-IsSorted o.empty s changer item v,
                (λ r. ground (
                  arith,
                  removed-find o.empty s r changer item v,
                  block r (Map.find r item.subscribers),
                  same,
                )),
                removed-retained o.empty s changer item ∙ sym (last _),
              )
        | inr other ↦
            rw (remove-item t q s changer b, other)
              (v, (λ r. ground (arith, block r (Map.find r item.subscribers), other)), sym (last _))
      ]

  kept-Cell :
      (d : Delivery T M) (q : T) (b : Mbox T S I M)
      → message_mutability d.message ≡ immutable_message
      → IsSorted (table_item q b.messages_table).subscribers
      → Cell
          (delivers d)
          q
          (table_item q b.messages_table)
          (table_item q (do_deliver_message_impl o d b).0.messages_table)
  unfolding block_after message_after
  kept-Cell d q b m v = elim (Bool-cases (ot.eqb d.msg_type q)) [
    | inl same ↦
        rw (deliver-item q d b, same, (ot.eqb_iff d.msg_type q).0 same, m) (v, (λ r. refl), refl)
    | inr other ↦ rw (deliver-item q d b, other) (v, (λ r. refl), refl)
  ]

  deliver_immutable :
      (d : Delivery T M) (b : Mbox T S I M)
      → message_mutability d.message ≡ immutable_message
      → after b (do_deliver_message o message_mutability d b) ≡ (do_deliver_message_impl o d b).0
  unfolding do_deliver_message ensure_immutable_message
  deliver_immutable d b m = ground (arith, m)

  deliver_mutable :
      (d : Delivery T M) (b : Mbox T S I M)
      → message_mutability d.message ≡ mutable_message
      → after b (do_deliver_message o message_mutability d b) ≡ b
  unfolding do_deliver_message ensure_immutable_message
  deliver_mutable d b m = ground (arith, m)

  deliver-Cell :
      (d : Delivery T M) (q : T) (b : Mbox T S I M) (kind : Mutability)
      → message_mutability d.message ≡ kind
      → IsSorted (table_item q b.messages_table).subscribers
      → Cell
          (delivers d)
          q
          (table_item q b.messages_table)
          (table_item q (after b (do_deliver_message o message_mutability d b)).messages_table)
  unfolding block_after message_after
  deliver-Cell d q b immutable_message m v =
      subst
        (λ x. Cell (delivers d) q (table_item q b.messages_table) (table_item q x.messages_table))
        (sym (deliver_immutable d b m)) (kept-Cell d q b m v)
  deliver-Cell d q b mutable_message m v =
      subst
        (λ x. Cell (delivers d) q (table_item q b.messages_table) (table_item q x.messages_table))
        (sym (deliver_mutable d b m)) (v, (λ r. refl), ground (arith, m))

  step-Cell :
      (c : Call T S F M) (q : T) (b : Mbox T S I M)
      → IsSorted (table_item q b.messages_table).subscribers
      → Cell c q
          (table_item q b.messages_table)
          (table_item q (step o message_mutability b c).messages_table)
  unfolding step subscribe_event_handler unsubscribe_event_handler set_delivery_filter
      drop_delivery_filter block_after message_after
  step-Cell (subscribes t s) q b v =
      insert-Cell (subscribes t s) t q s o.subscription_present o.subscription_defined b v
        (λ r i. refl) (λ m. refl)
  step-Cell (unsubscribes t s) q b v =
      remove-Cell (unsubscribes t s) t q s o.subscription_dropped b v (λ r i. refl) (λ m. refl)
  step-Cell (drops_filter t s) q b v =
      remove-Cell (drops_filter t s) t q s o.drop_filter b v (λ r i. refl) (λ m. refl)
  step-Cell (sets_filter t f s) q b v =
      insert-Cell (sets_filter t f s) t q s (o.of_filter f) (o.set_filter f) b v (λ r i. refl)
        (λ m. refl)
  step-Cell (delivers d) q b v = deliver-Cell d q b (message_mutability d.message) refl v

  -- What a history makes of the mbox: every set of subscribers is sorted, and the searches find what
  -- the history says.
  pub run-lookup :
      (cs : List (Call T S F M)) (b : Mbox T S I M)
      → AllSorted b
      → AllSorted (run o message_mutability b cs)
        × ((t : T) (s : S)
            → block_of t s (run o message_mutability b cs)
              ≡ block_in o message_mutability t s (block_of t s b) cs)
        × ((t : T)
            → retained_of t (run o message_mutability b cs)
              ≡ last_message o message_mutability t (retained_of t b) cs)
  unfolding run block_in last_message block_of retained_of
  run-lookup [] b v = (v, (λ t s. refl), (λ t. refl))
  run-lookup (c ∷ cs) b v =
      let (sorted, blocks, last) =
        run-lookup cs (step o message_mutability b c) (λ t. (step-Cell c t b (v t)).0) in
      (
        sorted,
        (λ t s.
            blocks t s
            ∙ ap (λ i. block_in o message_mutability t s i cs) ((step-Cell c t b (v t)).1 s)),
        (λ t.
            last t ∙ ap (λ m. last_message o message_mutability t m cs) (step-Cell c t b (v t)).2),
      )
