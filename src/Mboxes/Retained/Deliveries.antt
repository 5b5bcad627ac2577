-- ===== src/Mboxes/Retained/Deliveries.antt =====
-- Which sinks get a message that is sent to a retained_msg mbox, and how often.
use so5extra.Prelude.{
  ℕ, ◌≡◌, refl, true, false, Option, none, some, List, [], ◌∷◌, arith, Ord, inl, inr, Bool-cases,
  if◌then◌else◌, subst, ◌∙◌, ap₂,
}
use so5extra.Std.Map
use so5extra.Std.Map.{IsSorted}
use so5extra.So5.{
  Mutability, immutable_message, ok, throw, Delivery, Reaction, pushed, message_rejected,
}
use so5extra.So5.Subscription.{SubscriptionInfo}
use so5extra.Mboxes.Retained.{
  new_mbox, table_item, do_deliver_message_to_subscriber, do_deliver_message,
  do_deliver_message_impl, ensure_immutable_message, deliver_to_all,
}
use so5extra.Mboxes.Retained.History.{Call, run, block_in, block_of}
use so5extra.Mboxes.Retained.Refinement.{run-lookup}
use so5extra.Mboxes.Retained.Late.{run-id}

module _ {T S M : Type 0} ⦃os : Ord S⦄ where
  abbrev pub sink_of : Reaction T S M → S
  sink_of (pushed p) = p.sink
  sink_of (message_rejected s) = s

  -- The reactions for the sink `s` among those of a delivery.
  unfoldable pub reactions_to : S → List (Reaction T S M) → List (Reaction T S M)
  reactions_to s [] = []
  reactions_to s (r ∷ rs) =
      let rest = reactions_to s rs in if os.eqb (sink_of r) s then r ∷ rest else rest

module _ {S : Type 0} ⦃os : Ord S⦄ where
  eqb_false : (r s : S) → os.lt s r ≡ true → os.eqb r s ≡ false
  eqb_false r s a = ground (arith, os.eqb_iff r s, os.lt_irrefl r)

module _ {T S I F M : Type 0} ⦃ot : Ord T⦄ ⦃os : Ord S⦄ (o : SubscriptionInfo I S F M)
    (message_mutability : M → Mutability) where
  -- What a sink with the given block gets of a delivery.
  abbrev pub to_one : ℕ → Delivery T M → S → Option I → List (Reaction T S M)
  to_one id d s none = []
  to_one id d s (some info) =
      (if o.must_be_delivered info s d.message
        then pushed (record { sink = s; mbox_id = id; delivery = d })
        else message_rejected s)
      ∷ []

  react-sink :
      (id : ℕ) (d : Delivery T M) (s : S) (info : I)
      → sink_of (do_deliver_message_to_subscriber o id d s info) ≡ s
  unfolding do_deliver_message_to_subscriber
  react-sink id d s info = ground arith

  above-none :
      (id : ℕ) (d : Delivery T M) (s : S) (m : List (S × I))
      → Map.IsAbove s m
      → IsSorted m
      → reactions_to s (deliver_to_all o id d m) ≡ []
  unfolding deliver_to_all reactions_to
  above-none id d s [] a v = refl
  above-none id d s ((r, info) ∷ m) a v =
      rw (react-sink id d r info, eqb_false r s a)
        (above-none id d s m (Map.IsAbove-mono s r m a v.0) v.1)

  all-reactions :
      (id : ℕ) (d : Delivery T M) (s : S) (m : List (S × I))
      → IsSorted m
      → reactions_to s (deliver_to_all o id d m) ≡ to_one id d s (Map.find s m)
  unfolding deliver_to_all reactions_to Map.find do_deliver_message_to_subscriber
  all-reactions id d s [] v = refl
  all-reactions id d s ((r, info) ∷ m) v = elim (Bool-cases (os.lt r s)) [
    | inl below ↦ ground (
      arith,
      below,
      react-sink id d r info,
      os.eqb_iff r s,
      os.lt_irrefl r,
      all-reactions id d s m v.1,
    )
    | inr not_below ↦ elim (Bool-cases (os.lt s r)) [
      | inl above ↦
          rw (not_below, above, react-sink id d r info, eqb_false r s above)
            (above-none id d s m (Map.IsAbove-mono s r m above v.0) v.1)
      | inr not_above ↦
          let r=s = os.lt_total r s not_below not_above in
          ground (
            arith,
            not_below,
            not_above,
            react-sink id d r info,
            os.eqb_iff r s,
            above-none id d s m (subst (λ x. Map.IsAbove x m) r=s v.0) v.1,
          )
    ]
  ]

  -- A sink gets at most one copy of an immutable message that is sent after a history of a new mbox:
  -- it gets one if the calls for it leave it a block that lets the message through; the message is
  -- rejected if the block does not, and passes by a sink with no block.
  pub deliver_exactly :
      (id : ℕ) (cs : List (Call T S F M)) (d : Delivery T M) (s : S)
      → message_mutability d.message ≡ immutable_message
      → (elim (do_deliver_message o message_mutability d
          (run o message_mutability (new_mbox id) cs)) [ ok r ↦ reactions_to s r.1 | throw e ↦ [] ])
        ≡ to_one id d s (block_in o message_mutability d.msg_type s none cs)
  unfolding do_deliver_message ensure_immutable_message do_deliver_message_impl block_of new_mbox
      table_item Map.find
  deliver_exactly id cs d s m =
      let b = run o message_mutability (new_mbox id) cs in
      let (sorted, blocks, last) = run-lookup o message_mutability cs (new_mbox id) (λ q. tt) in
      rw m (
        all-reactions b.id d s (table_item d.msg_type b.messages_table).subscribers
          (sorted d.msg_type)
        ∙ ap₂ (λ i block. to_one i d s block) (run-id o message_mutability (new_mbox id) cs)
            (blocks d.msg_type s))
