-- ===== src/Mboxes/RoundRobin/Invariant.antt =====
-- What holds of a round-robin mbox after any history of calls.
use so5extra.Prelude.{
  ℕ, ◌≡◌, ◌≢◌, inl, inr, false, some, List, [], ◌∷◌, arith, Ord, Bool-cases, Option-cases,
}
use so5extra.So5.{Delivery}
use so5extra.Std.Map
use so5extra.Std.Map.{IsSorted}
use so5extra.Std.Map.Every.{Every, emplace-Every, modify-Every, erase-modify-Every}
use so5extra.Mboxes.RoundRobin.{
  Container, Mbox, undefined, empty, erase_if_found, subscribe_event_handler,
  unsubscribe_event_handler, do_deliver_message,
}
use so5extra.Mboxes.RoundRobin.Rotation.{switch-turns}
use so5extra.Mboxes.RoundRobin.Subscribers.{
  IsGood, fresh-IsGood, add_if_new-IsGood, erase_if_found-IsGood, switch-IsGood,
}

pub data Call (T S M : Type 0) : Type 0 where
  subscribes unsubscribes : T → S → Call T S M
  delivers : Delivery T M → Call T S M

module _ {T S : Type 0} ⦃ot : Ord T⦄ ⦃os : Ord S⦄ where
  pub record IsValid (b : Mbox T S) : Type 0 where
    pub sorted : IsSorted b.subscribers
    pub good : Every (IsGood {S = S}) b.subscribers

  pub subscribe-IsValid :
      (t : T) (s : S) (b : Mbox T S) → IsValid b → IsValid (subscribe_event_handler t s b)
  unfolding subscribe_event_handler
  subscribe-IsValid t s b v = elim (Option-cases (Map.find t b.subscribers)) [
    | inl h ↦
        rw (h, subscribe_event_handler)
          (record {
            sorted = Map.emplace-IsSorted t _ b.subscribers v.sorted;
            good = emplace-Every IsGood t _ b.subscribers v.good (fresh-IsGood s);
          })
    | inr (c, h) ↦
        rw (h, subscribe_event_handler)
          (record {
            sorted = Map.modify-IsSorted t _ b.subscribers v.sorted;
            good =
                modify-Every IsGood t _ b.subscribers v.good
                  (λ w e. add_if_new-IsGood s w (v.good t w e));
          })
  ]

  kept-IsGood :
      (t : T) (s : S) (b : Mbox T S) (c w : Container S)
      → IsValid b
      → Map.find t b.subscribers ≡ some c
      → empty (erase_if_found s c) ≡ false
      → Map.find t b.subscribers ≡ some w
      → IsGood (erase_if_found s w)
  kept-IsGood t s b c w v h e g = erase_if_found-IsGood s w (v.good t w g) (ground (arith, h, g, e))

  pub unsubscribe-IsValid :
      (t : T) (s : S) (b : Mbox T S) → IsValid b → IsValid (unsubscribe_event_handler t s b)
  unfolding unsubscribe_event_handler
  unsubscribe-IsValid t s b v = elim (Option-cases (Map.find t b.subscribers)) [
    | inl h ↦ rw (h, unsubscribe_event_handler) v
    | inr (c, h) ↦
        let sorted = Map.modify-IsSorted t (erase_if_found s) b.subscribers v.sorted in
        elim (Bool-cases (empty (erase_if_found s c))) [
          | inl e ↦
              rw (h, unsubscribe_event_handler, e)
                (record {
                  sorted = Map.erase-IsSorted t _ sorted;
                  good = erase-modify-Every IsGood t _ b.subscribers v.sorted v.good;
                })
          | inr e ↦
              rw (h, unsubscribe_event_handler, e)
                (record {
                  sorted = sorted;
                  good =
                      modify-Every IsGood t _ b.subscribers v.good
                        (λ w g. kept-IsGood t s b c w v h e g);
                })
        ]
  ]

  module _ {M : Type 0} where
    pub deliver-IsValid :
        (d : Delivery T M) (b : Mbox T S) → IsValid b → IsValid (do_deliver_message d b).0
    unfolding do_deliver_message
    deliver-IsValid d b v = elim (Option-cases (Map.find d.msg_type b.subscribers)) [
      | inl h ↦ rw (h, do_deliver_message) v
      | inr (c, h) ↦
          rw (h, do_deliver_message)
            (record {
              sorted = Map.modify-IsSorted d.msg_type _ b.subscribers v.sorted;
              good =
                  modify-Every IsGood d.msg_type _ b.subscribers v.good
                    (λ w e. switch-IsGood w (v.good d.msg_type w e));
            })
    ]

    unfoldable pub step : Mbox T S → Call T S M → Mbox T S
    step b (subscribes t s) = subscribe_event_handler t s b
    step b (unsubscribes t s) = unsubscribe_event_handler t s b
    step b (delivers d) = (do_deliver_message d b).0

    unfoldable pub run : Mbox T S → List (Call T S M) → Mbox T S
    unfolding step
    run b [] = b
    run b (c ∷ cs) = run (step b c) cs

    pub step-IsValid : (b : Mbox T S) (c : Call T S M) → IsValid b → IsValid (step b c)
    unfolding step
    step-IsValid b (subscribes t s) v = subscribe-IsValid t s b v
    step-IsValid b (unsubscribes t s) v = unsubscribe-IsValid t s b v
    step-IsValid b (delivers d) v = deliver-IsValid d b v

    run-IsValid : (b : Mbox T S) (cs : List (Call T S M)) → IsValid b → IsValid (run b cs)
    unfolding run
    run-IsValid b [] v = v
    run-IsValid b (c ∷ cs) v = run-IsValid (step b c) cs (step-IsValid b c v)

  abbrev pub new_mbox : ℕ → Mbox T S
  new_mbox id = record { id = id; subscribers = [] }

  new_mbox-IsValid : (id : ℕ) → IsValid (new_mbox id)
  unfolding Map.find
  new_mbox-IsValid id = record { sorted = tt; good = λ k v h. cc }

  module _ {M : Type 0} where
    -- After any history of calls on a new mbox the table is sorted by the type, no type has an
    -- empty container, no sink stands twice for a type, and each index is in range.
    pub run-new_mbox-IsValid : (id : ℕ) (cs : List (Call T S M)) → IsValid (run (new_mbox id) cs)
    run-new_mbox-IsValid id cs = run-IsValid _ cs (new_mbox-IsValid id)

    -- A delivery to a mbox in a valid state never reads past the end of the vector of subscribers.
    pub deliver_defined :
        (d : Delivery T M) (b : Mbox T S) → IsValid b → (do_deliver_message d b).1 ≢ undefined
    unfolding do_deliver_message
    deliver_defined d b v e = elim (Option-cases (Map.find d.msg_type b.subscribers)) [
      | inl h ↦ ground (arith, h)
      | inr (c, h) ↦
          let (x, q, at, _, _) = switch-turns c (v.good d.msg_type c h).within in
          ground (arith, h, at)
    ]
