-- ===== src/Mboxes/RoundRobin/Turns.antt =====
-- Messages go to the subscribers of their type in turn.
use mathlib.Core.List.{append_assoc, append-nil}
use so5extra.Prelude.{
  ℕ, ◌≡◌, refl, sym, ap, ◌∙◌, ◌⊎◌, inl, inr, none, some, List, [], ◌∷◌, ◌++◌, arith, Ord,
  Option-cases, length, All, if◌then◌else◌,
}
use so5extra.So5.{Delivery}
use so5extra.Std.Map
use so5extra.Mboxes.RoundRobin.{
  Mbox, Outcome, pushed, no_subscribers, switch_current_subscriber, do_deliver_message,
}
use so5extra.Mboxes.RoundRobin.Rotation.{turn_order, switch-turns}
use so5extra.Mboxes.RoundRobin.Invariant.{IsValid, deliver-IsValid}

module _ {T S : Type 0} ⦃ot : Ord T⦄ ⦃os : Ord S⦄ where
  -- The abstract view of a mbox: for each type, who gets the next messages, in order.
  unfoldable pub order_of : T → Mbox T S → List S
  order_of t b = elim (Map.find t b.subscribers) [ none ↦ [] | some c ↦ turn_order c ]

  module _ {M : Type 0} where
    abbrev pub push_to : ℕ → S → Delivery T M → Outcome T S M
    push_to id s d = pushed (record { sink = s; mbox_id = id; delivery = d })

    -- A message goes to the first sink in the order of its type, which moves to the end; the order
    -- of any other type stays. With nobody in the order the tracer is told, and nothing changes.
    pub deliver-refines :
        (d : Delivery T M) (b : Mbox T S)
        → IsValid b
        → ((order_of d.msg_type b ≡ []) × (do_deliver_message d b ≡ (b, no_subscribers)))
          ⊎ ((s : S) × (q : List S) × (order_of d.msg_type b ≡ s ∷ q)
              × ((do_deliver_message d b).1 ≡ push_to b.id s d)
              × ((t : T)
                  → order_of t (do_deliver_message d b).0
                    ≡ (if ot.eqb d.msg_type t then q ++ s ∷ [] else order_of t b)))
    unfolding do_deliver_message order_of
    deliver-refines d b v = elim (Option-cases (Map.find d.msg_type b.subscribers)) [
      | inl h ↦ inl (ground (arith, h), ground (arith, h))
      | inr (c, h) ↦
          let (s, q, at, before, after) = switch-turns c (v.good t c h).within in
          let find = λ (u : T). Map.find-modify t u switch_current_subscriber b.subscribers in
          inr (
            s,
            q,
            ground (arith, h, before),
            ground (arith, h, at),
            λ u. ground (arith, h, after, find u, ot.eqb_iff t u),
          )
    ]
      where
        open d use {msg_type as t}

    unfoldable pub deliver_all : List (Delivery T M) → Mbox T S → Mbox T S × List (Outcome T S M)
    deliver_all [] b = (b, [])
    deliver_all (d ∷ ds) b =
        let (b', o) = do_deliver_message d b in let (b'', os) = deliver_all ds b' in (b'', o ∷ os)

    unfoldable pub pushes : ℕ → List S → List (Delivery T M) → List (Outcome T S M)
    pushes id (s ∷ ss) (d ∷ ds) = push_to id s d ∷ pushes id ss ds
    pushes id _ _ = []

    id-deliver : (d : Delivery T M) (b : Mbox T S) → (do_deliver_message d b).0.id ≡ b.id
    unfolding do_deliver_message
    id-deliver d b = ground arith

    deliver_first :
        (d : Delivery T M) (b : Mbox T S) (s : S) (q : List S)
        → IsValid b
        → order_of d.msg_type b ≡ s ∷ q
        → ((do_deliver_message d b).1 ≡ push_to b.id s d)
          × (order_of d.msg_type (do_deliver_message d b).0 ≡ q ++ s ∷ [])
    deliver_first d b s q v e = elim (deliver-refines d b v) [
      | inl (nobody, _) ↦ ground (arith, nobody, e)
      | inr (s', q', e', out, after) ↦ (
        ground (arith, out, e, e'),
        ground (arith, after d.msg_type, e, e', ot.eqb_iff d.msg_type d.msg_type),
      )
    ]

    -- Of the sinks `xs ++ ys` in the order of a type, as many messages of this type as `xs` has sinks
    -- go to the sinks of `xs`, one to each and in order, and these sinks then stand behind `ys`. So
    -- with `ys` empty each subscriber gets one message and the order is the old one.
    pub deliver_all-turns :
        (t : T) (ds : List (Delivery T M)) (xs ys : List S) (b : Mbox T S)
        → IsValid b
        → All (λ d. d.msg_type ≡ t) ds
        → order_of t b ≡ xs ++ ys
        → length ds ≡ length xs
        → ((deliver_all ds b).1 ≡ pushes b.id xs ds) × (order_of t (deliver_all ds b).0 ≡ ys ++ xs)
    unfolding deliver_all pushes
    deliver_all-turns t [] [] ys b v a o n = (refl, o ∙ sym (append-nil ys))
    deliver_all-turns t [] (x ∷ xs) ys b v a o n = absurd (omega arith)
    deliver_all-turns t (d ∷ ds) [] ys b v a o n = absurd (omega arith)
    deliver_all-turns t (d ∷ ds) (x ∷ xs) ys b v a o n =
        let same = λ (b : Mbox T S). ap (λ u. order_of u b) a.0 in
        let (out, after) = deliver_first d b x (xs ++ ys) v (same b ∙ o) in
        let b' = (do_deliver_message d b).0 in
        let after' : order_of t b' ≡ xs ++ (ys ++ x ∷ []) =
          sym (same b') ∙ after ∙ append_assoc xs ys (x ∷ []) in
        let rest =
          deliver_all-turns t ds xs (ys ++ x ∷ []) b' (deliver-IsValid d b v) a.1 after'
            (omega arith) in
        (rw (out, rest.0, id-deliver d b), rest.1 ∙ append_assoc ys (x ∷ []) xs)
