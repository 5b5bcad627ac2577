-- ===== src/Mboxes/Composite/Routing.antt =====
-- Where the calls of a composite mbox go: to the mbox that was added first for the message type.
use so5extra.Prelude.{
  ℕ, ◌≡◌, refl, Bool, true, false, ◌&&◌, Option, none, some, List, [], ◌∷◌, arith, Ord,
  if◌then◌else◌, ◌∙◌, ap,
}
use so5extra.Std.Map
use so5extra.Std.SortedVector.{find_at, find_at-cons, lower_bound}
use so5extra.So5.{
  MboxType, multi_producer_multi_consumer, multi_producer_single_consumer, MboxRef, Mutability,
  immutable_message, mutable_message, Result, ok, throw, Delivery, Call,
  rc_mutable_msg_cannot_be_delivered_via_mpmc_mbox,
}
use so5extra.Mboxes.Composite.{
  rc_no_sink_for_message_type, TypeNotFoundReaction, redirect_to_if_not_found_case,
  throw_if_not_found_case, drop_if_not_found_case, Target, Mbox, MboxBuilder, builder,
  targets_to_vector, make, ensure_mutable_can_be_added, Outcome, passed_on, ignored,
  null_dereference, pass_on, add, try_find_target_for_msg_type, visit, visit_noexcept,
  subscribe_event_handler, unsubscribe_event_handler, set_delivery_filter, drop_delivery_filter,
  do_deliver_message, ensure_immutable_message,
}

-- A call of `add`, whose arguments stand for `Msg_Type`.
pub record Added (T : Type 0) : Type 0 where
  pub mutability : Mutability
  pub msg_type : T
  pub dest : MboxRef

-- A mutable message goes only from a single-consumer mbox to another one.
abbrev pub accepted : {T : Type 0} → MboxType → Added T → Bool
accepted mbox_type a = elim a.mutability [
  | immutable_message ↦ true
  | mutable_message ↦ elim mbox_type [
    | multi_producer_multi_consumer ↦ false
    | multi_producer_single_consumer ↦ elim a.dest.type [
      | multi_producer_multi_consumer ↦ false
      | multi_producer_single_consumer ↦ true
    ]
  ]
]

abbrev or_else : Option MboxRef → Option MboxRef → Option MboxRef
or_else (some dest) later = some dest
or_else none later = later

abbrev pub is_refused : MboxType → Mutability → Bool
is_refused multi_producer_multi_consumer mutable_message = true
is_refused multi_producer_multi_consumer immutable_message = false
is_refused multi_producer_single_consumer mutability = false

module _ {T : Type 0} ⦃ot : Ord T⦄ where
  -- The destination of the first accepted `add` for the message type.
  unfoldable pub first_added : MboxType → T → List (Added T) → Option MboxRef
  first_added mbox_type t [] = none
  first_added mbox_type t (a ∷ adds) =
      let later = first_added mbox_type t adds in
      if ot.eqb a.msg_type t && accepted mbox_type a then some a.dest else later

  -- An exception leaves the builder as it is.
  abbrev after : MboxBuilder T → Result (MboxBuilder T) → MboxBuilder T
  after b (ok b') = b'
  after b (throw e) = b

  unfoldable pub add_all : MboxBuilder T → List (Added T) → MboxBuilder T
  add_all b [] = b
  add_all b (a ∷ adds) = add_all (after b (add a.mutability a.msg_type a.dest b)) adds

  add-find :
      (b : MboxBuilder T) (a : Added T) (t : T)
      → Map.find t (after b (add a.mutability a.msg_type a.dest b)).targets
        ≡ or_else
            (Map.find t b.targets)
            (if ot.eqb a.msg_type t && accepted b.mbox_type a then some a.dest else none)
  unfolding add ensure_mutable_can_be_added
  add-find b a t =
      ground (arith, Map.find-emplace a.msg_type t a.dest b.targets, ot.eqb_iff a.msg_type t)

  add-keeps :
      (b : MboxBuilder T) (a : Added T)
      → ((after b (add a.mutability a.msg_type a.dest b)).mbox_type ≡ b.mbox_type)
        × ((after b (add a.mutability a.msg_type a.dest b)).unknown_type_reaction
            ≡ b.unknown_type_reaction)
  unfolding add ensure_mutable_can_be_added
  add-keeps b a = ground arith

  add_all-keeps :
      (b : MboxBuilder T) (adds : List (Added T))
      → ((add_all b adds).mbox_type ≡ b.mbox_type)
        × ((add_all b adds).unknown_type_reaction ≡ b.unknown_type_reaction)
  unfolding add_all
  add_all-keeps b [] = (refl, refl)
  add_all-keeps b (a ∷ adds) =
      let b' = after b (add a.mutability a.msg_type a.dest b) in
      let (type, reaction) = add_all-keeps b' adds in
      (type ∙ (add-keeps b a).0, reaction ∙ (add-keeps b a).1)

  add_all-find :
      (b : MboxBuilder T) (adds : List (Added T)) (t : T)
      → Map.find t (add_all b adds).targets
        ≡ or_else (Map.find t b.targets) (first_added b.mbox_type t adds)
  unfolding add_all first_added
  add_all-find b [] t = ground arith
  add_all-find b (a ∷ adds) t =
      let b' = after b (add a.mutability a.msg_type a.dest b) in
      ground (arith, add_all-find b' adds t, add-find b a t, (add-keeps b a).0)

  abbrev target_of : T → Option MboxRef → Option (Target T)
  target_of t none = none
  target_of t (some dest) = some (record { msg_type = t; dest = dest })

  vector-find :
      (t : T) (m : List (T × MboxRef))
      → find_at (λ target. target.msg_type) t (targets_to_vector m) ≡ target_of t (Map.find t m)
  unfolding targets_to_vector Map.find find_at lower_bound
  vector-find t [] = ground arith
  vector-find t ((u, dest) ∷ m) = ground (
    arith,
    find_at-cons (λ target. target.msg_type) t (record { msg_type = u; dest = dest })
        (targets_to_vector m),
    vector-find t m,
    ot.eqb_iff u t,
    ot.lt_total u t,
    ot.lt_irrefl u,
  )

  -- The mbox that a builder makes after the calls `adds` of `add`.
  abbrev pub made : ℕ → MboxType → TypeNotFoundReaction → List (Added T) → Mbox T
  made id mbox_type reaction adds = (make id (add_all (builder mbox_type reaction) adds)).0

  made-find :
      (id : ℕ) (mbox_type : MboxType) (reaction : TypeNotFoundReaction) (adds : List (Added T))
      (t : T)
      → try_find_target_for_msg_type t (made id mbox_type reaction adds)
        ≡ target_of t (first_added mbox_type t adds)
  unfolding make try_find_target_for_msg_type builder Map.find
  made-find id mbox_type reaction adds t =
      vector-find t (add_all (builder mbox_type reaction) adds).targets
      ∙ ap (target_of t) (add_all-find (builder mbox_type reaction) adds t)

  made-keeps :
      (id : ℕ) (mbox_type : MboxType) (reaction : TypeNotFoundReaction) (adds : List (Added T))
      → ((made id mbox_type reaction adds).mbox_type ≡ mbox_type)
        × ((made id mbox_type reaction adds).unknown_type_reaction ≡ reaction)
  unfolding make builder
  made-keeps id mbox_type reaction adds = add_all-keeps (builder mbox_type reaction) adds

module _ {T S F M : Type 0} ⦃ot : Ord T⦄ where
  -- Where a call goes that has the destination, if any, of its type.
  abbrev pub routed :
      Call T S F M → Option MboxRef → TypeNotFoundReaction → Result (Outcome T S F M)
  routed call (some dest) reaction = ok (passed_on dest call)
  routed call none (redirect_to_if_not_found_case (some dest)) = ok (passed_on dest call)
  routed call none (redirect_to_if_not_found_case none) = ok null_dereference
  routed call none throw_if_not_found_case = throw rc_no_sink_for_message_type
  routed call none drop_if_not_found_case = ok ignored

  -- A method that does not throw ignores the call instead.
  abbrev pub or_ignored : Result (Outcome T S F M) → Outcome T S F M
  or_ignored (ok outcome) = outcome
  or_ignored (throw e) = ignored

  -- Every mbox that a builder makes passes a call on to the mbox of the first accepted `add` for the
  -- message type, whatever the order of the types; the calls for the other types go as the reaction
  -- says, and those of the methods that may not throw are ignored where the others throw.
  pub made-routed :
      (id : ℕ) (mbox_type : MboxType) (reaction : TypeNotFoundReaction) (adds : List (Added T))
      (t : T) (s : S) (f : F)
      → let b = made id mbox_type reaction adds in
        let dest = first_added mbox_type t adds in
        (subscribe_event_handler {F = F} {M = M} t s b
          ≡ routed (Call.subscribe_event_handler t s) dest reaction)
        × (unsubscribe_event_handler {F = F} {M = M} t s b
            ≡ or_ignored (routed (Call.unsubscribe_event_handler t s) dest reaction))
        × (set_delivery_filter {M = M} t f s b
            ≡ routed (Call.set_delivery_filter t f s) dest reaction)
        × (drop_delivery_filter {F = F} {M = M} t s b
            ≡ or_ignored (routed (Call.drop_delivery_filter t s) dest reaction))
  unfolding subscribe_event_handler unsubscribe_event_handler set_delivery_filter
      drop_delivery_filter visit visit_noexcept pass_on
  made-routed id mbox_type reaction adds t s f =
      let found = made-find id mbox_type reaction adds t in
      let kept = (made-keeps id mbox_type reaction adds).1 in
      (
        ground (arith, found, kept),
        ground (arith, found, kept),
        ground (arith, found, kept),
        ground (arith, found, kept),
      )

  -- A message goes the same way, unless it is mutable and the mbox is a multi-consumer one.
  pub deliver-routed :
      (id : ℕ) (mbox_type : MboxType) (reaction : TypeNotFoundReaction) (adds : List (Added T))
      (message_mutability : M → Mutability) (d : Delivery T M)
      → do_deliver_message {S = S} {F = F} message_mutability d (made id mbox_type reaction adds)
        ≡ (if is_refused mbox_type (message_mutability d.message)
            then throw rc_mutable_msg_cannot_be_delivered_via_mpmc_mbox
            else routed
                (Call.do_deliver_message d)
                (first_added mbox_type d.msg_type adds)
                reaction)
  unfolding do_deliver_message ensure_immutable_message visit pass_on
  deliver-routed id mbox_type reaction adds message_mutability d =
      let found = made-find id mbox_type reaction adds d.msg_type in
      let (type, kept) = made-keeps id mbox_type reaction adds in ground (arith, found, kept, type)
