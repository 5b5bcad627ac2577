-- ===== src/MsgHierarchy/Deliver/History.antt =====
-- Who receives a message after any requests of the consumers.
use so5extra.Prelude.{
  ℕ, zero, suc, false, Option, none, some, List, [], ◌∷◌, Ord, nat_ord, if◌then◌else◌,
}
use so5extra.Std.Map
use so5extra.Std.Map.{IsAbove}
use so5extra.MsgHierarchy.Upcaster.{TypeIndex}
use so5extra.MsgHierarchy.Controller.{Controller}
use so5extra.MsgHierarchy.Controller.Requests.{Request, wants, leaves, mbox_of, asked}
use so5extra.MsgHierarchy.Deliver.{SingleDestInfo, Sent}

module _ {C : Type 0} ⦃o : Ord (TypeIndex C)⦄ where
  -- The first of the types that the consumer has asked for since it was destroyed last.
  unfoldable pub first_asked : ℕ → List (TypeIndex C) → List (Request C) → Option (TypeIndex C)
  unfolding asked
  first_asked q [] rs = none
  first_asked q (t ∷ ts) rs =
      let rest = first_asked q ts rs in if asked q t false rs then some t else rest

module _ {C B : Type 0} ⦃o : Ord (TypeIndex C)⦄ where
  -- The mbox of the consumer for a type, with the type.
  unfoldable pub with_mbox :
      ℕ → Controller C B → Option (TypeIndex C) → Option (Option B × TypeIndex C)
  with_mbox q c none = none
  with_mbox q c (some t) = some (mbox_of q t c, t)

  -- The mboxes of the consumers `lo`, ..., `lo + k - 1` that are told, in this order, each with the type
  -- under which it is told.
  unfoldable pub told :
      Controller C B → List (TypeIndex C) → List (Request C) → ℕ → ℕ → List (Option B × TypeIndex C)
  unfolding first_asked with_mbox
  told c ts rs lo zero = []
  told c ts rs lo (suc k) = elim (with_mbox lo c (first_asked lo ts rs)) [
    | none ↦ told c ts rs (suc lo) k
    | some m ↦ m ∷ told c ts rs (suc lo) k
  ]

abbrev entry_of : {C B : Type 0} → SingleDestInfo C B → Option B × TypeIndex C
entry_of dest = (some dest.dest_mbox, dest.subscription_type)

abbrev entry_of? : {C B : Type 0} → Option (SingleDestInfo C B) → Option (Option B × TypeIndex C)
entry_of? none = none
entry_of? (some dest) = some (entry_of dest)

abbrev consumer_of : {C : Type 0} → Request C → ℕ
consumer_of (wants id t) = id
consumer_of (leaves id) = id

-- The mbox that a message is sent to, and the type.
abbrev pub sent_to : {C B P : Type 0} → Sent C B P → Option B × TypeIndex C
sent_to s = (some s.dest, s.delivery.msg_type)
