-- ===== src/MsgHierarchy/Upcaster/Lineage.antt =====
-- The types that a message is delivered by, as the mixins of its class give them.
use so5extra.Prelude.{
  suc, ◌+◌, ◌≤◌, ◌≡◌, refl, ap, List, [], ◌∷◌, arith, leb, length, if◌then◌else◌,
}
use so5extra.MsgHierarchy.Upcaster.{
  UpcasterFactory, so_make_upcaster_root, so_make_upcaster, MsgClass, root_message, node_message,
  plain_message, root_class, has_so_make_upcaster_method, base_upcaster, lookup_so_make_upcaster,
  so_message_upcaster_factory,
}

module _ {C : Type 0} where
  -- The classes whose types a chain of upcasters visits.
  unfoldable pub lineage : UpcasterFactory C → List C
  lineage (so_make_upcaster_root c) = c ∷ []
  lineage (so_make_upcaster c upcaster) = c ∷ lineage upcaster

  -- The classes with a mixin, from the class itself to the root.
  unfoldable pub ancestors : MsgClass C → List C
  ancestors (root_message c) = c ∷ []
  ancestors (node_message c base) = c ∷ ancestors base
  ancestors (plain_message c base) = ancestors base

  -- The nearest class with a mixin.
  unfoldable pub nearest_node : MsgClass C → C
  nearest_node (root_message c) = c
  nearest_node (node_message c base) = c
  nearest_node (plain_message c base) = nearest_node base

  length-lookup : (b : MsgClass C) → length (lookup_so_make_upcaster b) + 1 ≡ length (ancestors b)
  unfolding lookup_so_make_upcaster ancestors
  length-lookup (root_message c) = omega arith
  length-lookup (node_message c base) = omega (arith, length-lookup base)
  length-lookup (plain_message c base) = length-lookup base

  lookup_single :
      (b : MsgClass C) (f : UpcasterFactory C)
      → lookup_so_make_upcaster b ≡ f ∷ []
      → so_message_upcaster_factory b ≡ f
  unfolding lookup_so_make_upcaster so_message_upcaster_factory
  lookup_single (root_message c) f h = cc
  lookup_single (node_message c base) f h = cc
  lookup_single (plain_message c base) f h = lookup_single base f h

  ancestors_pos : (b : MsgClass C) → 1 ≤ length (ancestors b)
  unfolding ancestors
  ancestors_pos (root_message c) = omega arith
  ancestors_pos (node_message c base) = omega arith
  ancestors_pos (plain_message c base) = ancestors_pos base

  ancestors_single : (b : MsgClass C) → length (ancestors b) ≡ 1 → ancestors b ≡ root_class b ∷ []
  unfolding ancestors root_class
  ancestors_single (root_message c) h = refl
  ancestors_single (node_message c base) h = absurd (omega (arith, ancestors_pos base))
  ancestors_single (plain_message c base) h = ancestors_single base h

  -- The chain from the base class, by what the lookup finds there.
  base-lineage :
      (b : MsgClass C) (l : List (UpcasterFactory C))
      → lookup_so_make_upcaster b ≡ l
      → lineage (so_message_upcaster_factory b)
        ≡ (if leb (length (ancestors b)) 3 then ancestors b else nearest_node b ∷ root_class b ∷ [])
      → lineage (base_upcaster l b)
        ≡ (if leb (suc (length (ancestors b))) 3 then ancestors b else root_class b ∷ [])
  unfolding base_upcaster has_so_make_upcaster_method lineage
  base-lineage b [] e ih = ground (arith, length-lookup b, ap length e, ancestors_single b)
  base-lineage b (f ∷ []) e ih = ground (arith, length-lookup b, ap length e, lookup_single b f)
  base-lineage b (f ∷ g ∷ rest) e ih = ground (arith, length-lookup b, ap length e)

  -- Up to three classes with a mixin the upcasters visit all of them, from the class itself to the root.
  -- Of a class with more of them they visit only the nearest one and the root.
  pub lineage-ancestors :
      (b : MsgClass C)
      → lineage (so_message_upcaster_factory b)
        ≡ (if leb (length (ancestors b)) 3 then ancestors b else nearest_node b ∷ root_class b ∷ [])
  unfolding lineage so_message_upcaster_factory ancestors nearest_node root_class
  lineage-ancestors (root_message c) = refl
  lineage-ancestors (node_message c base) =
      ground (arith, base-lineage base (lookup_so_make_upcaster base) refl (lineage-ancestors base))
  lineage-ancestors (plain_message c base) = lineage-ancestors base
