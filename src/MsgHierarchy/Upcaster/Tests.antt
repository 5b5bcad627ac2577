-- ===== src/MsgHierarchy/Upcaster/Tests.antt =====
-- The theorems on upcasters at concrete classes.
use so5extra.Prelude.{ℕ, ◌≡◌, refl, [], ◌∷◌}
use so5extra.MsgHierarchy.Upcaster.{
  MsgClass, root_message, node_message, plain_message, root_class, so_message_upcaster_factory,
}
use so5extra.MsgHierarchy.Upcaster.Lineage.{lineage, ancestors, nearest_node, lineage-ancestors}

abbrev intermediate : MsgClass ℕ
intermediate = node_message 1 (plain_message 9 (root_message 0))

-- The fourth level of a hierarchy.
abbrev deep : MsgClass ℕ
deep = node_message 3 (node_message 2 intermediate)

three_levels : lineage (so_message_upcaster_factory (node_message 2 intermediate)) ≡ 2 ∷ 1 ∷ 0 ∷ []
unfolding lineage so_message_upcaster_factory
three_levels = refl

lineage-ancestors_example : lineage (so_message_upcaster_factory deep) ≡ 3 ∷ 0 ∷ []
unfolding ancestors nearest_node root_class
lineage-ancestors_example = lineage-ancestors deep
