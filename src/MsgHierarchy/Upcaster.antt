-- ===== src/MsgHierarchy/Upcaster.antt =====
-- dev/so_5_extra/msg_hierarchy/pub.hpp: `message_upcaster_t`, the mixins `root_t` and `node_t`, and what
-- the constructors of a message class leave in `root_base_t`. `C` stands for the classes.
pub mod Lineage
pub mod Order
mod Tests
use so5extra.Prelude.{ℕ, ◌+◌, Bool, true, false, Option, none, some, List, [], ◌∷◌}
use so5extra.So5.{Mutability, immutable_message, mutable_message, Error, extra, Result, ok, throw}
use so5extra.So5.Errors.{msg_hierarchy_errors}

abbrev pub rc_no_parent_upcaster : Error
rc_no_parent_upcaster = extra msg_hierarchy_errors

-- `std::type_index`: of a class, and of `mutable_msg` of it.
pub data TypeIndex (C : Type 0) : Type 0 where
  typeid typeid_mutable_msg : C → TypeIndex C

-- The functions that a `upcaster_factory_t` can point to: `root_t<Base>::so_make_upcaster_root`, and
-- `node_t<Derived, Base>::so_make_upcaster` with the function that its local `upcaster` names.
pub data UpcasterFactory (C : Type 0) : Type 0 where
  so_make_upcaster_root : C → UpcasterFactory C
  so_make_upcaster : C → UpcasterFactory C → UpcasterFactory C

pub record MessageUpcaster (C : Type 0) : Type 0 where
  pub self_type : TypeIndex C
  pub parent_factory : Option (UpcasterFactory C)

-- A class of the hierarchy, as the user declares it: the root; one that derives from its base and
-- from `node_t`; one that derives from its base only.
pub data MsgClass (C : Type 0) : Type 0 where
  root_message : C → MsgClass C
  node_message plain_message : C → MsgClass C → MsgClass C

module _ {C : Type 0} where
  unfoldable pub self_type_of : Mutability → C → TypeIndex C
  self_type_of mutable_message c = typeid_mutable_msg c
  self_type_of immutable_message c = typeid c

  -- A call through the pointer.
  unfoldable pub make_upcaster : UpcasterFactory C → Mutability → MessageUpcaster C
  unfolding self_type_of
  make_upcaster (so_make_upcaster_root base) mutability = record {
    self_type = self_type_of mutability base;
    parent_factory = none;
  }
  make_upcaster (so_make_upcaster derived upcaster) mutability = record {
    self_type = self_type_of mutability derived;
    parent_factory = some upcaster;
  }

  unfoldable pub has_parent_factory : MessageUpcaster C → Bool
  has_parent_factory upcaster = elim upcaster.parent_factory [ none ↦ false | some _ ↦ true ]

  unfoldable pub parent_upcaster : Mutability → MessageUpcaster C → Result (MessageUpcaster C)
  unfolding make_upcaster
  parent_upcaster mutability upcaster = elim upcaster.parent_factory [
    | none ↦ throw rc_no_parent_upcaster
    | some factory ↦ ok (make_upcaster factory mutability)
  ]

  -- The class that `&Base::so_make_upcaster_root` belongs to.
  pub root_class : MsgClass C → C
  root_class (root_message c) = c
  root_class (node_message c base) = root_class base
  root_class (plain_message c base) = root_class base

  -- `has_so_make_upcaster_method` of a class where the lookup of the name finds these functions: an
  -- ambiguous name is a substitution failure.
  pub has_so_make_upcaster_method : List (UpcasterFactory C) → Bool
  has_so_make_upcaster_method [] = false
  has_so_make_upcaster_method (f ∷ []) = true
  has_so_make_upcaster_method (f ∷ g ∷ rest) = false

  -- The `upcaster` of `node_t<Derived, Base>::so_make_upcaster`, from the lookup in `Base`.
  pub base_upcaster : List (UpcasterFactory C) → MsgClass C → UpcasterFactory C
  unfolding has_so_make_upcaster_method root_class
  base_upcaster [] base = so_make_upcaster_root (root_class base)
  base_upcaster (f ∷ rest) base = elim (has_so_make_upcaster_method (f ∷ rest)) [
    | true ↦ f
    | false ↦ so_make_upcaster_root (root_class base)
  ]

  -- What the lookup of `so_make_upcaster` finds in a class: none of the classes declares the name, and
  -- no mixin `node_t` among the base classes hides that of another one.
  unfoldable pub lookup_so_make_upcaster : MsgClass C → List (UpcasterFactory C)
  unfolding base_upcaster
  lookup_so_make_upcaster (root_message c) = []
  lookup_so_make_upcaster (node_message c base) =
      let of_base = lookup_so_make_upcaster base in
      so_make_upcaster c (base_upcaster of_base base) ∷ of_base
  lookup_so_make_upcaster (plain_message c base) = lookup_so_make_upcaster base

  -- `m_factory` after the constructors of the class: the one of `root_t`, then those of the mixins from
  -- the base to the derived class, each writes it.
  unfoldable pub so_message_upcaster_factory : MsgClass C → UpcasterFactory C
  unfolding lookup_so_make_upcaster
  so_message_upcaster_factory (root_message c) = so_make_upcaster_root c
  so_message_upcaster_factory (node_message c base) =
      so_make_upcaster c (base_upcaster (lookup_so_make_upcaster base) base)
  so_message_upcaster_factory (plain_message c base) = so_message_upcaster_factory base
