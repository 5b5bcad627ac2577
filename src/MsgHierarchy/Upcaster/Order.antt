-- ===== src/MsgHierarchy/Upcaster/Order.antt =====
-- An order of the types of a hierarchy whose classes are numbers.
use so5extra.Prelude.{ℕ, suc, ◌+◌, ◌≡◌, true, false, arith, Ord, ltb, ◌==◌, ◌↔◌}
use so5extra.MsgHierarchy.Upcaster.{TypeIndex, typeid, typeid_mutable_msg}

abbrev pub rank : TypeIndex ℕ → ℕ
rank (typeid c) = c + c
rank (typeid_mutable_msg c) = suc (c + c)

rank-inj : (s t : TypeIndex ℕ) → rank s ≡ rank t → s ≡ t
rank-inj (typeid c) (typeid d) h = ground arith
rank-inj (typeid c) (typeid_mutable_msg d) h = absurd (omega arith)
rank-inj (typeid_mutable_msg c) (typeid d) h = absurd (omega arith)
rank-inj (typeid_mutable_msg c) (typeid_mutable_msg d) h = ground arith

pub eqb_iff : (s t : TypeIndex ℕ) → ((rank s == rank t) ≡ true) ↔ (s ≡ t)
eqb_iff s t = (λ h. rank-inj s t (ground arith), λ e. rw e (ground arith))

pub lt_irrefl : (s : TypeIndex ℕ) → ltb (rank s) (rank s) ≡ false
lt_irrefl s = ground arith

pub lt_trans :
    (s t u : TypeIndex ℕ)
    → ltb (rank s) (rank t) ≡ true
    → ltb (rank t) (rank u) ≡ true
    → ltb (rank s) (rank u) ≡ true
lt_trans s t u h k = ground arith

pub lt_total :
    (s t : TypeIndex ℕ) → ltb (rank s) (rank t) ≡ false → ltb (rank t) (rank s) ≡ false → s ≡ t
lt_total s t h k = rank-inj s t (ground arith)

instance abbrev pub type_ord : Ord (TypeIndex ℕ)
type_ord = record {
  eqb = λ s t. rank s == rank t;
  lt = λ s t. ltb (rank s) (rank t);
  eqb_iff = eqb_iff;
  lt_irrefl = lt_irrefl;
  lt_trans = lt_trans;
  lt_total = lt_total;
}
