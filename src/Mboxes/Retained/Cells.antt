-- ===== src/Mboxes/Retained/Cells.antt =====
-- What the changes of an item of the table do to a search in it.
use so5extra.Prelude.{
  ◌≡◌, Bool, true, false, none, some, List, arith, Ord, inl, inr, Option-cases, if◌then◌else◌,
}
use so5extra.Std.Map
use so5extra.Std.Map.{IsSorted}
use so5extra.Mboxes.Retained.{MessagesTableItem, table_item, set_table_item, insert_or_modify}
use so5extra.Mboxes.Retained.History.{created_or, unless_empty}

module _ {T S I M : Type 0} ⦃ot : Ord T⦄ where
  pub table_item-set :
      (t q : T) (item : MessagesTableItem S I M) (table : List (T × MessagesTableItem S I M))
      → table_item q (set_table_item t item table)
        ≡ (if ot.eqb t q then item else table_item q table)
  unfolding table_item set_table_item
  table_item-set t q item table = elim (Option-cases (Map.find t table)) [
    | inl h ↦ ground (arith, h, Map.find-emplace t q item table)
    | inr (w, h) ↦ ground (arith, h, Map.find-modify t q (λ _. item) table)
  ]

module _ {S I : Type 0} ⦃os : Ord S⦄ where
  pub insert-find :
      (s r : S) (maker : I) (changer : I → I) (m : List (S × I))
      → Map.find r (insert_or_modify s maker changer m).0
        ≡ (if os.eqb s r then created_or maker changer (Map.find r m) else Map.find r m)
  unfolding insert_or_modify
  insert-find s r maker changer m = elim (Option-cases (Map.find s m)) [
    | inl h ↦ ground (arith, h, Map.find-emplace s r maker m, os.eqb_iff s r)
    | inr (w, h) ↦ ground (arith, h, Map.find-modify s r changer m, os.eqb_iff s r)
  ]

  pub insert-IsSorted :
      (s : S) (maker : I) (changer : I → I) (m : List (S × I))
      → IsSorted m
      → IsSorted (insert_or_modify s maker changer m).0
  unfolding insert_or_modify
  insert-IsSorted s maker changer m v = elim (Option-cases (Map.find s m)) [
    | inl h ↦ rw (h, insert_or_modify) (Map.emplace-IsSorted s maker m v)
    | inr (w, h) ↦ rw (h, insert_or_modify) (Map.modify-IsSorted s changer m v)
  ]

  pub remove-find :
      (is_empty : I → Bool) (s r : S) (changer : I → I) (m : List (S × I)) (w : I)
      → IsSorted m
      → Map.find s m ≡ some w
      → Map.find r (
          if is_empty (changer w)
          then Map.erase s (Map.modify s changer m)
          else Map.modify s changer m)
        ≡ (if os.eqb s r then unless_empty is_empty changer (Map.find r m) else Map.find r m)
  remove-find is_empty s r changer m w v h = ground (
    arith,
    h,
    os.eqb_iff s r,
    Map.find-modify s r changer m,
    Map.find-erase s r (Map.modify s changer m) (Map.modify-IsSorted s changer m v),
  )

  pub remove-IsSorted :
      (c : Bool) (s : S) (changer : I → I) (m : List (S × I))
      → IsSorted m
      → IsSorted (if c then Map.erase s (Map.modify s changer m) else Map.modify s changer m)
  remove-IsSorted true s changer m v =
      Map.erase-IsSorted s (Map.modify s changer m) (Map.modify-IsSorted s changer m v)
  remove-IsSorted false s changer m v = Map.modify-IsSorted s changer m v

module _ {S I M : Type 0} ⦃os : Ord S⦄ where
  unfoldable pub removed_from :
      (I → Bool) → S → (I → I) → MessagesTableItem S I M → MessagesTableItem S I M
  removed_from is_empty s changer item = elim (Map.find s item.subscribers) [
    | none ↦ item
    | some info ↦ record item {
      subscribers =
          if is_empty (changer info)
          then Map.erase s (Map.modify s changer item.subscribers)
          else Map.modify s changer item.subscribers;
    }
  ]

  pub removed-find :
      (is_empty : I → Bool) (s r : S) (changer : I → I) (item : MessagesTableItem S I M)
      → IsSorted item.subscribers
      → Map.find r (removed_from is_empty s changer item).subscribers ≡ (
          if os.eqb s r
          then unless_empty is_empty changer (Map.find r item.subscribers)
          else Map.find r item.subscribers)
  unfolding removed_from
  removed-find is_empty s r changer item v = elim (Option-cases (Map.find s item.subscribers)) [
    | inl h ↦ ground (arith, h, os.eqb_iff s r)
    | inr (w, h) ↦ rw (h, removed_from) (remove-find is_empty s r changer item.subscribers w v h)
  ]

  pub removed-IsSorted :
      (is_empty : I → Bool) (s : S) (changer : I → I) (item : MessagesTableItem S I M)
      → IsSorted item.subscribers
      → IsSorted (removed_from is_empty s changer item).subscribers
  unfolding removed_from
  removed-IsSorted is_empty s changer item v = elim (Option-cases (Map.find s item.subscribers)) [
    | inl h ↦ rw (h, removed_from) v
    | inr (w, h) ↦
        rw (h, removed_from) (remove-IsSorted (is_empty (changer w)) s changer item.subscribers v)
  ]

  pub removed-retained :
      (is_empty : I → Bool) (s : S) (changer : I → I) (item : MessagesTableItem S I M)
      → (removed_from is_empty s changer item).retained_msg ≡ item.retained_msg
  unfolding removed_from
  removed-retained is_empty s changer item = ground arith
