-- ===== src/MsgHierarchy/Deliver/ById.antt =====
-- The receivers of a message, one consumer after the other in the order of their ids.
use so5extra.Prelude.{
  ℕ, zero, suc, ◌+◌, ◌≤◌, ◌<◌, ◌≡◌, refl, sym, ◌∙◌, ap, ap₂, none, List, [], ◌∷◌, arith, Ord,
  nat_ord, Bool-cases, inl, inr, ltb,
}
use so5extra.Std.Map
use so5extra.Std.Map.{IsSorted, IsAbove}
use so5extra.Std.Map.Keys.{AllKeys, AllKeys-mono, IsSorted-later}
use so5extra.MsgHierarchy.Upcaster.{TypeIndex}
use so5extra.MsgHierarchy.Controller.{consumer_map_of}
use so5extra.MsgHierarchy.Deliver.{SingleDestInfo}
use so5extra.MsgHierarchy.Deliver.Climb.{nearest}
use so5extra.MsgHierarchy.Deliver.Receivers.{cons_some, receivers}

module _ {C B : Type 0} ⦃o : Ord (TypeIndex C)⦄ where
  -- The receivers for the consumers `lo`, `lo + 1`, ..., `lo + k - 1`.
  unfoldable pub by_id :
      List (TypeIndex C) → List (ℕ × List (TypeIndex C × B)) → ℕ → ℕ → List (SingleDestInfo C B)
  unfolding cons_some consumer_map_of
  by_id ts consumers lo zero = []
  by_id ts consumers lo (suc k) =
      cons_some (nearest ts (consumer_map_of lo consumers)) (by_id ts consumers (suc lo) k)

  -- An earlier consumer does not matter.
  by_id_later :
      (ts : List (TypeIndex C)) (j : ℕ) (m : List (TypeIndex C × B))
      (rest : List (ℕ × List (TypeIndex C × B))) (lo k : ℕ)
      → j < lo
      → by_id ts ((j, m) ∷ rest) lo k ≡ by_id ts rest lo k
  unfolding by_id consumer_map_of Map.find
  by_id_later ts j m rest lo zero h = refl
  by_id_later ts j m rest lo (suc k) h = ground (arith, by_id_later ts j m rest (suc lo) k)

  nearest-nil : (ts : List (TypeIndex C)) → nearest {B = B} ts [] ≡ none
  unfolding nearest Map.find
  nearest-nil [] = refl
  nearest-nil (t ∷ ts) = nearest-nil ts

  by_id_empty : (ts : List (TypeIndex C)) (lo k : ℕ) → by_id ts [] lo k ≡ []
  unfolding by_id consumer_map_of Map.find
  by_id_empty ts lo zero = refl
  by_id_empty ts lo (suc k) = ground (arith, nearest-nil ts, by_id_empty ts (suc lo) k)

  map_of_head :
      (j lo : ℕ) (m : List (TypeIndex C × B)) (rest : List (ℕ × List (TypeIndex C × B)))
      → j ≡ lo
      → consumer_map_of lo ((j, m) ∷ rest) ≡ m
  unfolding consumer_map_of Map.find
  map_of_head j lo m rest h = ground arith

  map_of_before :
      (j lo : ℕ) (m : List (TypeIndex C × B)) (rest : List (ℕ × List (TypeIndex C × B)))
      → lo < j
      → consumer_map_of lo ((j, m) ∷ rest) ≡ []
  unfolding consumer_map_of Map.find
  map_of_before j lo m rest h = ground arith

  pub receivers-by_id :
      (ts : List (TypeIndex C)) (consumers : List (ℕ × List (TypeIndex C × B))) (lo k : ℕ)
      → IsSorted consumers
      → AllKeys (λ q. lo ≤ q) consumers
      → AllKeys (λ q. q < lo + k) consumers
      → receivers ts consumers ≡ by_id ts consumers lo k
  unfolding by_id receivers cons_some
  receivers-by_id ts [] lo k s a b = sym (by_id_empty ts lo k)
  receivers-by_id ts ((j, m) ∷ rest) lo zero s a b = absurd (omega arith)
  receivers-by_id ts ((j, m) ∷ rest) lo (suc k) s a b = elim (Bool-cases (ltb lo j)) [
    | inl h ↦
        let above : AllKeys (λ q. suc lo ≤ q) rest =
          AllKeys-mono (λ q (p : j < q). ground arith) rest (IsSorted-later j m rest s) in
        let ih =
          receivers-by_id ts ((j, m) ∷ rest) (suc lo) k s (ground arith, above)
            (AllKeys-mono (λ q (p : q < lo + suc k). omega arith) ((j, m) ∷ rest) b) in
        let x = by_id ts ((j, m) ∷ rest) (suc lo) k in
        ih
        ∙ sym (
            ap (λ a. cons_some a x)
              (ap (nearest ts) (map_of_before j lo m rest (ground arith)) ∙ nearest-nil ts))
    | inr h ↦
        let e : j ≡ lo = ground arith in
        let above : AllKeys (λ q. suc lo ≤ q) rest =
          AllKeys-mono (λ q (p : j < q). omega arith) rest (IsSorted-later j m rest s) in
        let ih =
          receivers-by_id ts rest (suc lo) k s.1 above
            (AllKeys-mono (λ q (p : q < lo + suc k). omega arith) rest b.1) in
        ap₂ (λ a b. cons_some (nearest ts a) b) (sym (map_of_head j lo m rest e))
          (ih ∙ sym (by_id_later ts j m rest (suc lo) k (omega arith)))
  ]
