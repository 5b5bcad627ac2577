-- ===== src/Mboxes/Network/Tests.antt =====
-- The theorem on networks of mboxes at a concrete network.
use so5extra.Prelude.{ℕ, ◌≡◌, refl, List, [], ◌∷◌, ◌++◌, ltb, if◌then◌else◌, ◌==◌}
use so5extra.So5.{
  Mutability, immutable_message, mutable_message, rc_not_implemented, ok, throw, Delivery, ordinary,
}
use so5extra.Mboxes.Network.{
  Node, leaf, proxy, broadcast, nil, cons, Deliver, deliver, outcome, deliver-outcome, in_turn,
}

-- The leaf 9 throws; the others note that they are called.
abbrev note : ℕ → Deliver ℕ ℕ (List ℕ)
note l d o = if l == 9 then (o, throw rc_not_implemented) else (o ++ l ∷ [], ok tt)

abbrev kind : ℕ → Mutability
kind m = if ltb m 100 then immutable_message else mutable_message

abbrev tree : Node ℕ
tree = broadcast 1 (
    cons (leaf 4) (
      cons (proxy (broadcast 2 (cons (leaf 5) (cons (leaf 4) nil))))
        (cons (leaf 9) (cons (leaf 6) nil))))

abbrev news : Delivery ℕ ℕ
news = record { delivery_mode = ordinary; msg_type = 7; message = 30; redirection_deep = 0 }

stops_at_nine :
    outcome kind note immutable_message tree news [] ≡ (4 ∷ 5 ∷ 4 ∷ [], throw rc_not_implemented)
unfolding outcome in_turn
stops_at_nine = refl

deliver-outcome_example :
    deliver kind note tree news [] ≡ outcome kind note immutable_message tree news []
deliver-outcome_example = deliver-outcome kind note tree news []
