-- ===== src/Sync/ReplyChains.antt =====
-- What the requests use of SObjectizer's chains and mboxes, and what they rely on.
use so5extra.Prelude.{ℕ, ◌≡◌, Bool, true, false, Option, none, some, List, [], ◌∷◌}
use so5extra.So5.{Result, ok}

-- `create_mchain` is the one of dev/so_5_extra/mchains/fixed_size.hpp, for one message, with an exception
-- on overflow. `received` is what the handler of `receive(from(ch).handle_n(1).empty_timeout(d))` gets:
-- the first message, or none when the chain stays empty for this time or is closed and empty.
pub record Chains (R O : Type 0) : Type 0 where
  pub create_mchain : O → ℕ × O
  pub as_mbox : ℕ → ℕ
  pub send : ℕ → R → O → Result O
  pub close_retain_content : ℕ → O → O
  pub received : ℕ → O → Option R
  pub contents : ℕ → O → List R
  pub is_closed : ℕ → O → Bool

pub record IsChains {R O : Type 0} (s : Chains R O) : Type 0 where
  pub created :
      (o : O)
      → let (ch, o') = s.create_mchain o in (s.contents ch o' ≡ []) × (s.is_closed ch o' ≡ false)
  -- An open chain that is empty takes a message.
  pub sent :
      (ch : ℕ) (r : R) (o : O)
      → s.contents ch o ≡ []
      → s.is_closed ch o ≡ false
      → (o' : O) × (s.send (s.as_mbox ch) r o ≡ ok o')
        × (s.contents ch o' ≡ r ∷ [])
        × (s.is_closed ch o' ≡ false)
  pub closed :
      (ch : ℕ) (o : O)
      → let o' = s.close_retain_content ch o in
        (s.contents ch o' ≡ s.contents ch o) × (s.is_closed ch o' ≡ true)
  pub received_first :
      (ch : ℕ) (o : O)
      → s.received ch o ≡ elim (s.contents ch o) as (λ _. Option R) [ [] ↦ none | r ∷ _ ↦ some r ]
