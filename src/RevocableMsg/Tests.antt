-- ===== src/RevocableMsg/Tests.antt =====
-- The theorems on revocable messages at a concrete input.
use so5extra.Prelude.{arith, ℕ, ◌≡◌, refl, false, some, List, [], ◌∷◌}
use so5extra.RevocableMsg.Assignment.{run, assigned_over}
use so5extra.RevocableMsg.{World, access_hook, revoke, move, make_envelope_and_deliver}
use so5extra.RevocableMsg.Revocation.{
  Event, sends, revokes, moves, accesses, handled, revoke_exactly,
}

abbrev two : World ℕ
two = record {
  envelopes =
      record { revoked = false; payload = 41 } ∷ record { revoked = false; payload = 42 } ∷ [];
  ids = some 1 ∷ some 0 ∷ [];
}

abbrev course : List (Event ℕ)
course = accesses 1 ∷ sends 43 0 ∷ moves 1 0 ∷ accesses 1 ∷ revokes 0 ∷ accesses 0 ∷ []

-- Without the revocation by the first variable the envelope 1 is handled twice; the envelope 0 is
-- revoked in the course, by the variable that it was moved to.
before : (handled 1 two course ≡ 42 ∷ 42 ∷ []) × (handled 0 two course ≡ [])
unfolding handled access_hook make_envelope_and_deliver move revoke
before = (refl, refl)

revoke_exactly_example :
    (handled 1 (revoke 0 two) course ≡ []) × (access_hook 0 (revoke 0 two) ≡ access_hook 0 two)
revoke_exactly_example =
    revoke_exactly 1 0 two (record { revoked = false; payload = 42 }) course 0 refl refl refl

-- `ids[0] = std::move(ids[1])`: the message 1 is still handled after both ids are destroyed.
assigned_over_example : access_hook 1 (run (move 1 0 two) (revokes 0 ∷ revokes 1 ∷ [])) ≡ some 42
assigned_over_example =
    assigned_over 1 1 0 42 two (revokes 0 ∷ revokes 1 ∷ []) refl
      ((λ h. cc), (λ h. ground arith, tt)) (λ h. ground (arith, h))
