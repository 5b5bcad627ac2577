-- ===== src/Mboxes/FirstLast/Counter.antt =====
-- What the counter of the subscriptions and the signals have to say of each other.
use so5extra.Prelude.{
  ℕ, suc, ◌+◌, ◌≤◌, ◌≡◌, refl, Bool, true, false, Option, none, some, List, [], ◌∷◌, ◌++◌, arith,
  Ord, ltb,
}
use so5extra.Std.Map
use so5extra.Std.Map.{IsSorted}
use so5extra.Std.Map.Count.{count_values}
use so5extra.So5.{MboxType, MboxRef, Mutability, ok}
use so5extra.Mboxes.FirstLast.{
  Mbox, Signal, msg_first_subscriber, msg_last_subscriber, make, notify_first, notify_last,
}

-- The signals that a change from "no subscription" to "some", or back, is to send.
pub transition : Bool → Bool → List Signal
transition false true = msg_first_subscriber ∷ []
transition true false = msg_last_subscriber ∷ []
transition false false = []
transition true true = []

-- A reader that starts with "no subscription" (or "some") and follows the signals; `none` if a signal
-- comes that says what the reader knows.
unfoldable pub follow : Bool → List Signal → Option Bool
follow known [] = some known
follow false (msg_first_subscriber ∷ l) = follow true l
follow true (msg_last_subscriber ∷ l) = follow false l
follow _ _ = none

module _ {S I : Type 0} ⦃os : Ord S⦄ (has : I → Bool) where
  unfoldable pub count_subscriptions : Mbox S I → ℕ
  count_subscriptions b = count_values has b.subscribers

  abbrev pub is_active : Mbox S I → Bool
  is_active b = ltb 0 (count_subscriptions b)

  -- The state after at most `n` calls.
  pub record Inv (n : ℕ) (b : Mbox S I) : Type 0 where
    pub counted : b.subscriptions_count ≡ count_subscriptions b
    pub small : b.subscriptions_count ≤ n

  unfoldable pub is_subscribed : Mbox S I → S → Bool
  is_subscribed b s = elim (Map.find s b.subscribers) [ none ↦ false | some w ↦ has w ]

  -- What a call does: the counter still counts, and the signals are those of the change.
  abbrev pub Goes : ℕ → Mbox S I → Mbox S I × List Signal → Type 0
  Goes n b r = Inv n r.0 × (r.1 ≡ transition (is_active b) (is_active r.0))

  pub stays : (n : ℕ) (b : Mbox S I) → Inv n b → Goes (suc n) b (b, [])
  unfolding transition
  stays n b v = (record { counted = v.counted; small = omega arith }, ground arith)

  pub first-Goes :
      (n d : ℕ) (b : Mbox S I) (subs : List (S × I)) (post : ℕ → ℕ)
      → Inv n b
      → post b.subscriptions_count ≡ b.subscriptions_count + d
      → d ≤ 1
      → count_values has subs ≡ count_subscriptions b + d
      → Goes (suc n) b (notify_first post (record b { subscribers = subs }))
  unfolding notify_first transition count_subscriptions
  first-Goes n d b subs post v p small c = ground arith

  pub last-Goes :
      (n d : ℕ) (b : Mbox S I) (subs : List (S × I)) (post : ℕ → ℕ)
      → Inv n b
      → post b.subscriptions_count + d ≡ b.subscriptions_count
      → d ≤ 1
      → count_values has subs + d ≡ count_subscriptions b
      → Goes (suc n) b (notify_last post (record b { subscribers = subs }))
  unfolding notify_last transition count_subscriptions
  last-Goes n d b subs post v p small c = ground arith

  pub make-empty :
      (mutability : Mutability) (id : ℕ) (target : MboxRef) (type : MboxType) (b : Mbox S I)
      → make mutability id target type ≡ ok b
      → (is_active b ≡ false) × Inv 0 b
  unfolding make count_subscriptions count_values
  make-empty mutability id target type b made = ground arith

pub follow-transition :
    (known now : Bool) (l : List Signal) → follow known (transition known now ++ l) ≡ follow now l
unfolding follow transition
follow-transition true true l = refl
follow-transition true false l = refl
follow-transition false true l = refl
follow-transition false false l = refl
