-- ===== src/Mboxes/Retained/Tests.antt =====
-- The theorems on the retained_msg mbox at concrete inputs.
use so5extra.Prelude.{ℕ, ◌≡◌, refl, none, some, List, [], ◌∷◌, nat_ord, ltb, if◌then◌else◌}
use so5extra.So5.{Mutability, immutable_message, mutable_message, ok, throw, Delivery, other_mode}
use so5extra.So5.Subscription.{SubscriptionInfo, Block, block_info}
use so5extra.Mboxes.Retained.{new_mbox, do_deliver_message}
use so5extra.Mboxes.Retained.History.{
  Call, subscribes, unsubscribes, sets_filter, delivers, run, block_in, last_message, message_after,
  block_after,
}
use so5extra.Mboxes.Retained.Deliveries.{reactions_to, to_one, deliver_exactly}

abbrev info : SubscriptionInfo (Block ℕ) ℕ ℕ ℕ
info = block_info ltb

-- Messages from 100 on are mutable.
abbrev kind : ℕ → Mutability
kind m = if ltb m 100 then immutable_message else mutable_message

abbrev sent : ℕ → ℕ → Delivery ℕ ℕ
sent t m = record { delivery_mode = other_mode 1; msg_type = t; message = m; redirection_deep = 2 }

abbrev past : List (Call ℕ ℕ ℕ ℕ)
past =
    delivers (sent 7 5)
    ∷ subscribes 7 1
    ∷ delivers (sent 7 6)
    ∷ delivers (sent 7 100)
    ∷ delivers (sent 8 9)
    ∷ sets_filter 7 6 2
    ∷ unsubscribes 7 1
    ∷ []

what_is_left :
    (last_message info kind 7 none past ≡ some 6) × (block_in info kind 7 1 none past ≡ none)
unfolding last_message block_in message_after block_after
what_is_left = (refl, refl)

deliver_exactly_example :
    (elim (do_deliver_message info kind (sent 7 11) (run info kind (new_mbox 3) past)) [
      | ok r ↦ reactions_to 2 r.1
      | throw e ↦ []
    ])
    ≡ to_one info kind 3 (sent 7 11) 2 (block_in info kind 7 2 none past)
deliver_exactly_example = deliver_exactly info kind 3 past (sent 7 11) 2 refl
