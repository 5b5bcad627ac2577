-- ===== src/Mboxes/Collecting/Tests.antt =====
-- The theorems on the collecting mbox at concrete inputs.
use so5extra.Prelude.{
  ℕ, ◌≡◌, refl, Bool, Option, none, some, List, [], ◌∷◌, leb, ltb, ◌-◌, if◌then◌else◌,
}
use so5extra.So5.{MboxRef, multi_producer_single_consumer, DeliveryMode, ordinary, other_mode}
use so5extra.Mboxes.Collecting.{MessagesBuilder, Mbox, messages_builder}
use so5extra.Mboxes.Collecting.Bunches.{collect_all}

-- A message from 100 on is an envelope, whose payload is missing from 200 on.
abbrev is_enveloped : ℕ → Bool
is_enveloped m = leb 100 m

abbrev payload : ℕ → Option ℕ
payload m = if ltb m 200 then some (m - 100) else none

abbrev target : MboxRef
target = record { id = 4; type = multi_producer_single_consumer }

abbrev pairs : Mbox (MessagesBuilder ℕ)
pairs = record {
  id = 7;
  target = target;
  messages_to_collect = 2;
  msg_builder = record { current_msg = none; collected_messages = 0 };
}

abbrev arrivals : List (DeliveryMode × ℕ)
arrivals = (ordinary, 5) ∷ (ordinary, 300) ∷ (other_mode 1, 106) ∷ (ordinary, 7) ∷ []

sent_pairs :
    collect_all (messages_builder is_enveloped payload) arrivals pairs
    ≡ some (
      record pairs {
        msg_builder = record { current_msg = some (some 7 ∷ none ∷ []); collected_messages = 1 };
      },
      record {
        delivery_mode = other_mode 1;
        messages = some (some 5 ∷ some 6 ∷ []);
        redirection_deep = 1;
      }
          ∷ [],
    )
unfolding collect_all messages_builder
sent_pairs = refl

abbrev counting : Mbox ℕ
counting = record { id = 7; target = target; messages_to_collect = 2; msg_builder = 0 }
