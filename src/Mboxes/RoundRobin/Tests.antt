-- ===== src/Mboxes/RoundRobin/Tests.antt =====
-- Runs of the round-robin mbox, and its theorems at concrete inputs.
use so5extra.Prelude.{ℕ, ◌≡◌, refl, List, [], ◌∷◌, nat_ord}
use so5extra.So5.{Delivery, Push, ordinary}
use so5extra.Std.Map
use so5extra.Mboxes.RoundRobin.{
  Container, erase, Mbox, subscribe_event_handler, unsubscribe_event_handler, do_deliver_message,
}
use so5extra.Mboxes.RoundRobin.Turns.{order_of, deliver_all, pushes, deliver_all-turns}
use so5extra.Mboxes.RoundRobin.Invariant.{
  IsValid, Call, subscribes, delivers, run, new_mbox, run-new_mbox-IsValid,
}

program : Unit {0}
unfolding run subscribe_event_handler unsubscribe_event_handler do_deliver_message order_of Map.find
    Map.emplace Map.modify Map.erase deliver_all pushes
program = tt

abbrev hello : ℕ → Delivery ℕ ℕ
hello m = record { delivery_mode = ordinary; msg_type = 7; message = m; redirection_deep = 0 }

abbrev history : List (Call ℕ ℕ ℕ)
history =
    subscribes 7 1
    ∷ subscribes 7 2
    ∷ subscribes 5 2
    ∷ subscribes 7 3
    ∷ subscribes 7 2
    ∷ delivers (hello 40)
    ∷ []

abbrev three : Mbox ℕ ℕ
three = run (new_mbox 9) history

three_order : order_of 7 three ≡ 2 ∷ 3 ∷ 1 ∷ []
unfolding program
three_order = refl

three-IsValid : IsValid three
three-IsValid = run-new_mbox-IsValid 9 history

-- An erased sink in front of the index: the sink whose turn it was is passed over.
passed_over : order_of 7 (unsubscribe_event_handler 7 1 three) ≡ 3 ∷ 2 ∷ []
unfolding program
passed_over = refl

abbrev messages : List (Delivery ℕ ℕ)
messages = hello 41 ∷ hello 42 ∷ hello 43 ∷ []

deliver_all-turns_example :
    ((deliver_all messages three).1 ≡ pushes three.id (2 ∷ 3 ∷ 1 ∷ []) messages)
    × (order_of 7 (deliver_all messages three).0 ≡ 2 ∷ 3 ∷ 1 ∷ [])
deliver_all-turns_example =
    deliver_all-turns 7 messages (2 ∷ 3 ∷ 1 ∷ []) [] three three-IsValid (refl, (refl, (refl, tt)))
      three_order refl

abbrev later : List (Call ℕ ℕ ℕ)
later = subscribes 7 4 ∷ subscribes 5 1 ∷ delivers (hello 44) ∷ []

abbrev to_four : Push ℕ ℕ ℕ
to_four = record { sink = 4; mbox_id = 9; delivery = hello 41 }

abbrev served : Container ℕ
served = record { subscribers = 1 ∷ 2 ∷ 3 ∷ []; current_subscriber = 1 }
