-- ===== src/EnvelopedMsg/Tests.antt =====
-- The theorem on envelopes at a concrete clock and receiver.
use so5extra.Prelude.{ℕ, ◌+◌, ◌≡◌, refl, List, [], ◌∷◌, ◌++◌, ltb, if◌then◌else◌}
use so5extra.So5.{Mutability, immutable_message, mutable_message, Result, ok, Delivery}
use so5extra.EnvelopedMsg.{
  Clock, Message, message, just_envelope, time_limited_delivery, EnvelopeArgs, just, deadline,
  interval, just_access_hook, time_limited_access_hook, make,
}
use so5extra.EnvelopedMsg.Deadlines.{IsHandler, Holds, delivery_of, opened, send_in, due, make-Sent}

-- The time, which goes on by one with each reading, and what was handled.
abbrev State : Type 0
State = ℕ × List ℕ

abbrev ticking : Clock ℕ ℕ State
ticking = record { now = λ o. ((o.0 + 1, o.1), o.0); plus = λ t d. t + d; later = λ s t. ltb t s }

unfoldable handle : Message ℕ ℕ → State → State
handle (message m) o = (o.0, o.1 ++ m ∷ [])
handle (just_envelope p) o = handle p o
handle (time_limited_delivery p d) o = if ltb o.0 d then handle p (o.0 + 1, o.1) else (o.0 + 1, o.1)

handler : IsHandler ticking handle
unfolding handle just_access_hook time_limited_access_hook
handler = record { opens_just = λ p o. refl; opens_time_limited = λ p d o. refl }

abbrev kind : ℕ → Mutability
kind m = if ltb m 100 then immutable_message else mutable_message

-- The receiver opens the message at once.
abbrev at_once : Delivery ℕ (Message ℕ ℕ) → State → State × Result (Unit {0})
at_once d o = (handle d.message o, ok tt)

abbrev wrapped : List (EnvelopeArgs ℕ ℕ)
wrapped = interval 10 ∷ just ∷ deadline 5 ∷ []

-- At the time 0 the deadlines are 5, the outer one, and 10.
deadlines : due ticking wrapped (0, []) [] ≡ ((1, []), 5 ∷ 10 ∷ [])
unfolding due
deadlines = refl

in_time_late :
    (opened ticking handle (5 ∷ 10 ∷ []) 41 (4, []) ≡ (6, 41 ∷ []))
    × (opened ticking handle (5 ∷ 10 ∷ []) 41 (5, []) ≡ (6, []))
unfolding opened handle
in_time_late = (refl, refl)

make-Sent_example :
    (w : Message ℕ ℕ) × (send_in ticking wrapped at_once (make 7 41) (0, [])
      ≡ at_once (delivery_of ticking kind handle at_once 7 41 w) (due ticking wrapped (0, []) []).0)
    × Holds ticking kind handle at_once 7 41 w (due ticking wrapped (0, []) []).1
make-Sent_example = make-Sent ticking kind handle at_once 7 41 handler wrapped (0, [])
