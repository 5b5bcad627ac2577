-- ===== src/RevocableTimer/Tests.antt =====
-- The theorem on revocable timers at concrete timers.
use so5extra.Prelude.{ℕ, ◌+◌, ◌≡◌, refl, false, none, some, List, [], ◌∷◌, ltb, ◌==◌, if◌then◌else◌}
use so5extra.So5.{ok, throw, rc_not_implemented}
use so5extra.RevocableMsg.{access_hook, instance_of}
use so5extra.RevocableTimer.{Timers, World, release}
use so5extra.RevocableTimer.Released.{
  Event, sends_periodic, sends_delayed, releases, moves, run, release_exactly,
}

-- A timer is the number of its variable in the order of creation; the state has the number of the next
-- one and the timers that are released.
abbrev State : Type 0
State = ℕ × List ℕ

-- A pause of 0 is not accepted.
abbrev wheel : Timers ℕ ℕ ℕ ℕ State
wheel = record {
  schedule_timer = λ t p to pause period o.
      if pause == 0 then (o, throw rc_not_implemented) else ((o.0 + 1, o.1), ok o.0);
  release = λ a o. (o.0, a ∷ o.1);
  is_active = λ a o. ltb a o.0;
  let_go = λ a o. (o.0, a ∷ o.1);
}

abbrev two : World ℕ ℕ State
two = record {
  messages = record {
    envelopes =
        record { revoked = false; payload = 41 } ∷ record { revoked = false; payload = 42 } ∷ [];
    ids = some 0 ∷ some 1 ∷ [];
  };
  actual_ids = some 0 ∷ some 1 ∷ [];
  timers = (2, []);
}

abbrev later : List (Event ℕ ℕ ℕ ℕ)
later =
    sends_periodic 9 7 5 5 (instance_of 43) 0
    ∷ moves 0 1
    ∷ sends_delayed 9 7 0 (instance_of 44) 0
    ∷ releases 0
    ∷ []

release_exactly_example :
    (access_hook 0 (run wheel 0 0 (release wheel 0 two) later).messages ≡ none)
    × (access_hook 1 (release wheel 0 two).messages ≡ access_hook 1 two.messages)
    × ((release wheel 0 two).timers ≡ (2, 0 ∷ []))
    × (release wheel 0 (release wheel 0 two) ≡ release wheel 0 two)
release_exactly_example =
    release_exactly wheel 0 0 0 0 1 (record { revoked = false; payload = 41 }) two later refl refl
      refl
