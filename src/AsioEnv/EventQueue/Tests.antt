-- ===== src/AsioEnv/EventQueue/Tests.antt =====
-- The theorem on the times of waiting at a concrete queue.
use so5extra.Prelude.{◌+◌, ◌≡◌, none}
use so5extra.AsioEnv.EventQueue.{new_queue, push, start}
use so5extra.AsioEnv.EventQueue.Waiting.{starts, stops, rounds, waiting_ends}

waiting_ends_example :
    (starts (rounds (λ d. d + 1) 3 (push 41 none (start new_queue)).0).told ≡ 1)
    × (stops (rounds (λ d. d + 1) 3 (push 41 none (start new_queue)).0).told ≡ 4)
waiting_ends_example = waiting_ends (λ d. d + 1) 41 3
