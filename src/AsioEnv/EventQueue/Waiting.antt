-- ===== src/AsioEnv/EventQueue/Waiting.antt =====
-- The times of waiting that the tracker is told.
use so5extra.Prelude.{ℕ, zero, suc, ◌+◌, ◌≡◌, refl, ◌∙◌, none, List, [], ◌∷◌, ◌++◌, arith}
use so5extra.Disp.{increment, decrement}
use so5extra.AsioEnv.EventQueue.{
  Activity, wait_started, wait_stopped, work_started, work_stopped, Queue, new_queue, tell, push,
  start, run_posted,
}

abbrev pub starts : List Activity → ℕ
starts [] = 0
starts (wait_started ∷ l) = starts l + 1
starts (wait_stopped ∷ l) = starts l
starts (work_started ∷ l) = starts l
starts (work_stopped ∷ l) = starts l

abbrev pub stops : List Activity → ℕ
stops [] = 0
stops (wait_started ∷ l) = stops l
stops (wait_stopped ∷ l) = stops l + 1
stops (work_started ∷ l) = stops l
stops (work_stopped ∷ l) = stops l

starts-append : (l k : List Activity) → starts (l ++ k) ≡ starts l + starts k
starts-append [] k = omega arith
starts-append (wait_started ∷ l) k = omega (arith, starts-append l k)
starts-append (wait_stopped ∷ l) k = starts-append l k
starts-append (work_started ∷ l) k = starts-append l k
starts-append (work_stopped ∷ l) k = starts-append l k

stops-append : (l k : List Activity) → stops (l ++ k) ≡ stops l + stops k
stops-append [] k = omega arith
stops-append (wait_started ∷ l) k = stops-append l k
stops-append (wait_stopped ∷ l) k = omega (arith, stops-append l k)
stops-append (work_started ∷ l) k = stops-append l k
stops-append (work_stopped ∷ l) k = stops-append l k

round : List Activity → List Activity
round told = ((told ++ work_started ∷ []) ++ wait_stopped ∷ []) ++ work_stopped ∷ []

starts-round : (told : List Activity) → starts (round told) ≡ starts told
unfolding round
starts-round told = omega (
  arith,
  starts-append ((told ++ work_started ∷ []) ++ wait_stopped ∷ []) (work_stopped ∷ []),
  starts-append (told ++ work_started ∷ []) (wait_stopped ∷ []),
  starts-append told (work_started ∷ []),
)

stops-round : (told : List Activity) → stops (round told) ≡ stops told + 1
unfolding round
stops-round told = omega (
  arith,
  stops-append ((told ++ work_started ∷ []) ++ wait_stopped ∷ []) (work_stopped ∷ []),
  stops-append (told ++ work_started ∷ []) (wait_stopped ∷ []),
  stops-append told (work_started ∷ []),
)

module _ {D : Type 0} where
  -- A handler that sends the next demand, as an agent that sends a message to itself.
  unfoldable pub sends_next : (D → D) → D → Queue D → Queue D
  unfolding push
  sends_next next d q = (push (next d) none q).0

  unfoldable pub rounds : (D → D) → ℕ → Queue D → Queue D
  unfolding run_posted sends_next
  rounds next zero q = q
  rounds next (suc n) q = rounds next n (run_posted (sends_next next) q)

  busy : D → List Activity → Queue D
  busy d told = record { demands_count = 1; posted = d ∷ []; told = told }

  round-busy :
      (next : D → D) (d : D) (told : List Activity)
      → run_posted (sends_next next) (busy d told) ≡ busy (next d) (round told)
  unfolding run_posted sends_next push tell busy round increment decrement
  round-busy next d told = refl

  rounds-busy :
      (next : D → D) (n : ℕ) (d : D) (told : List Activity)
      → (starts (rounds next n (busy d told)).told ≡ starts told)
        × (stops (rounds next n (busy d told)).told ≡ stops told + n)
  unfolding rounds busy round tell
  rounds-busy next zero d told = (refl, omega arith)
  rounds-busy next (suc n) d told =
      let (a, b) = rounds-busy next n (next d) (round told) in
      (a ∙ starts-round told, omega (arith, b, stops-round told))

  -- If the queue gets one demand and each handler sends the next one, then after `n` handlers the
  -- tracker was told once that the waiting began and `n + 1` times that it ended: the end of a
  -- waiting is told in each handler, where there is none.
  pub waiting_ends :
      (next : D → D) (d : D) (n : ℕ)
      → (starts (rounds next n (push d none (start new_queue)).0).told ≡ 1)
        × (stops (rounds next n (push d none (start new_queue)).0).told ≡ n + 1)
  unfolding push start tell busy increment
  waiting_ends next d n =
      let (a, b) = rounds-busy next n d (wait_started ∷ wait_stopped ∷ []) in (a, omega (arith, b))
