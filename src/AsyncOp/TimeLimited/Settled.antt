-- ===== src/AsyncOp/TimeLimited/Settled.antt =====
-- The first end of an operation is the only one.
use so5extra.Prelude.{
  ℕ, zero, suc, ◌≡◌, refl, Bool, true, false, some, List, [], ◌∷◌, map, arith, get_elem?, All, sym,
  some_inj, subst, ◌∙◌, ap,
}
use so5extra.AsyncOp.Subscriptions.{Subscriptions, IsSubscriptions}
use so5extra.AsyncOp.TimeLimited.{
  Key, completion, timeout, deadletter, Status, unknown_moved_away, not_activated, activated,
  completed, cancelled, timedout, OpData, do_cancellation_actions, clean_with_status, cancel,
  handle,
}
use so5extra.AsyncOp.TimeLimited.Rollback.{Subscribed, Unsubscribed, cancellation-Unsubscribed}

abbrev pub is_activated : Status → Bool
is_activated activated = true
is_activated unknown_moved_away = false
is_activated not_activated = false
is_activated completed = false
is_activated cancelled = false
is_activated timedout = false

-- A message for a subscription, or a call of `cancel`.
pub data Event (C St : Type 0) : Type 0 where
  message : Key C St → Event C St
  cancels : Event C St

module _ {C St : Type 0} where
  -- The subscription is one of those that the operation names.
  abbrev pub IsOwn : OpData C St → Key C St → Type 0
  IsOwn op (completion c) = (i : ℕ) × (get_elem? op.completion_handlers i ≡ some c)
  IsOwn op (timeout st) = (i : ℕ) × (get_elem? op.timeout_handlers i ≡ some st)
  IsOwn op deadletter = Unit

  abbrev pub AreOwn : OpData C St → List (Event C St) → Type 0
  AreOwn op [] = Unit
  AreOwn op (message k ∷ es) = IsOwn op k × AreOwn op es
  AreOwn op (cancels ∷ es) = AreOwn op es

  abbrev pub end_of : Event C St → Status
  end_of (message (completion c)) = completed
  end_of (message (timeout st)) = timedout
  end_of (message deadletter) = timedout
  end_of cancels = cancelled

  end_not_activated : (e : Event C St) → is_activated (end_of e) ≡ false
  end_not_activated (message (completion c)) = refl
  end_not_activated (message (timeout st)) = refl
  end_not_activated (message deadletter) = refl
  end_not_activated cancels = refl

module _ {A K O : Type 0} (s : Subscriptions K O) (f : A → K) where
  held_at :
      (b : Bool) (l : List A) (i : ℕ) (a : A) (o : O)
      → All (λ k. s.holds k o ≡ b) (map f l)
      → get_elem? l i ≡ some a
      → s.holds (f a) o ≡ b
  held_at b [] i a o h e = ground (arith, e)
  held_at b (x ∷ l) zero a o h e = subst (λ y. s.holds (f y) o ≡ b) (some_inj.0 e) h.0
  held_at b (x ∷ l) (suc i) a o h e = held_at b l i a o h.1 e

module _ {C St O : Type 0} (s : Subscriptions (Key C St) O) where
  unfoldable pub step : Event C St → OpData C St → O → OpData C St × O
  step (message k) op o = handle s k op o
  step cancels op o = cancel s op o

  unfoldable pub run : List (Event C St) → OpData C St → O → OpData C St × O
  unfolding step
  run [] op o = (op, o)
  run (e ∷ es) op o = let (op', o') = step e op o in run es op' o'

module _ {C St O : Type 0} (s : Subscriptions (Key C St) O) (law : IsSubscriptions s) where
  held :
      (op : OpData C St) (o : O) (k : Key C St)
      → Subscribed s law op o
      → IsOwn op k
      → s.holds k o ≡ true
  held op o (completion c) v (i, e) =
      held_at s completion true op.completion_handlers i c o v.completions_held e
  held op o (timeout st) v (i, e) =
      held_at s timeout true op.timeout_handlers i st o v.timeouts_held e
  held op o deadletter v own = v.deadletter_held

  not_held :
      (op : OpData C St) (o : O) (k : Key C St)
      → Unsubscribed s law op o
      → IsOwn op k
      → s.holds k o ≡ false
  not_held op o (completion c) v (i, e) =
      held_at s completion false op.completion_handlers i c o v.no_completions e
  not_held op o (timeout st) v (i, e) =
      held_at s timeout false op.timeout_handlers i st o v.no_timeouts e
  not_held op o deadletter v own = v.no_deadletter

  not_handled :
      (k : Key C St) (op : OpData C St) (o : O) → s.holds k o ≡ false → handle s k op o ≡ (op, o)
  unfolding handle
  not_handled (completion c) op o h = ground (arith, h)
  not_handled (timeout st) op o h = ground (arith, h)
  not_handled deadletter op o h = ground (arith, h)

  not_cancelled :
      (op : OpData C St) (o : O) → is_activated op.status ≡ false → cancel s op o ≡ (op, o)
  unfolding cancel
  not_cancelled op o h = ground (arith, h)

  settled :
      (es : List (Event C St)) (first op : OpData C St) (o : O)
      → is_activated op.status ≡ false
      → Unsubscribed s law first o
      → AreOwn first es
      → run s es op o ≡ (op, o)
  unfolding run
  settled [] first op o h v own = refl
  settled (message k ∷ es) first op o h v own =
      rw (not_handled k op o (not_held first o k v own.0)) (settled es first op o h v own.1)
  settled (cancels ∷ es) first op o h v own =
      rw (not_cancelled op o h) (settled es first op o h v own)

  first_step :
      (e : Event C St) (op : OpData C St) (o : O)
      → op.status ≡ activated
      → Subscribed s law op o
      → AreOwn op (e ∷ [])
      → step s e op o ≡ clean_with_status s (end_of e) op o
  unfolding step handle cancel
  first_step (message (completion c)) op o a v own =
      ground (arith, held op o (completion c) v own.0)
  first_step (message (timeout st)) op o a v own = ground (arith, held op o (timeout st) v own.0)
  first_step (message deadletter) op o a v own = ground (arith, v.deadletter_held)
  first_step cancels op o a v own = ground (arith, a)

  -- Of an activated operation with its subscriptions, the first message for one of them, or the first
  -- call of `cancel`, settles the end; whatever comes later for its subscriptions, and each later
  -- call of `cancel`, changes nothing. The timer is stopped and the subscriptions are gone.
  pub first_end :
      (e : Event C St) (es : List (Event C St)) (op : OpData C St) (o : O)
      → op.status ≡ activated
      → Subscribed s law op o
      → AreOwn op (e ∷ [])
      → AreOwn op es
      → let (op', o') = run s (e ∷ es) op o in
        (op'.status ≡ end_of e) × (op'.timer ≡ false) × Unsubscribed s law op o'
  unfolding run clean_with_status do_cancellation_actions
  first_end e es op o a v own more =
      let ended = clean_with_status s (end_of e) op o in
      let gone = cancellation-Unsubscribed s law op o in
      let same =
        ap (λ r. run s es r.0 r.1) (first_step e op o a v own)
        ∙ settled es op ended.0 ended.1 (end_not_activated e) gone more in
      (
        ap (λ r. r.0.status) same,
        ap (λ r. r.0.timer) same,
        subst (λ r. Unsubscribed s law op r.1) (sym same) gone,
      )
