-- ===== src/Shutdowner/Leaving.antt =====
-- A started shutdown ends when the sinks that were told of it have left, whatever their order.
use so5extra.Prelude.{
  ◌≡◌, refl, Bool, true, false, not, ◌&&◌, ◌||◌, List, [], ◌∷◌, map, arith, Ord, inl, inr,
  Bool-cases, sym, subst, ◌∙◌, ap,
}
use so5extra.Std.SortedVector.{
  lower_bound, found, find_at, erase_key, erase-cons, AllAbove, AllAbove-mono, IsStrict,
  erase-IsStrict,
}
use so5extra.So5.{Delivery}
use so5extra.Shutdowner.{
  is_started, Mbox, address, complete_shutdown, perform, start_shutdown_clock,
  ensure_valid_message_type, is_empty, do_event_unsubscripton, begin_shutdown, do_initiate_shutdown,
  unsubscribe_event_handler, do_deliver_message,
}
use so5extra.Shutdowner.Calls.{Call, unsubscribes, delivers, is_completed, is_idle, step, run}

module _ {S : Type 0} ⦃os : Ord S⦄ where
  abbrev pub is_among : S → List S → Bool
  is_among s [] = false
  is_among s (x ∷ xs) = os.eqb x s || is_among s xs

  -- Every sink of the first list is in the second.
  unfoldable pub all_among : List S → List S → Bool
  all_among [] leaving = true
  all_among (s ∷ l) leaving = is_among s leaving && all_among l leaving

  among-fresh :
      (x : S) (l rest : List S) → AllAbove address x l → all_among l (x ∷ rest) ≡ all_among l rest
  unfolding all_among
  among-fresh x [] rest a = refl
  among-fresh x (y ∷ ys) rest a =
      ground (arith, a.0, os.eqb_iff x y, os.lt_irrefl x, among-fresh x ys rest a.1)

  is_above : (x y : S) → os.lt y x ≡ false → os.eqb y x ≡ false → os.lt x y ≡ true
  is_above x y h g = ground (arith, h, g, os.lt_total y x, os.eqb_iff y x)

  among-erase :
      (x : S) (l rest : List S)
      → IsStrict address l
      → all_among (erase_key address x l) rest ≡ all_among l (x ∷ rest)
  unfolding all_among erase_key lower_bound found find_at
  among-erase x [] rest s = ground arith
  among-erase x (y ∷ ys) rest s = elim (Bool-cases (os.lt y x)) [
    | inl below ↦
        rw (erase-cons address x y ys, below)
          (ground (arith, below, os.eqb_iff x y, os.lt_irrefl x, among-erase x ys rest s.1))
    | inr not_below ↦ elim (Bool-cases (os.eqb y x)) [
      | inl same ↦
          rw (erase-cons address x y ys, not_below, same)
            (ground (arith, same, os.eqb_iff y x, os.eqb_iff x y, among-fresh y ys rest s.0))
      | inr other ↦
          rw (erase-cons address x y ys, not_below, other)
            (let above = is_above x y not_below other in
              sym (among-fresh x (y ∷ ys) rest (above, AllAbove-mono address x y ys above s.0)))
    ]
  ]

  empty-among : (l leaving : List S) → is_empty l ≡ true → all_among l leaving ≡ true
  unfolding all_among
  empty-among l leaving h = ground (arith, h)

  nobody_left :
      (b : Mbox S)
      → is_started b.status ≡ true
      → is_empty b.subscribers ≡ false
      → is_completed b.status ≡ all_among b.subscribers []
  unfolding all_among
  nobody_left b h g = ground (arith, h, g)

  unfoldable pub leaves : {T M : Type 0} → T → List S → List (Call T S M)
  leaves t l = map (λ s. unsubscribes t s) l

module _ {S T : Type 0} (M : Type 0) ⦃os : Ord S⦄ ⦃ot : Ord T⦄ (shutdown_initiated : T) where
  leave-completed :
      (b : Mbox S) (s : S)
      → is_completed b.status ≡ true
      → is_completed
          (step {M = M} shutdown_initiated b (unsubscribes shutdown_initiated s)).0.status
        ≡ true
  unfolding step unsubscribe_event_handler ensure_valid_message_type do_event_unsubscripton perform
      complete_shutdown
  leave-completed b s h = ground (arith, h)

  -- What one sink's leaving does to a started shutdown.
  leave-started :
      (b : Mbox S) (s : S)
      → is_started b.status ≡ true
      → is_empty b.subscribers ≡ false
      → let b' = (step {M = M} shutdown_initiated b (unsubscribes shutdown_initiated s)).0 in
        (b'.subscribers ≡ erase_key address s b.subscribers)
        × (is_completed b'.status ≡ is_empty b'.subscribers)
        × (is_started b'.status ≡ not (is_empty b'.subscribers))
  unfolding step unsubscribe_event_handler ensure_valid_message_type do_event_unsubscripton perform
      complete_shutdown erase_key
  leave-started b s h g = ground (arith, h, g, ot.eqb_iff shutdown_initiated shutdown_initiated)

  run-completed :
      (b : Mbox S) (leaving : List S)
      → is_completed b.status ≡ true
      → is_completed (run {M = M} shutdown_initiated b (leaves shutdown_initiated leaving)).0.status
        ≡ true
  unfolding run leaves
  run-completed b [] h = h
  run-completed b (s ∷ l) h =
      run-completed (step {M = M} shutdown_initiated b (unsubscribes shutdown_initiated s)).0 l
        (leave-completed b s h)

  start-status :
      (b : Mbox S) (d : Delivery T M)
      → ot.eqb d.msg_type shutdown_initiated ≡ true
      → is_idle b.status ≡ true
      → let b' = (step shutdown_initiated b (delivers d)).0 in
        (b'.subscribers ≡ b.subscribers)
        × (is_completed b'.status ≡ is_empty b.subscribers)
        × (is_started b'.status ≡ not (is_empty b.subscribers))
  unfolding step do_deliver_message ensure_valid_message_type begin_shutdown do_initiate_shutdown
      perform complete_shutdown start_shutdown_clock
  start-status b d same idle = elim (Bool-cases (is_empty b.subscribers)) [
    | inl nobody ↦ ground (arith, same, idle, nobody)
    | inr somebody ↦ ground (arith, same, idle, somebody)
  ]

  pub run-started :
      (b : Mbox S) (leaving : List S)
      → is_started b.status ≡ true
      → is_empty b.subscribers ≡ false
      → IsStrict address b.subscribers
      → is_completed (run {M = M} shutdown_initiated b (leaves shutdown_initiated leaving)).0.status
        ≡ all_among b.subscribers leaving
  unfolding run leaves
  run-started b [] h g s = nobody_left b h g
  run-started b (x ∷ leaving) h g s =
      let b' = (step {M = M} shutdown_initiated b (unsubscribes shutdown_initiated x)).0 in
      let (left, done, going) = leave-started b x h g in
      let among = ap (λ l. all_among l leaving) left ∙ among-erase x b.subscribers leaving s in
      elim (Bool-cases (is_empty b'.subscribers)) [
        | inl nobody ↦
            run-completed b' leaving (done ∙ nobody)
            ∙ sym (empty-among b'.subscribers leaving nobody)
            ∙ among
        | inr somebody ↦
            run-started b' leaving (going ∙ ap not somebody) somebody (
              subst (λ l. IsStrict address l) (sym left) (erase-IsStrict address x b.subscribers s))
            ∙ among
      ]

  -- After the delivery that starts the shutdown, and then any sequence of unsubscriptions, the
  -- shutdown is completed exactly if every sink that was subscribed at the delivery is in the sequence.
  pub all_leave-completes :
      (b : Mbox S) (d : Delivery T M) (leaving : List S)
      → ot.eqb d.msg_type shutdown_initiated ≡ true
      → is_idle b.status ≡ true
      → IsStrict address b.subscribers
      → is_completed
          (run shutdown_initiated b (delivers d ∷ leaves shutdown_initiated leaving)).0.status
        ≡ all_among b.subscribers leaving
  unfolding run
  all_leave-completes b d leaving same idle s =
      let b' = (step shutdown_initiated b (delivers d)).0 in
      let (kept, done, going) = start-status b d same idle in
      elim (Bool-cases (is_empty b.subscribers)) [
        | inl nobody ↦
            run-completed b' leaving (done ∙ nobody)
            ∙ sym (empty-among b.subscribers leaving nobody)
        | inr somebody ↦
            run-started b' leaving (going ∙ ap not somebody) (ap is_empty kept ∙ somebody)
              (subst (λ l. IsStrict address l) (sym kept) s)
            ∙ ap (λ l. all_among l leaving) kept
      ]
