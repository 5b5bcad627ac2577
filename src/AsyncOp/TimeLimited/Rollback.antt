-- ===== src/AsyncOp/TimeLimited/Rollback.antt =====
-- The activation makes all the subscriptions of the operation, or leaves none.
use so5extra.Prelude.{◌≡◌, ◌⊎◌, inl, inr, true, false, Bool-cases, ◌∙◌, [], arith, sym, subst, ap}
use so5extra.So5.{Result-cases, Error, Result, ok, throw}
use so5extra.AsyncOp.Subscriptions.{Subscriptions, IsSubscriptions, drop_each, create_each}
use so5extra.AsyncOp.Subscriptions.Loops.{
  AllHeld, NoneHeld, drop_keeps, drop_keeps_all, drop_self, each_keeps_held, create_keeps_held,
  create_self,
}
use so5extra.AsyncOp.TimeLimited.{
  Key, deadletter, activated, cancelled, OpData, completions, timeouts, create_timeouts,
  do_activation_actions, do_cancellation_actions, clean_with_status, activate_op, DefinitionPoint,
  ensure_activable, activate, rc_op_cant_be_activated,
}

module _ {C St O : Type 0} (s : Subscriptions (Key C St) O) (law : IsSubscriptions s) where
  -- Whether all the subscriptions of an operation are there, or none.
  pub record Subscribed (op : OpData C St) (o : O) : Type 0 where
    pub completions_held : AllHeld s (completions s op.completion_handlers) o
    pub timeouts_held : AllHeld s (timeouts s op.timeout_handlers) o
    pub deadletter_held : s.holds deadletter o ≡ true

  pub record Unsubscribed (op : OpData C St) (o : O) : Type 0 where
    pub no_completions : NoneHeld s (completions s op.completion_handlers) o
    pub no_timeouts : NoneHeld s (timeouts s op.timeout_handlers) o
    pub no_deadletter : s.holds deadletter o ≡ false

  pub cancellation-Unsubscribed :
      (op : OpData C St) (o : O) → Unsubscribed op (do_cancellation_actions s op o).1
  unfolding do_cancellation_actions
  cancellation-Unsubscribed op o =
      let o1 = s.destroy deadletter o in
      let o2 = drop_each s (timeouts s op.timeout_handlers) o1 in
      record {
        no_completions = drop_self s law (completions s op.completion_handlers) o2;
        no_timeouts =
            drop_keeps_all s law (completions s op.completion_handlers)
              (timeouts s op.timeout_handlers) o2
              (drop_self s law (timeouts s op.timeout_handlers) o1);
        no_deadletter = drop_keeps s law (completions s op.completion_handlers) deadletter o2 (
            drop_keeps s law (timeouts s op.timeout_handlers) deadletter o1
              (law.destroy_self deadletter o));
      }

  activation-ok :
      (op : OpData C St) (o : O)
      → (do_activation_actions s op o).1 ≡ ok tt
      → let o1 = (create_each s [] (completions s op.completion_handlers) o).0 in
        let o2 = (create_each s [] (timeouts s op.timeout_handlers) o1).0 in
        ((create_each s [] (completions s op.completion_handlers) o).1 ≡ ok tt)
        × ((create_each s [] (timeouts s op.timeout_handlers) o1).1 ≡ ok tt)
        × (o3 : O) × (s.create deadletter o2 ≡ ok o3)
        × ((do_activation_actions s op o).0 ≡ o3)
  unfolding do_activation_actions create_timeouts
  activation-ok op o done =
      let o1 = (create_each s [] (completions s op.completion_handlers) o).0 in
      let o2 = (create_each s [] (timeouts s op.timeout_handlers) o1).0 in
      elim (Result-cases (create_each s [] (completions s op.completion_handlers) o).1) [
        | inr (e, f) ↦ ground (arith, f, done)
        | inl (u, f) ↦
            elim (Result-cases (create_each s [] (timeouts s op.timeout_handlers) o1).1) [
              | inr (e, g) ↦ ground (arith, f, g, done)
              | inl (v, g) ↦ elim (Result-cases (s.create deadletter o2)) [
                | inr (e, h) ↦ ground (arith, f, g, h, done)
                | inl (o3, h) ↦ (f, g, o3, h, ground (arith, f, g, h))
              ]
            ]
      ]

  activation-Subscribed :
      (op : OpData C St) (o : O)
      → (do_activation_actions s op o).1 ≡ ok tt
      → Subscribed op (do_activation_actions s op o).0
  unfolding do_activation_actions create_timeouts
  activation-Subscribed op o done =
      let ts = timeouts s op.timeout_handlers in
      let cs = completions s op.completion_handlers in
      let o1 = (create_each s [] cs o).0 in
      let o2 = (create_each s [] ts o1).0 in
      let (first, second, o3, third, same) = activation-ok op o done in
      subst (λ r. Subscribed op r) (sym same)
        (record {
          completions_held =
              create_keeps_held s law deadletter cs o2 o3 third
                (each_keeps_held s law ts cs o1 (create_self s law [] cs o first) second);
          timeouts_held =
              create_keeps_held s law deadletter ts o2 o3 third (create_self s law [] ts o1 second);
          deadletter_held = law.create_self deadletter o2 o3 third;
        })

  activate-ok :
      (send_timer : Result (Unit {0})) (op : OpData C St) (o : O)
      → (activate_op s send_timer op o).2 ≡ ok tt
      → ((do_activation_actions s op o).1 ≡ ok tt)
        × (activate_op s send_timer op o ≡ (
          record op { timer = true; status = activated },
          (do_activation_actions s op o).0,
          ok tt,
        ))
  unfolding activate_op
  activate-ok send_timer op o done = ground (arith, done)

  activate-throw :
      (send_timer : Result (Unit {0})) (op : OpData C St) (o : O) (e : Error)
      → (activate_op s send_timer op o).2 ≡ throw e
      → activate_op s send_timer op o ≡ (
        (clean_with_status s cancelled op (do_activation_actions s op o).0).0,
        (clean_with_status s cancelled op (do_activation_actions s op o).0).1,
        throw e,
      )
  unfolding activate_op
  activate-throw send_timer op o e done = ground (arith, done)

  -- The rolled back part of the activation: it makes everything, or leaves nothing.
  op_all_or_nothing :
      (send_timer : Result (Unit {0})) (op : OpData C St) (o : O)
      → let (op', o', done) = activate_op s send_timer op o in
        ((done ≡ ok tt) × (op'.status ≡ activated) × (op'.timer ≡ true) × Subscribed op o')
        ⊎ (((e : Error) × (done ≡ throw e))
            × (op'.status ≡ cancelled)
            × (op'.timer ≡ false)
            × Unsubscribed op o')
  unfolding clean_with_status do_cancellation_actions
  op_all_or_nothing send_timer op o = elim (Result-cases (activate_op s send_timer op o).2) [
    | inl (u, done) ↦
        let (acted, same) = activate-ok send_timer op o done in
        inl (
          done,
          ap (λ r. r.0.status) same,
          ap (λ r. r.0.timer) same,
          subst (λ r. Subscribed op r.1) (sym same) (activation-Subscribed op o acted),
        )
    | inr (e, failed) ↦
        let same = activate-throw send_timer op o e failed in
        inr (
          (e, failed),
          ap (λ r. r.0.status) same,
          ap (λ r. r.0.timer) same,
          subst (λ r. Unsubscribed op r.1) (sym same)
              (cancellation-Unsubscribed op (do_activation_actions s op o).0),
        )
  ]

  activate-empty :
      (send_timer : Result (Unit {0})) (w : DefinitionPoint C St O)
      → w.is_activable ≡ false
      → activate s send_timer w ≡ (w, throw rc_op_cant_be_activated)
  unfolding activate ensure_activable
  activate-empty send_timer w h = ground (arith, h)

  activate-full :
      (send_timer : Result (Unit {0})) (w : DefinitionPoint C St O)
      → w.is_activable ≡ true
      → let (op', o', done) = activate_op s send_timer w.op w.owner in
        activate s send_timer w ≡ (record { is_activable = false; op = op'; owner = o' }, done)
  unfolding activate ensure_activable
  activate-full send_timer w h = ground (arith, h)

  -- After `activate` the definition point is empty. If it was empty before, then
  -- `rc_op_cant_be_activated` is thrown and nothing changes, also not the operation that it referred to
  -- once. Otherwise, if `activate` returns, the operation is activated, its timer runs, and all its
  -- subscriptions are there; and if it throws, the operation is cancelled, its timer does not run,
  -- and the owner is left with none of the subscriptions that the operation names, not even those
  -- that it had before.
  pub activate_all_or_nothing :
      (send_timer : Result (Unit {0})) (w : DefinitionPoint C St O)
      → let (w', done) = activate s send_timer w in
        (w'.is_activable ≡ false)
        × (((w.is_activable ≡ false) × (w' ≡ w) × (done ≡ throw rc_op_cant_be_activated))
            ⊎ ((w.is_activable ≡ true)
                × (((done ≡ ok tt)
                      × (w'.op.status ≡ activated)
                      × (w'.op.timer ≡ true)
                      × Subscribed w.op w'.owner)
                    ⊎ (((e : Error) × (done ≡ throw e))
                        × (w'.op.status ≡ cancelled)
                        × (w'.op.timer ≡ false)
                        × Unsubscribed w.op w'.owner))))
  activate_all_or_nothing send_timer w = elim (Bool-cases w.is_activable) [
    | inl full ↦
        let same = activate-full send_timer w full in
        (
          ap (λ r. r.0.is_activable) same,
          inr (
            full,
            subst
                (λ r.
                  ((r.1 ≡ ok tt)
                    × (r.0.op.status ≡ activated)
                    × (r.0.op.timer ≡ true)
                    × Subscribed w.op r.0.owner)
                  ⊎ (((e : Error) × (r.1 ≡ throw e))
                      × (r.0.op.status ≡ cancelled)
                      × (r.0.op.timer ≡ false)
                      × Unsubscribed w.op r.0.owner))
                (sym same) (op_all_or_nothing send_timer w.op w.owner),
          ),
        )
    | inr empty ↦
        let same = activate-empty send_timer w empty in
        (
          ap (λ r. r.0.is_activable) same ∙ empty,
          inl (empty, ap (λ r. r.0) same, ap (λ r. r.1) same),
        )
  ]
