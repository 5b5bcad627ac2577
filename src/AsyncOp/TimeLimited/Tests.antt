-- ===== src/AsyncOp/TimeLimited/Tests.antt =====
-- Subscriptions that obey the laws, and the theorems on the time-limited operation at concrete inputs.
use so5extra.Prelude.{
  ℕ, ◌≡◌, ◌⊎◌, refl, Bool, true, false, List, [], ◌∷◌, arith, ◌==◌, if◌then◌else◌, ap, subst,
}
use so5extra.So5.{Error, rc_not_implemented, Result, ok, throw}
use so5extra.AsyncOp.Subscriptions.{Subscriptions, IsSubscriptions, create_each}
use so5extra.AsyncOp.TimeLimited.{
  Key, completion, timeout, deadletter, OpData, not_activated, activated, cancelled, activate_op,
  create_timeouts, do_activation_actions, DefinitionPoint, ensure_activable, activate,
  rc_op_cant_be_activated,
}
use so5extra.AsyncOp.TimeLimited.Rollback.{Subscribed, Unsubscribed, activate_all_or_nothing}
use so5extra.AsyncOp.TimeLimited.Settled.{Event, message, cancels, end_of, run, first_end}

abbrev same : Key ℕ ℕ → Key ℕ ℕ → Bool
same (completion a) (completion b) = a == b
same (timeout a) (timeout b) = a == b
same deadletter deadletter = true
same _ _ = false

same_refl : (k : Key ℕ ℕ) → same k k ≡ true
same_refl (completion a) = ground arith
same_refl (timeout a) = ground arith
same_refl deadletter = refl

-- The subscriptions as a function; to subscribe twice is an error.
abbrev table : Subscriptions (Key ℕ ℕ) (Key ℕ ℕ → Bool)
table = record {
  create =
      λ k o. if o k then throw rc_not_implemented else ok (λ q. if same k q then true else o q);
  destroy = λ k o q. if same k q then false else o q;
  holds = λ k o. o k;
}

abbrev value : (Key ℕ ℕ → Bool) → Result (Key ℕ ℕ → Bool) → Key ℕ ℕ → Bool
value blank (ok o) = o
value blank (throw e) = blank

created :
    (taken : Bool) (v o' : Key ℕ ℕ → Bool)
    → (if taken then throw rc_not_implemented else ok v) ≡ ok o'
    → v ≡ o'
created true v o' e = ground (arith, e)
created false v o' e = ap (value v) e

create_keeps :
    (k q : Key ℕ ℕ) (o o' : Key ℕ ℕ → Bool)
    → table.create k o ≡ ok o'
    → table.holds q o ≡ true
    → table.holds q o' ≡ true
create_keeps k q o o' e h =
    subst (λ p. p q ≡ true) (created (o k) (λ q. if same k q then true else o q) o' e)
      (ground (arith, h))

create_self :
    (k : Key ℕ ℕ) (o o' : Key ℕ ℕ → Bool) → table.create k o ≡ ok o' → table.holds k o' ≡ true
create_self k o o' e =
    subst (λ p. p k ≡ true) (created (o k) (λ q. if same k q then true else o q) o' e)
      (ground (arith, same_refl k))

table-IsSubscriptions : IsSubscriptions table
table-IsSubscriptions = record {
  create_self = create_self;
  create_keeps = create_keeps;
  destroy_self = λ k o. ground (arith, same_refl k);
  destroy_keeps = λ k q o h. ground (arith, h);
}

abbrev request : OpData ℕ ℕ
request = record {
  status = not_activated;
  completion_handlers = 1 ∷ 2 ∷ [];
  timeout_handlers = 5 ∷ [];
  timer = false;
}

abbrev nobody : Key ℕ ℕ → Bool
nobody k = false

-- The second completion handler's message is already subscribed.
abbrev second_taken : Key ℕ ℕ → Bool
second_taken k = same k (completion 2)

refused : (activate_op table (ok tt) request second_taken).2 ≡ throw rc_not_implemented
unfolding activate_op do_activation_actions create_each
refused = refl

accepted : (activate_op table (ok tt) request nobody).2 ≡ ok tt
unfolding activate_op do_activation_actions create_each create_timeouts
accepted = refl

abbrev defined : DefinitionPoint ℕ ℕ (Key ℕ ℕ → Bool)
defined = record { is_activable = true; op = request; owner = second_taken }

-- The second activation of a definition point leaves the activated operation alone.
abbrev fresh : DefinitionPoint ℕ ℕ (Key ℕ ℕ → Bool)
fresh = record { is_activable = true; op = request; owner = nobody }

again :
    let w = (activate table (ok tt) fresh).0 in
    (w.op.status ≡ activated) × (activate table (ok tt) w ≡ (w, throw rc_op_cant_be_activated))
unfolding activate activate_op do_activation_actions create_each create_timeouts ensure_activable
again = (refl, refl)

activate_all_or_nothing_example :
    let (w', done) = activate table (ok tt) defined in
    (w'.is_activable ≡ false)
    × (((true ≡ false) × (w' ≡ defined) × (done ≡ throw rc_op_cant_be_activated))
        ⊎ ((true ≡ true)
            × (((done ≡ ok tt)
                  × (w'.op.status ≡ activated)
                  × (w'.op.timer ≡ true)
                  × Subscribed table table-IsSubscriptions request w'.owner)
                ⊎ (((e : Error) × (done ≡ throw e))
                    × (w'.op.status ≡ cancelled)
                    × (w'.op.timer ≡ false)
                    × Unsubscribed table table-IsSubscriptions request w'.owner))))
activate_all_or_nothing_example =
    activate_all_or_nothing table table-IsSubscriptions (ok tt) defined

abbrev running : OpData ℕ ℕ
running = record request { status = activated; timer = true }

abbrev all_there : Key ℕ ℕ → Bool
all_there k = true

all_there-Subscribed : Subscribed table table-IsSubscriptions running all_there
all_there-Subscribed = record {
  completions_held = (refl, (refl, tt));
  timeouts_held = (refl, tt);
  deadletter_held = refl;
}

abbrev later : List (Event ℕ ℕ)
later = message (timeout 5) ∷ cancels ∷ message (completion 1) ∷ []

first_end_example :
    let (op', o') = run table (message (completion 2) ∷ later) running all_there in
    (op'.status ≡ end_of {C = ℕ} {St = ℕ} (message (completion 2)))
    × (op'.timer ≡ false)
    × Unsubscribed table table-IsSubscriptions running o'
first_end_example =
    first_end table table-IsSubscriptions (message (completion 2)) later running all_there refl
      all_there-Subscribed ((1, refl), tt) ((0, refl), ((0, refl), tt))
