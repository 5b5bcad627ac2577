-- ===== src/Mboxes/InflightLimit/Senders.antt =====
-- Any number of threads in `do_deliver_message` at once: the increment, the check with what follows
-- it, and the destruction of an envelope are steps of their own, in any order.
use so5extra.Prelude.{
  ℕ, ◌+◌, ◌<◌, ◌≤◌, ◌≡◌, refl, sym, ◌∙◌, ap, subst, true, List, [], ◌∷◌, ◌++◌, arith, length, leb,
  if◌then◌else◌, length-split, Ord, dec_le,
}
use so5extra.So5.{ok, Delivery}
use so5extra.Mboxes.InflightLimit.{
  Mbox, World, Outcome, do_deliver_message, Incrementer, Envelope, counter_mod, increment,
  decrement, destroy_incrementer, do_not_decrement_in_destructor,
}

-- `senders` are the threads between the increment and the check.
pub record Sys (M : Type 0) : Type 0 where
  pub instances : ℕ
  pub senders : List (Incrementer × M)
  pub envelopes : List (Envelope M)

module _ {M : Type 0} (limit threads : ℕ) where
  pub data Step (s u : Sys M) : Type 0 where
    -- A thread enters and constructs its incrementer.
    enters :
        (msg : M)
        → length s.senders < threads
        → u ≡ record s {
          instances = (increment s.instances).0;
          senders = ((increment s.instances).1, msg) ∷ s.senders;
        }
        → Step s u
    -- The check passes: the message gets its envelope and is passed on.
    passes :
        (before after : List (Incrementer × M)) (i : Incrementer) (msg : M)
        → s.senders ≡ before ++ (i, msg) ∷ after
        → i.value ≤ limit
        → u ≡ record {
          instances = destroy_incrementer (do_not_decrement_in_destructor i) s.instances;
          senders = before ++ after;
          envelopes = record { payload = msg } ∷ s.envelopes;
        }
        → Step s u
    -- The check fails, or the envelope cannot be made: the destructor of the incrementer runs.
    leaves :
        (before after : List (Incrementer × M)) (i : Incrementer) (msg : M)
        → s.senders ≡ before ++ (i, msg) ∷ after
        → u ≡ record s { instances = destroy_incrementer i s.instances; senders = before ++ after }
        → Step s u
    -- The last reference to an envelope goes.
    dies :
        (before after : List (Envelope M)) (e : Envelope M)
        → s.envelopes ≡ before ++ e ∷ after
        → u ≡ record s { instances = decrement s.instances; envelopes = before ++ after }
        → Step s u

  pub data Reach : Sys M → Type 0 where
    start : Reach (record { instances = 0; senders = []; envelopes = [] })
    next : {s u : Sys M} → Reach s → Step s u → Reach u

  -- The senders whose check will pass.
  pub passing : List (Incrementer × M) → ℕ
  passing [] = 0
  passing ((i, _) ∷ l) = (if leb i.value limit then 1 else 0) + passing l

  -- No sender has been told not to decrement yet.
  abbrev pub Armed : List (Incrementer × M) → Type 0
  Armed [] = Unit
  Armed ((i, _) ∷ l) = (i.should_decrement_in_destructor ≡ true) × Armed l

  passing-split :
      (before after : List (Incrementer × M)) (i : Incrementer) (msg : M)
      → passing (before ++ (i, msg) ∷ after)
        ≡ (if leb i.value limit then 1 else 0) + passing (before ++ after)
  unfolding passing
  passing-split [] after i msg = refl
  passing-split ((j, m) ∷ before) after i msg = omega (arith, passing-split before after i msg)

  Armed-split :
      (before after : List (Incrementer × M)) (i : Incrementer) (msg : M)
      → Armed (before ++ (i, msg) ∷ after)
      → (i.should_decrement_in_destructor ≡ true) × Armed (before ++ after)
  Armed-split [] after i msg a = a
  Armed-split (p ∷ before) after i msg a =
      let rest = Armed-split before after i msg a.1 in (rest.0, (a.0, rest.1))

  pub record Inv (s : Sys M) : Type 0 where
    pub counted : s.instances ≡ length s.senders + length s.envelopes
    pub bounded : passing s.senders + length s.envelopes ≤ limit
    pub room : length s.senders ≤ threads
    pub armed : Armed s.senders

  passing-le : (l : List (Incrementer × M)) → passing l ≤ length l
  unfolding passing
  passing-le [] = omega arith
  passing-le ((i, m) ∷ l) = ground (arith, passing-le l)

  module _ (fits : limit + threads < counter_mod) where
    step-Inv : {s u : Sys M} → Inv s → Step s u → Inv u
    unfolding passing increment decrement destroy_incrementer do_not_decrement_in_destructor
    step-Inv {s} v (enters msg h e) = subst Inv (sym e) (record {
      counted = omega (arith, passing-le s.senders);
      bounded = ground (arith, passing-le s.senders);
      room = omega arith;
      armed = (refl, v.armed);
    })
    step-Inv {s} v (passes before after i msg split fit e) =
        let n = length-split s.senders before after (i, msg) split in
        let p = ap passing split ∙ passing-split before after i msg in
        let a = Armed-split before after i msg (subst Armed split v.armed) in
        subst Inv (sym e) (record {
          counted = omega (arith, n);
          bounded = ground (arith, p);
          room = omega (arith, n);
          armed = a.1;
        })
    step-Inv {s} v (leaves before after i msg split e) =
        let n = length-split s.senders before after (i, msg) split in
        let p = ap passing split ∙ passing-split before after i msg in
        let a = Armed-split before after i msg (subst Armed split v.armed) in
        subst Inv (sym e) (record {
          counted = ground (arith, n, a.0, passing-le s.senders);
          bounded = ground (arith, p);
          room = omega (arith, n);
          armed = a.1;
        })
    step-Inv {s} v (dies before after d split e) =
        let n = length-split s.envelopes before after d split in
        subst Inv (sym e) (record {
          counted = omega (arith, n, passing-le s.senders);
          bounded = omega (arith, n);
          room = v.room;
          armed = v.armed;
        })

    Reach-Inv : {s : Sys M} → Reach s → Inv s
    unfolding passing
    Reach-Inv start = omega arith
    Reach-Inv (next r st) = step-Inv (Reach-Inv r) st

    -- Whatever the threads do and in whatever order, the counter is the number of the senders between
    -- the increment and the check and of the living envelopes, and never more envelopes than the limit
    -- are alive. The limit and the number of threads together stay below 2 ^ 32.
    pub Reach-limit :
        {s : Sys M}
        → Reach s
        → (s.instances ≡ length s.senders + length s.envelopes) × (length s.envelopes ≤ limit)
    Reach-limit r = let v = Reach-Inv r in (v.counted, omega arith)

abbrev pub sys_of : {M : Type 0} → World M → Sys M
sys_of w = record { instances = w.instances; senders = []; envelopes = w.envelopes }

-- A whole `do_deliver_message` that returns is two steps of one thread: it enters, and then it passes
-- or leaves.
pub deliver-Steps :
    {T M : Type 0} ⦃ot : Ord T⦄ (m : Mbox T) (threads : ℕ) (d : Delivery T M) (w w' : World M)
    (o : Outcome T M)
    → 0 < threads
    → do_deliver_message m d w ≡ ok (w', o)
    → (u : Sys M) × Step m.limit threads (sys_of w) u × Step m.limit threads u (sys_of w')
unfolding do_deliver_message
deliver-Steps {M} m threads d w w' o h e = (u, enters d.message h refl, second)
  where
    i : Incrementer
    i = (increment w.instances).1

    u : Sys M
    u = record {
      instances = (increment w.instances).0;
      senders = (i, d.message) ∷ [];
      envelopes = w.envelopes;
    }

    second : Step m.limit threads u (sys_of w')
    second = elim (dec_le i.value m.limit) [
      | yes fits ↦ passes [] [] i d.message refl fits (ground arith)
      | no full ↦ leaves [] [] i d.message refl (ground arith)
    ]
