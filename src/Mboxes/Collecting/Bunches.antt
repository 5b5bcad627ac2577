-- ===== src/Mboxes/Collecting/Bunches.antt =====
-- The mbox over any builder that does what it has to: the messages are cut into bunches.
use so5extra.Prelude.{
  ℕ, ◌≡◌, ◌<◌, refl, true, false, Option, none, some, List, [], ◌∷◌, ◌++◌, arith, inl, inr,
  Option-cases, Bool-cases, length, leb, sym, subst, ◌∙◌, append_assoc, append-nil, length-append,
}
use so5extra.So5.{MboxRef, Mutability, ok, DeliveryMode}
use so5extra.Mboxes.Collecting.{
  BunchBuilder, IsBunchBuilder, Mbox, Bunch, make, collect_new_message,
  check_mutability_validity_for_target_mbox,
}

module _ {B M C : Type 0} (o : BunchBuilder B M C) where
  -- The deliveries of the right type, in the order of the lock; with the bunches that they send.
  unfoldable pub collect_all : List (DeliveryMode × M) → Mbox B → Option (Mbox B × List (Bunch C))
  unfolding collect_new_message
  collect_all [] b = some (b, [])
  collect_all ((mode, m) ∷ l) b = elim (collect_new_message o mode m b) [
    | none ↦ none
    | some (b', sent) ↦ elim (collect_all l b') [
      | none ↦ none
      | some (b'', later) ↦ some (b'', (elim sent [ none ↦ later | some bunch ↦ bunch ∷ later ]))
    ]
  ]

  cons-kept :
      (mode : DeliveryMode) (m : M) (l : List (DeliveryMode × M)) (b b' b'' : Mbox B)
      (later : List (Bunch C))
      → collect_new_message o mode m b ≡ some (b', none)
      → collect_all l b' ≡ some (b'', later)
      → collect_all ((mode, m) ∷ l) b ≡ some (b'', later)
  unfolding collect_all
  cons-kept mode m l b b' b'' later e f = ground (arith, e, f)

  cons-sent :
      (mode : DeliveryMode) (m : M) (l : List (DeliveryMode × M)) (b b' b'' : Mbox B) (c : Bunch C)
      (later : List (Bunch C))
      → collect_new_message o mode m b ≡ some (b', some c)
      → collect_all l b' ≡ some (b'', later)
      → collect_all ((mode, m) ∷ l) b ≡ some (b'', c ∷ later)
  unfolding collect_all
  cons-sent mode m l b b' b'' c later e f = ground (arith, e, f)

  step-kept :
      (mode : DeliveryMode) (m : M) (b : Mbox B) (b' : B)
      → o.store m b.messages_to_collect b.msg_builder ≡ some b'
      → o.is_ready_to_be_sent b.messages_to_collect b' ≡ false
      → collect_new_message o mode m b ≡ some (record b { msg_builder = b' }, none)
  unfolding collect_new_message
  step-kept mode m b b' e f = ground (arith, e, f)

  step-sent :
      (mode : DeliveryMode) (m : M) (b : Mbox B) (b' : B)
      → o.store m b.messages_to_collect b.msg_builder ≡ some b'
      → o.is_ready_to_be_sent b.messages_to_collect b' ≡ true
      → collect_new_message o mode m b
        ≡ some (
          record b { msg_builder = (o.extract_message b').1 },
          some (record {
            delivery_mode = mode;
            messages = (o.extract_message b').0;
            redirection_deep = 1;
          }),
        )
  unfolding collect_new_message
  step-sent mode m b b' e f = ground (arith, e, f)

module _ {B M C : Type 0} (n : ℕ) (o : BunchBuilder B M C) (law : IsBunchBuilder n o) where
  -- The messages that are stored, of those that come.
  unfoldable pub all_stored : List (DeliveryMode × M) → List M
  all_stored [] = []
  all_stored ((mode, m) ∷ l) =
      let rest = all_stored l in elim (law.stored m) [ none ↦ rest | some x ↦ x ∷ rest ]

  -- The bunches show the messages `ms`, `n` in each, in their order; those of `pending` are left.
  abbrev pub IsCut : List (Bunch C) → List M → List M → Type 0
  IsCut [] ms pending = ms ≡ pending
  IsCut (c ∷ cs) ms pending =
      (first : List M) × (rest : List M) × law.Shows c.messages first
      × (length first ≡ n)
      × (ms ≡ first ++ rest)
      × IsCut cs rest pending

  abbrev pub Collected : Mbox B → List M → List (DeliveryMode × M) → Type 0
  Collected b ms l =
      (b' : Mbox B) × (sent : List (Bunch C)) × (pending : List M) × (collect_all o l b
        ≡ some (b', sent))
      × law.Holds b'.msg_builder pending
      × (length pending < n)
      × IsCut sent (ms ++ all_stored l) pending

  not_yet : (ms : List M) → length ms < n → leb n (length ms) ≡ false
  not_yet ms lt = ground arith

  full_length :
      (ms : List M) (x : M)
      → length ms < n
      → leb n (length (ms ++ x ∷ [])) ≡ true
      → length (ms ++ x ∷ []) ≡ n
  full_length ms x lt full = ground (arith, length-append ms (x ∷ []))

  not_full_length :
      (ms : List M) (x : M) → leb n (length (ms ++ x ∷ [])) ≡ false → length (ms ++ x ∷ []) < n
  not_full_length ms x e = ground arith

  made_new :
      (mutability : Mutability) (id : ℕ) (target : MboxRef) (b : Mbox B)
      → make o mutability id target n ≡ ok b
      → (b.messages_to_collect ≡ n) × (b.msg_builder ≡ o.new)
  unfolding make check_mutability_validity_for_target_mbox
  made_new mutability id target b made = ground (arith, made)

  collected :
      (l : List (DeliveryMode × M)) (b : Mbox B) (ms : List M)
      → b.messages_to_collect ≡ n
      → law.Holds b.msg_builder ms
      → length ms < n
      → Collected b ms l
  unfolding collect_all all_stored
  collected [] b ms size h lt = (b, [], ms, refl, h, lt, append-nil ms)
  collected ((mode, m) ∷ l) b ms size h lt = elim (Option-cases (law.stored m)) [
    | inl nothing ↦
        rw (nothing, all_stored)
          (let kept =
              step-kept o mode m b b.msg_builder (rw size (law.store_none m b.msg_builder nothing))
                (rw size (law.ready_lem b.msg_builder ms h ∙ not_yet ms lt)) in
            let (b', sent, pending, e, p, small, cut) = collected l b ms size h lt in
            (b', sent, pending, cons-kept o mode m l b b b' sent kept e, p, small, cut))
    | inr (x, something) ↦
        rw (something, all_stored)
          (let (stored, e, h') = law.store_some m x b.msg_builder ms something h lt in
            let e' = subst (λ k. o.store m k b.msg_builder ≡ some stored) (sym size) e in
            let ready = law.ready_lem stored (ms ++ x ∷ []) h' in
            let ready' =
              subst (λ k. o.is_ready_to_be_sent k stored ≡ leb n (length (ms ++ x ∷ []))) (sym size)
                ready in
            elim (Bool-cases (leb n (length (ms ++ x ∷ [])))) [
              | inl full ↦
                  let (shows, holds) =
                    law.extract_lem stored (ms ++ x ∷ []) h' (full_length ms x lt full)
                      (omega arith) in
                  let b1 = record b { msg_builder = (o.extract_message stored).1 } in
                  let (b', sent, pending, f, p, small, cut) =
                    collected l b1 [] size holds (omega arith) in
                  (
                    b',
                    _,
                    pending,
                    cons-sent o mode m l b b1 b' _ sent
                        (step-sent o mode m b stored e' (ready' ∙ full)) f,
                    p,
                    small,
                    (
                      ms ++ x ∷ [],
                      all_stored l,
                      shows,
                      full_length ms x lt full,
                      sym (append_assoc ms (x ∷ []) (all_stored l)),
                      cut,
                    ),
                  )
              | inr not_full ↦
                  let b1 = record b { msg_builder = stored } in
                  let (b', sent, pending, f, p, small, cut) =
                    collected l b1 (ms ++ x ∷ []) size h' (not_full_length ms x not_full) in
                  (
                    b',
                    sent,
                    pending,
                    cons-kept o mode m l b b1 b' sent
                        (step-kept o mode m b stored e' (ready' ∙ not_full)) f,
                    p,
                    small,
                    subst (λ l. IsCut sent l pending) (append_assoc ms (x ∷ []) (all_stored l)) cut,
                  )
            ])
  ]

  pub made-Collected :
      (mutability : Mutability) (id : ℕ) (target : MboxRef) (b : Mbox B)
      (l : List (DeliveryMode × M))
      → 0 < n
      → make o mutability id target n ≡ ok b
      → Collected b [] l
  made-Collected mutability id target b l pos made =
      let (size, fresh) = made_new mutability id target b made in
      collected l b [] size (subst (λ c. law.Holds c []) (sym fresh) law.new_lem) pos
