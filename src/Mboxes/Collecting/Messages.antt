-- ===== src/Mboxes/Collecting/Messages.antt =====
-- The builder of bunches of messages does what the mbox asks of it.
use so5extra.Prelude.{
  ℕ, suc, ◌+◌, ◌-◌, ◌≡◌, ◌<◌, refl, Bool, true, Option, none, some, List, [], ◌∷◌, ◌++◌, map, arith,
  length, ltb, leb, set, replicate, sym, ◌∙◌, ap, length-append, length-replicate, subst,
}
use so5extra.Mboxes.Collecting.{
  IsBunchBuilder, MessagesBuilder, detect_message_to_store, store, messages_builder,
}

nothing_left : (n k : ℕ) → k ≡ n → n - k ≡ 0
nothing_left n k e = omega (arith, e)

minus_zero : (n : ℕ) → n - 0 ≡ n
minus_zero n = omega arith

module _ {M : Type 0} where
  -- The storage with the messages `ms` in front and `k` null pointers behind.
  abbrev pads : ℕ → List M → List (Option M)
  pads k [] = replicate k none
  pads k (m ∷ ms) = some m ∷ pads k ms

  set-pads :
      (k : ℕ) (ms : List M) (x : M)
      → set (pads (suc k) ms) (length ms) (some x) ≡ pads k (ms ++ x ∷ [])
  set-pads k [] x = refl
  set-pads k (m ∷ ms) x = ap (λ l. some m ∷ l) (set-pads k ms x)

  length-pads : (k : ℕ) (ms : List M) → length (pads k ms) ≡ length ms + k
  length-pads k [] = omega (arith, length-replicate {A = Option M} k none)
  length-pads k (m ∷ ms) = omega (arith, length-pads k ms)

  pads_zero : (ms : List M) → pads 0 ms ≡ map some ms
  pads_zero [] = refl
  pads_zero (m ∷ ms) = ap (λ l. some m ∷ l) (pads_zero ms)

  abbrev current : ℕ → List M → Option (List (Option M))
  current n [] = none
  current n (m ∷ ms) = some (pads (n - length (m ∷ ms)) (m ∷ ms))

  abbrev HoldsMessages : ℕ → MessagesBuilder M → List M → Type 0
  HoldsMessages n b ms = (b.collected_messages ≡ length ms) × (b.current_msg ≡ current n ms)

  abbrev storage_or : ℕ → Option (List (Option M)) → List (Option M)
  storage_or n none = replicate n none
  storage_or n (some storage) = storage

  current-pads : (n : ℕ) (ms : List M) → storage_or n (current n ms) ≡ pads (n - length ms) ms
  current-pads n [] = ap (λ k. replicate k none) (sym (minus_zero n))
  current-pads n (m ∷ ms) = refl

  pub current_full :
      (n : ℕ) (ms : List M) → length ms ≡ n → 0 < n → current n ms ≡ some (map some ms)
  current_full n [] e pos = ground (arith, e, pos)
  current_full n (m ∷ ms) e pos =
      ap some (ap (λ k. pads k (m ∷ ms)) (nothing_left n (length (m ∷ ms)) e) ∙ pads_zero (m ∷ ms))

  one_left :
      (n : ℕ) (ms : List M) (x : M)
      → length ms < n
      → n - length ms ≡ suc (n - length (ms ++ x ∷ []))
  one_left n ms x lt = omega (arith, length-append ms (x ∷ []))

  set-current :
      (n : ℕ) (ms : List M) (x : M)
      → length ms < n
      → set (storage_or n (current n ms)) (length ms) (some x)
        ≡ pads (n - length (ms ++ x ∷ [])) (ms ++ x ∷ [])
  set-current n ms x lt =
      ap (λ l. set l (length ms) (some x)) (current-pads n ms)
      ∙ ap (λ k. set (pads k ms) (length ms) (some x)) (one_left n ms x lt)
      ∙ set-pads (n - length (ms ++ x ∷ [])) ms x

  room :
      (n : ℕ) (ms : List M)
      → length ms < n
      → ltb (length ms) (length (storage_or n (current n ms))) ≡ true
  room n ms lt = rw (current-pads n ms, length-pads (n - length ms) ms) (ground arith)

  current-append :
      (n : ℕ) (ms : List M) (x : M)
      → some (pads (n - length (ms ++ x ∷ [])) (ms ++ x ∷ [])) ≡ current n (ms ++ x ∷ [])
  current-append n [] x = refl
  current-append n (m ∷ ms) x = refl

module _ {M : Type 0} (is_enveloped : M → Bool) (extract_payload : M → Option M) (n : ℕ) where
  held : List M → MessagesBuilder M
  held ms = record { current_msg = current n ms; collected_messages = length ms }

  as_held : (b : MessagesBuilder M) (ms : List M) → HoldsMessages n b ms → b ≡ held ms
  unfolding held
  as_held b ms h = ground (arith, h.0, h.1)

  stored_at :
      (m x : M) (ms : List M)
      → detect_message_to_store is_enveloped extract_payload m ≡ some x
      → length ms < n
      → store is_enveloped extract_payload m n (held ms)
        ≡ some (record {
          current_msg = current n (ms ++ x ∷ []);
          collected_messages = length (ms ++ x ∷ []);
        })
  unfolding store held
  stored_at m x ms e lt = ground (
    arith,
    e,
    room n ms lt,
    set-current n ms x lt,
    current-append n ms x,
    length-append ms (x ∷ []),
  )

  pub store_lem :
      (m x : M) (b : MessagesBuilder M) (ms : List M)
      → detect_message_to_store is_enveloped extract_payload m ≡ some x
      → HoldsMessages n b ms
      → length ms < n
      → store is_enveloped extract_payload m n b
        ≡ some (record {
          current_msg = current n (ms ++ x ∷ []);
          collected_messages = length (ms ++ x ∷ []);
        })
  unfolding store
  store_lem m x b ms e h lt =
      subst
        (λ c.
          store is_enveloped extract_payload m n c
          ≡ some (record {
            current_msg = current n (ms ++ x ∷ []);
            collected_messages = length (ms ++ x ∷ []);
          }))
        (sym (as_held b ms h)) (stored_at m x ms e lt)

  unfoldable pub messages-IsBunchBuilder :
      IsBunchBuilder n (messages_builder is_enveloped extract_payload)
  unfolding messages_builder store
  messages-IsBunchBuilder = record {
    Holds = HoldsMessages n;
    Shows = λ c ms. c ≡ some (map some ms);
    stored = detect_message_to_store is_enveloped extract_payload;
    new_lem = (refl, refl);
    store_none = λ m b e. ground (arith, e);
    store_some = λ m x b ms e h lt. (_, store_lem m x b ms e h lt, (refl, refl));
    ready_lem = λ b ms h. ap (leb n) h.0;
    extract_lem = λ b ms h e pos. (h.1 ∙ current_full n ms e pos, (refl, refl));
  }
