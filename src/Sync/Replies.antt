-- ===== src/Sync/Replies.antt =====
-- What the sender of a request gets, and what the receiver's calls of `make_reply` do.
use so5extra.Prelude.{
  ℕ, ◌≡◌, refl, ◌∙◌, ap, Bool, true, false, Option, none, some, List, [], ◌∷◌, arith, if◌then◌else◌,
}
use so5extra.So5.{Result, ok, throw}
use so5extra.Sync.ReplyChains.{Chains, IsChains}
use so5extra.Sync.{
  mchain, RequestReply, new_request, query_actual_reply_target, close_target, make_reply, initiate,
  Event, replies, drops, serve, ask_opt_value, ask_value, rc_reply_was_sent, rc_no_reply,
}

module _ {R : Type 0} where
  -- The value of the first call of `make_reply`, if the message lives until then.
  unfoldable pub first_reply : List (Event R) → Option R
  first_reply [] = none
  first_reply (replies r ∷ es) = some r
  first_reply (drops ∷ es) = none

  unfoldable pub is_dropped : List (Event R) → Bool
  is_dropped [] = false
  is_dropped (replies r ∷ es) = is_dropped es
  is_dropped (drops ∷ es) = true

  -- The calls of `make_reply` while the message lives: all but the first throw.
  unfoldable pub answers : Bool → List (Event R) → List (Result (Unit {0}))
  answers sent [] = []
  answers sent (replies r ∷ es) =
      (if sent then throw rc_reply_was_sent else ok tt) ∷ answers true es
  answers sent (drops ∷ es) = []

  abbrev pub one : Option R → List R
  one none = []
  one (some r) = r ∷ []

  head_one : (o : Option R) → elim (one o) as (λ _. Option R) [ [] ↦ none | r ∷ _ ↦ some r ] ≡ o
  head_one none = refl
  head_one (some r) = refl

module _ {Q R O : Type 0} (s : Chains R O) (law : IsChains s) where
  -- The chain, and the outcomes of the calls, after a reply is sent.
  serve_more :
      (es : List (Event R)) (q : RequestReply Q) (ch : ℕ) (o : O)
      → q.reply_target ≡ mchain ch
      → q.reply_sent ≡ true
      → s.is_closed ch o ≡ false
      → let (o', results) = serve s es q o in
        (s.contents ch o' ≡ s.contents ch o)
        × (s.is_closed ch o' ≡ is_dropped es)
        × (results ≡ answers true es)
  unfolding serve make_reply close_target is_dropped answers
  serve_more [] q ch o t b c = (refl, c, refl)
  serve_more (drops ∷ es) q ch o t b c = ground (arith, t, law.closed ch o)
  serve_more (replies r ∷ es) q ch o t b c = ground (arith, serve_more es q ch o t b c)

  serve_first :
      (es : List (Event R)) (q : RequestReply Q) (ch : ℕ) (o : O)
      → q.reply_target ≡ mchain ch
      → q.reply_sent ≡ false
      → s.contents ch o ≡ []
      → s.is_closed ch o ≡ false
      → let (o', results) = serve s es q o in
        (s.contents ch o' ≡ one (first_reply es))
        × (s.is_closed ch o' ≡ is_dropped es)
        × (results ≡ answers false es)
  unfolding serve make_reply close_target is_dropped answers first_reply query_actual_reply_target
  serve_first [] q ch o t b e c = (e, c, refl)
  serve_first (drops ∷ es) q ch o t b e c = ground (arith, t, e, law.closed ch o)
  serve_first (replies r ∷ es) q ch o t b e c =
      let (o', ok', held, open') = law.sent ch r o e c in
      ground (
        arith,
        t,
        b,
        ok',
        held,
        open',
        serve_more es (record q { reply_sent = true }) ch o' t refl open',
      )

  -- The request that `initiate` sends: every call of `make_reply` but the first one throws and sends
  -- nothing, until the message is destroyed; the chain is closed exactly when the message is destroyed, and
  -- it holds the first reply and no other.
  pub initiate-answers :
      (es : List (Event R)) (request : Q) (o : O)
      → let (ch, o') = s.create_mchain o in
        let (o'', results) = serve s es (new_request (mchain ch) request) o' in
        (initiate s (ok tt) request o ≡ (o', ok (new_request (mchain ch) request, ch)))
        × (results ≡ answers false es)
        × (s.is_closed ch o'' ≡ is_dropped es)
        × (s.contents ch o'' ≡ one (first_reply es))
  unfolding initiate new_request
  initiate-answers es request o =
      let (ch, o') = s.create_mchain o in
      let (empty, open') = law.created o in
      let (held, closed, results) =
        serve_first es (new_request (mchain ch) request) ch o' refl refl empty open' in
      (refl, results, closed, held)

  received-first_reply :
      (es : List (Event R)) (request : Q) (o : O)
      → let (ch, o') = s.create_mchain o in
        s.received ch (serve s es (new_request (mchain ch) request) o').0 ≡ first_reply es
  received-first_reply es request o =
      let (ch, o') = s.create_mchain o in
      let o'' = (serve s es (new_request (mchain ch) request) o').0 in
      let (started, results, closed, held) = initiate-answers es request o in
      law.received_first ch o''
      ∙ ap (λ l. elim l as (λ _. Option R) [ [] ↦ none | r ∷ _ ↦ some r ]) held
      ∙ head_one (first_reply es)

  -- `ask_value` returns the first reply that is made before the destruction of the message and before the
  -- waiting ends; if there is none it throws `rc_no_reply`. Whether the type of replies has a default
  -- constructor makes no difference, and `ask_opt_value` gives the same reply as an option.
  pub ask_value-first_reply :
      (blank : Option R) (es : List (Event R)) (request : Q) (o : O)
      → ((ask_value s blank (ok tt) es request o).1
          ≡ elim (first_reply es) as (λ _. Result R) [ none ↦ throw rc_no_reply | some r ↦ ok r ])
        × ((ask_opt_value s (ok tt) es request o).1 ≡ ok (first_reply es))
  unfolding ask_value ask_opt_value initiate
  ask_value-first_reply none es request o = ground (arith, received-first_reply es request o)
  ask_value-first_reply (some blank) es request o =
      ground (arith, received-first_reply es request o)
