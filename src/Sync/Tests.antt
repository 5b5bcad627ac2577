-- ===== src/Sync/Tests.antt =====
-- Chains that obey the laws, and the theorems on requests at concrete inputs. A chain is a bounded queue of
-- one message, as the ring of Mchains/FixedSize is, with a flag.
use so5extra.Prelude.{
  ℕ, ◌≡◌, refl, Bool, true, false, Option, none, some, List, [], ◌∷◌, ◌++◌, arith, get_elem?, set,
  length, if◌then◌else◌, get_elem?-set_there, Option-cases, inl, inr,
}
use so5extra.So5.{rc_not_implemented, Result, ok, throw}
use so5extra.Mchains.FixedSize.Fifo.{fifo_step, pushes, refused, accepted, shown, answered}
use so5extra.Sync.ReplyChains.{Chains, IsChains}
use so5extra.Sync.{
  mchain, new_request, initiate, Event, replies, drops, serve, ask_opt_value, ask_value,
  rc_no_reply,
}
use so5extra.Sync.Replies.{
  first_reply, is_dropped, answers, one, initiate-answers, ask_value-first_reply,
}

record Chain : Type 0 where
  pub messages : List ℕ
  pub closed : Bool

abbrev messages_at : Option Chain → List ℕ
messages_at none = []
messages_at (some c) = c.messages

abbrev closed_at : Option Chain → Bool
closed_at none = true
closed_at (some c) = c.closed

send_to : ℕ → ℕ → List Chain → Result (List Chain)
send_to m r o = elim (get_elem? o m) [
  | none ↦ ok o
  | some c ↦
      let (messages, seen) = fifo_step 1 0 c.messages (pushes r) in
      if c.closed then ok o else (elim seen [
        | accepted ↦ ok (set o m (record c { messages = messages }))
        | refused ↦ throw rc_not_implemented
        | shown _ ↦ throw rc_not_implemented
        | answered _ ↦ throw rc_not_implemented
      ])
]

close_at : ℕ → List Chain → List Chain
close_at ch o = elim (get_elem? o ch) [ none ↦ o | some c ↦ set o ch (record c { closed = true }) ]

abbrev table : Chains ℕ (List Chain)
table = record {
  create_mchain = λ o. (length o, o ++ record { messages = []; closed = false } ∷ []);
  as_mbox = λ ch. ch;
  send = send_to;
  close_retain_content = close_at;
  received = λ ch o. elim (messages_at (get_elem? o ch)) [ [] ↦ none | r ∷ _ ↦ some r ];
  contents = λ ch o. messages_at (get_elem? o ch);
  is_closed = λ ch o. closed_at (get_elem? o ch);
}

last : (o : List Chain) (c : Chain) → get_elem? (o ++ c ∷ []) (length o) ≡ some c
last [] c = refl
last (x ∷ o) c = last o c

created :
    (o : List Chain)
    → let (ch, o') = table.create_mchain o in
      (table.contents ch o' ≡ []) × (table.is_closed ch o' ≡ false)
created o = ground (arith, last o (record { messages = []; closed = false }))

sent :
    (ch r : ℕ) (o : List Chain)
    → table.contents ch o ≡ []
    → table.is_closed ch o ≡ false
    → (o' : List Chain) × (table.send (table.as_mbox ch) r o ≡ ok o')
      × (table.contents ch o' ≡ r ∷ [])
      × (table.is_closed ch o' ≡ false)
unfolding send_to fifo_step
sent ch r o e c = elim (Option-cases (get_elem? o ch)) [
  | inl h ↦ ground (arith, h, c)
  | inr (k, h) ↦
      let k' : Chain = record { messages = r ∷ []; closed = false } in
      (
        set o ch k',
        ground (arith, h, e, c),
        ground (arith, get_elem?-set_there o ch k' k h),
        ground (arith, get_elem?-set_there o ch k' k h),
      )
]

closed :
    (ch : ℕ) (o : List Chain)
    → let o' = table.close_retain_content ch o in
      (table.contents ch o' ≡ table.contents ch o) × (table.is_closed ch o' ≡ true)
unfolding close_at
closed ch o = elim (Option-cases (get_elem? o ch)) [
  | inl h ↦ ground (arith, h)
  | inr (k, h) ↦ ground (arith, h, get_elem?-set_there o ch (record k { closed = true }) k h)
]

table-IsChains : IsChains table
table-IsChains = record {
  created = created;
  sent = sent;
  closed = closed;
  received_first = λ ch o. refl;
}

abbrev question : ℕ
question = 70

-- The second reply is refused, and the message is destroyed.
abbrev service : List (Event ℕ)
service = replies 5 ∷ replies 6 ∷ drops ∷ []

initiate-answers_example :
    let (ch, o') = table.create_mchain [] in
    let (o'', results) = serve table service (new_request (mchain ch) question) o' in
    (initiate table (ok tt) question [] ≡ (o', ok (new_request (mchain ch) 70, ch)))
    × (results ≡ answers false service)
    × (table.is_closed ch o'' ≡ is_dropped service)
    × (table.contents ch o'' ≡ one (first_reply service))
initiate-answers_example = initiate-answers table table-IsChains service question []

ask_value-first_reply_example :
    ((ask_value table none (ok tt) (drops ∷ []) question []).1 ≡ throw rc_no_reply)
    × ((ask_opt_value table (ok tt) (drops ∷ []) question []).1 ≡ ok none)
unfolding first_reply
ask_value-first_reply_example =
    ask_value-first_reply table table-IsChains none (drops ∷ []) question []
