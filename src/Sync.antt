-- ===== src/Sync.antt =====
-- dev/so_5_extra/sync/pub.hpp: a request that carries the target of its reply. `Q` stands for requests, `R`
-- for replies, and `O` for the state of the chains and the mboxes, which are SObjectizer's.
pub mod ReplyChains
pub mod Replies
mod Tests
use so5extra.Prelude.{ℕ, ◌+◌, Bool, true, false, Option, none, some, List, [], ◌∷◌, if◌then◌else◌}
use so5extra.So5.{Error, extra, Result, ok, throw, ◌>>=◌}
use so5extra.So5.Errors.{sync_errors}
use so5extra.Sync.ReplyChains.{Chains}

abbrev pub rc_reply_was_sent : Error
rc_reply_was_sent = extra sync_errors

abbrev pub rc_no_reply : Error
rc_no_reply = extra (sync_errors + 1)

pub data ReplyTarget : Type 0 where
  mchain mbox : ℕ → ReplyTarget

pub data CloseReplyChainFlag : Type 0 where
  close do_not_close : CloseReplyChainFlag

-- `request_reply_t`.
pub record RequestReply (Q : Type 0) : Type 0 where
  pub request : Q
  pub reply_target : ReplyTarget
  pub reply_sent : Bool

unfoldable pub new_request : {Q : Type 0} → ReplyTarget → Q → RequestReply Q
new_request reply_target request = record {
  request = request;
  reply_target = reply_target;
  reply_sent = false;
}

module _ {R O : Type 0} (s : Chains R O) where
  unfoldable pub query_actual_reply_target : ReplyTarget → ℕ
  query_actual_reply_target (mchain ch) = s.as_mbox ch
  query_actual_reply_target (mbox m) = m

  -- The destructor of `reply_target_holder_t`.
  unfoldable pub close_target : ReplyTarget → O → O
  close_target (mchain ch) o = s.close_retain_content ch o
  close_target (mbox m) o = o

  unfoldable pub make_reply :
      {Q : Type 0} → R → RequestReply Q → O → RequestReply Q × O × Result (Unit {0})
  unfolding query_actual_reply_target
  make_reply r q o =
      if q.reply_sent
      then (q, o, throw rc_reply_was_sent)
      else (elim (s.send (query_actual_reply_target q.reply_target) r o) [
        | throw e ↦ (q, o, throw e)
        | ok o' ↦ (record q { reply_sent = true }, o', ok tt)
      ])

  -- `initiate`: the message, the chain for its reply, and the new state. `sent` tells what `send` does with
  -- the message for the target: if it throws, the message is destroyed.
  unfoldable pub initiate :
      {Q : Type 0} → Result (Unit {0}) → Q → O → O × Result (RequestReply Q × ℕ)
  unfolding new_request close_target
  initiate sent request o =
      let (ch, o') = s.create_mchain o in
      let msg = new_request (mchain ch) request in
      elim sent [
        | throw e ↦ (close_target msg.reply_target o', throw e)
        | ok _ ↦ (o', ok (msg, ch))
      ]

  -- The three forms of `initiate_with_custom_reply_to`: with a mbox, with the direct mbox of an agent,
  -- and with a chain. The message that they send.
  unfoldable pub request_to_mbox : {Q : Type 0} → ℕ → Q → RequestReply Q
  unfolding new_request
  request_to_mbox reply_to request = new_request (mbox reply_to) request

  unfoldable pub request_to_chain : {Q : Type 0} → ℕ → CloseReplyChainFlag → Q → RequestReply Q
  unfolding new_request
  request_to_chain reply_ch close request = new_request (mchain reply_ch) request
  request_to_chain reply_ch do_not_close request = new_request (mbox (s.as_mbox reply_ch)) request

-- What happens to the message at its receiver: a call of `make_reply`, or its destruction.
pub data Event (R : Type 0) : Type 0 where
  replies : R → Event R
  drops : Event R

module _ {R O : Type 0} (s : Chains R O) where
  -- The new state, and how each call of `make_reply` ends; there is none after the destruction.
  unfoldable pub serve :
      {Q : Type 0} → List (Event R) → RequestReply Q → O → O × List (Result (Unit {0}))
  unfolding make_reply close_target
  serve [] q o = (o, [])
  serve (replies r ∷ es) q o =
      let (q', o', answer) = make_reply s r q o in
      let (o'', answers) = serve es q' o' in (o'', answer ∷ answers)
  serve (drops ∷ es) q o = (close_target s q.reply_target o, [])

  -- `es` is what becomes of the message until `receive` ends.
  unfoldable pub ask_opt_value :
      {Q : Type 0} → Result (Unit {0}) → List (Event R) → Q → O → O × Result (Option R)
  unfolding initiate serve
  ask_opt_value sent es request o =
      let (o', initiated) = initiate s sent request o in
      elim initiated [
        | throw e ↦ (o', throw e)
        | ok (msg, ch) ↦ let (o'', answers) = serve es msg o' in (o'', ok (s.received ch o''))
      ]

  -- The handler that `receive` gets, with the two variables that it writes.
  pub write_result : Option R → R → R × Bool
  write_result none result = (result, false)
  write_result (some r) result = (r, true)

  pub check_result : R × Bool → Result R
  check_result (result, result_received) = if result_received then ok result else throw rc_no_reply

  unfoldable pub ask_default_constructible_value :
      {Q : Type 0} → R → Result (Unit {0}) → List (Event R) → Q → O → O × Result R
  unfolding initiate serve write_result check_result
  ask_default_constructible_value blank sent es request o =
      let (o', initiated) = initiate s sent request o in
      elim initiated [
        | throw e ↦ (o', throw e)
        | ok (msg, ch) ↦
            let (o'', answers) = serve es msg o' in
            (o'', check_result (write_result (s.received ch o'') blank))
      ]

  unfoldable pub ask_not_default_constructible_value :
      {Q : Type 0} → Result (Unit {0}) → List (Event R) → Q → O → O × Result R
  unfolding ask_opt_value
  ask_not_default_constructible_value sent es request o =
      let (o', result) = ask_opt_value sent es request o in
      (o', do r ← result; elim r [ none ↦ throw rc_no_reply | some reply ↦ ok reply ])

  -- `ask_value`; the value is that of the default constructor, if the type has one.
  unfoldable pub ask_value :
      {Q : Type 0} → Option R → Result (Unit {0}) → List (Event R) → Q → O → O × Result R
  unfolding ask_default_constructible_value ask_not_default_constructible_value
  ask_value (some blank) sent es request o = ask_default_constructible_value blank sent es request o
  ask_value none sent es request o = ask_not_default_constructible_value sent es request o
