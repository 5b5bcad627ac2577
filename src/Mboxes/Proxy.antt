-- ===== src/Mboxes/Proxy.antt =====
-- dev/so_5_extra/mboxes/proxy.hpp: `simple_t`, which passes each call on to its underlying mbox. `D`
-- stands for mboxes; a null pointer is `none`.
use so5extra.Prelude.{ℕ, ◌+◌, Option, none, some}
use so5extra.So5.{MboxRef, MboxType, Error, extra, Result, ok, throw, ◌>>=◌, Delivery, Call}
use so5extra.So5.Errors.{mboxes_proxy_errors}

abbrev pub rc_nullptr_as_underlying_mbox : Error
rc_nullptr_as_underlying_mbox = extra (mboxes_proxy_errors + 1)

pub record Simple (D : Type 0) : Type 0 where
  pub underlying_mbox : D

module _ {D : Type 0} where
  pub ensure_underlying_mbox_not_null : Option D → Result D
  ensure_underlying_mbox_not_null none = throw rc_nullptr_as_underlying_mbox
  ensure_underlying_mbox_not_null (some mbox) = ok mbox

  unfoldable pub simple : Option D → Result (Simple D)
  unfolding ensure_underlying_mbox_not_null
  simple underlying_mbox = do
    mbox ← ensure_underlying_mbox_not_null underlying_mbox
    ok (record { underlying_mbox = mbox })

  -- What a method does with a call, by what the mboxes do with it.
  unfoldable pub pass_on :
      {T S F M O A : Type 0} → (D → Call T S F M → O → A) → Call T S F M → Simple D → O → A
  pass_on call_of call p o = call_of p.underlying_mbox call o

  unfoldable pub do_deliver_message :
      {T M O : Type 0}
      → (D → Delivery T M → O → O × Result (Unit {0}))
      → Delivery T M
      → Simple D
      → O
      → O × Result (Unit {0})
  do_deliver_message deliver d p o = deliver p.underlying_mbox d o

pub id : Simple MboxRef → ℕ
id p = p.underlying_mbox.id

pub type : Simple MboxRef → MboxType
type p = p.underlying_mbox.type
