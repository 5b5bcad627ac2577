-- ===== src/AsioEnv/Timers.antt =====
-- dev/so_5_extra/env_infrastructures/asio/impl/common.hpp: the holders of timers and `actual_timer_t`;
-- simple_not_mtsafe.hpp beside it: `schedule_timer` and `single_timer`. One timer is modelled, since
-- timers share nothing.
pub mod Release
pub mod Late
mod Tests
use so5extra.Prelude.{
  Bool, true, false, Option, none, some, List, [], ◌∷◌, ◌++◌, ◌≡◌, ℕ, if◌then◌else◌,
}
use so5extra.So5.{Error, Result, ok, throw, ◌>>=◌, Noexcept, returns, terminates, noexcept_call}

pub data ErrorCode : Type 0 where
  success operation_aborted other_error : ErrorCode

-- `asio::steady_timer`. `waiting` is a wait whose time has not come; `queued` is the error code of a
-- handler that the `io_context` is going to call, and `take` is the beginning of this call. `passes` is
-- the time going on up to the expiry.
pub record SteadyTimer (Duration S : Type 0) : Type 0 where
  pub expires_after : Duration → S → S
  pub async_wait : S → S
  pub cancel : S → S
  pub take : S → S
  pub passes : S → S
  pub waiting : S → Bool
  pub queued : S → Option ErrorCode

pub data Kind (Duration : Type 0) : Type 0 where
  singleshot : Kind Duration
  periodic : Duration → Kind Duration

-- `singleshot_timer_holder_t` and `periodic_timer_holder_t`, with their type, message and mbox as one
-- `demand`; `held` tells that the pointer of the `actual_timer_t` is not null, and `delivered` are the
-- calls of `deliver_message_from_timer`.
pub record World (Duration S Demand : Type 0) : Type 0 where
  pub kind : Kind Duration
  pub timer : S
  pub demand : Demand
  pub held : Bool
  pub delivered : List Demand

unfoldable pub ensure_we_can_handle_this_timer_error_code : Error → ErrorCode → Result (Unit {0})
ensure_we_can_handle_this_timer_error_code rc_unexpected_error success = ok tt
ensure_we_can_handle_this_timer_error_code rc_unexpected_error operation_aborted = ok tt
ensure_we_can_handle_this_timer_error_code rc_unexpected_error other_error =
    throw rc_unexpected_error

module _ {Duration S Demand : Type 0} (asio : SteadyTimer Duration S) where
  unfoldable pub cancel : World Duration S Demand → World Duration S Demand
  cancel w = record w { timer = asio.cancel w.timer }

  unfoldable pub schedule_from_now : Duration → World Duration S Demand → World Duration S Demand
  schedule_from_now pause w = record w {
    timer = asio.async_wait (asio.expires_after pause w.timer);
  }

  -- What the handler does after the delivery.
  unfoldable pub again : Kind Duration → World Duration S Demand → World Duration S Demand
  unfolding schedule_from_now
  again singleshot w = w
  again (periodic period) w = schedule_from_now period w

  module _ (rc_unexpected_error : Error) where
    -- The handler of `async_wait`, which is `noexcept`.
    unfoldable pub on_wait :
        ErrorCode → World Duration S Demand → Noexcept (World Duration S Demand)
    unfolding again ensure_we_can_handle_this_timer_error_code
    on_wait ec w = noexcept_call (
        ensure_we_can_handle_this_timer_error_code rc_unexpected_error ec >>= λ _. elim ec [
          | operation_aborted ↦ ok w
          | success ↦ ok (again w.kind (record w { delivered = w.delivered ++ w.demand ∷ [] }))
          | other_error ↦ ok w
        ])

  -- `actual_timer_t`.
  pub is_active : World Duration S Demand → Bool
  is_active w = w.held

  unfoldable pub release : World Duration S Demand → World Duration S Demand
  unfolding cancel
  release w = if w.held then record (cancel w) { held = false } else w

  -- `schedule_timer` and `single_timer`, over a new timer of Asio.
  unfoldable pub schedule_timer :
      (Duration → Bool) → S → Demand → Duration → Duration → World Duration S Demand
  unfolding schedule_from_now
  schedule_timer is_zero timer demand pause period = schedule_from_now pause (record {
    kind = if is_zero period then singleshot else periodic period;
    timer = timer;
    demand = demand;
    held = true;
    delivered = [];
  })

  unfoldable pub single_timer : S → Demand → Duration → World Duration S Demand
  unfolding schedule_from_now
  single_timer timer demand pause =
      schedule_from_now pause
        (record { kind = singleshot; timer = timer; demand = demand; held = false; delivered = [] })
