-- ===== src/So5/Subscription.antt =====
-- `so_5::impl::local_mbox_details::subscription_info_without_sink_t`, which SObjectizer defines:
-- what a mbox stores for a subscriber. It says whether there is a subscription, and may hold a
-- delivery filter. The mboxes take it as a parameter: its operations, and what they rely on.
use so5extra.Prelude.{◌≡◌, Bool, true, false, Option, none, some, refl, not, ◌&&◌, ◌||◌}

pub record SubscriptionInfo (I S F M : Type 0) : Type 0 where
  pub subscription_present : I
  pub of_filter : F → I
  pub subscription_defined : I → I
  pub subscription_dropped : I → I
  pub set_filter : F → I → I
  pub drop_filter : I → I
  pub empty : I → Bool
  -- Whether the status is `delivery_possibility_t::must_be_delivered`.
  pub must_be_delivered : I → S → M → Bool

-- `has_subscription` and `has_filter` are the two parts of an information block.
pub record IsLawful {I S F M : Type 0} (o : SubscriptionInfo I S F M) : Type 0 where
  pub has_subscription : I → Bool
  pub has_filter : I → Bool
  pub present_lem : has_subscription o.subscription_present ≡ true
  pub of_filter_lem : (f : F) → has_subscription (o.of_filter f) ≡ false
  pub of_filter-has_filter : (f : F) → has_filter (o.of_filter f) ≡ true
  pub defined_lem : (i : I) → has_subscription (o.subscription_defined i) ≡ true
  pub dropped_lem : (i : I) → has_subscription (o.subscription_dropped i) ≡ false
  pub set_filter_lem : (f : F) (i : I) → has_subscription (o.set_filter f i) ≡ has_subscription i
  pub set_filter-has_filter : (f : F) (i : I) → has_filter (o.set_filter f i) ≡ true
  pub drop_filter_lem : (i : I) → has_subscription (o.drop_filter i) ≡ has_subscription i
  pub empty_lem : (i : I) → o.empty i ≡ not (has_subscription i || has_filter i)

-- An implementation, to show that the laws can be met: a message passes if there is a subscription
-- and the filter, if any, lets it through.
pub record Block (F : Type 0) : Type 0 where
  pub subscribed : Bool
  pub filter : Option F

abbrev pub is_some : {F : Type 0} → Option F → Bool
is_some none = false
is_some (some f) = true

abbrev pub passes : {F M : Type 0} → (F → M → Bool) → Option F → M → Bool
passes p none msg = true
passes p (some f) msg = p f msg

abbrev pub block_info : {S F M : Type 0} → (F → M → Bool) → SubscriptionInfo (Block F) S F M
block_info p = record {
  subscription_present = record { subscribed = true; filter = none };
  of_filter = λ f. record { subscribed = false; filter = some f };
  subscription_defined = λ i. record i { subscribed = true };
  subscription_dropped = λ i. record i { subscribed = false };
  set_filter = λ f i. record i { filter = some f };
  drop_filter = λ i. record i { filter = none };
  empty = λ i. not (i.subscribed || is_some i.filter);
  must_be_delivered = λ i sink msg. i.subscribed && passes p i.filter msg;
}

unfoldable pub block_info-IsLawful :
    {S F M : Type 0} (p : F → M → Bool) → IsLawful {S = S} (block_info p)
block_info-IsLawful p = record {
  has_subscription = λ i. i.subscribed;
  has_filter = λ i. is_some i.filter;
  present_lem = refl;
  of_filter_lem = λ f. refl;
  of_filter-has_filter = λ f. refl;
  defined_lem = λ i. refl;
  dropped_lem = λ i. refl;
  set_filter_lem = λ f i. refl;
  set_filter-has_filter = λ f i. refl;
  drop_filter_lem = λ i. refl;
  empty_lem = λ i. refl;
}
