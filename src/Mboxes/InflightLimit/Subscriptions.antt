-- ===== src/Mboxes/InflightLimit/Subscriptions.antt =====
-- What the underlying mbox learns of the subscriptions that are made and undone through the mbox.
use so5extra.Prelude.{
  ◌≡◌, refl, ◌∙◌, ap, Bool, true, false, ◌&&◌, Option, none, some, List, [], ◌∷◌, ◌++◌, arith, Ord,
  if◌then◌else◌,
}
use so5extra.So5.{Result, ok, throw, Call}
use so5extra.Mboxes.InflightLimit.{
  Mbox, subscribe_event_handler, unsubscribe_event_handler, set_delivery_filter,
  drop_delivery_filter,
}

-- A call of one of the methods that change subscriptions and filters.
pub data Asked (T S F : Type 0) : Type 0 where
  subscribes unsubscribes drops_filter : T → S → Asked T S F
  sets_filter : T → F → S → Asked T S F

module _ {T S F M : Type 0} ⦃ot : Ord T⦄ ⦃os : Ord S⦄ where
  -- Whether the sink is subscribed after these calls of a mbox: the last subscription or
  -- unsubscription for the type and the sink tells.
  abbrev pub is_subscribed : T → S → Bool → List (Call T S F M) → Bool
  is_subscribed t s before [] = before
  is_subscribed t s before (Call.subscribe_event_handler u r ∷ cs) =
      is_subscribed t s (if ot.eqb u t && os.eqb r s then true else before) cs
  is_subscribed t s before (Call.unsubscribe_event_handler u r ∷ cs) =
      is_subscribed t s (if ot.eqb u t && os.eqb r s then false else before) cs
  is_subscribed t s before (Call.set_delivery_filter u f r ∷ cs) = is_subscribed t s before cs
  is_subscribed t s before (Call.drop_delivery_filter u r ∷ cs) = is_subscribed t s before cs
  is_subscribed t s before (Call.do_deliver_message d ∷ cs) = is_subscribed t s before cs

  is_subscribed-append :
      (t : T) (s : S) (b : Bool) (xs ys : List (Call T S F M))
      → is_subscribed t s b (xs ++ ys) ≡ is_subscribed t s (is_subscribed t s b xs) ys
  is_subscribed-append t s b [] ys = refl
  is_subscribed-append t s b (Call.subscribe_event_handler u r ∷ xs) ys =
      is_subscribed-append t s (if ot.eqb u t && os.eqb r s then true else b) xs ys
  is_subscribed-append t s b (Call.unsubscribe_event_handler u r ∷ xs) ys =
      is_subscribed-append t s (if ot.eqb u t && os.eqb r s then false else b) xs ys
  is_subscribed-append t s b (Call.set_delivery_filter u f r ∷ xs) ys =
      is_subscribed-append t s b xs ys
  is_subscribed-append t s b (Call.drop_delivery_filter u r ∷ xs) ys =
      is_subscribed-append t s b xs ys
  is_subscribed-append t s b (Call.do_deliver_message d ∷ xs) ys = is_subscribed-append t s b xs ys

  abbrev passed_on : Result (Call T S F M) → List (Call T S F M)
  passed_on (ok c) = c ∷ []
  passed_on (throw e) = []

  abbrev passed_on? : Option (Call T S F M) → List (Call T S F M)
  passed_on? none = []
  passed_on? (some c) = c ∷ []

module _ {T S F M : Type 0} ⦃ot : Ord T⦄ ⦃os : Ord S⦄ (m : Mbox T) where
  -- The calls that the mbox makes of the underlying one.
  unfoldable pub reaches : Asked T S F → List (Call T S F M)
  unfolding subscribe_event_handler unsubscribe_event_handler set_delivery_filter
      drop_delivery_filter
  reaches (subscribes t s) = passed_on (subscribe_event_handler m t s)
  reaches (unsubscribes t s) = passed_on? (unsubscribe_event_handler m t s)
  reaches (sets_filter t f s) = passed_on (set_delivery_filter m t f s)
  reaches (drops_filter t s) = passed_on? (drop_delivery_filter m t s)

  unfoldable pub underlying : List (Asked T S F) → List (Call T S F M)
  unfolding reaches
  underlying [] = []
  underlying (a ∷ more) = reaches a ++ underlying more

module _ {T S : Type 0} (F M : Type 0) ⦃ot : Ord T⦄ ⦃os : Ord S⦄ (m : Mbox T) where
  stays_one :
      (a : Asked T S F) (s : S)
      → is_subscribed m.msg_type s true (reaches {F = F} {M = M} m a) ≡ true
  unfolding reaches subscribe_event_handler unsubscribe_event_handler set_delivery_filter
      drop_delivery_filter
  stays_one (subscribes t r) s = ground arith
  stays_one (unsubscribes t r) s = ground arith
  stays_one (sets_filter t f r) s = ground arith
  stays_one (drops_filter t r) s = ground arith

  stays :
      (l : List (Asked T S F)) (s : S)
      → is_subscribed m.msg_type s true (underlying {F = F} {M = M} m l) ≡ true
  unfolding underlying
  stays [] s = refl
  stays (a ∷ l) s =
      is_subscribed-append m.msg_type s true (reaches {F = F} {M = M} m a)
        (underlying {F = F} {M = M} m l)
      ∙ ap (λ b. is_subscribed m.msg_type s b (underlying {F = F} {M = M} m l)) (stays_one a s)
      ∙ stays l s

  subscribed_first :
      (s : S) (b : Bool)
      → is_subscribed m.msg_type s b (reaches {F = F} {M = M} m (subscribes m.msg_type s)) ≡ true
  unfolding reaches subscribe_event_handler
  subscribed_first s b = ground (arith, ot.eqb_iff m.msg_type m.msg_type, os.eqb_iff s s)

  from_any :
      (before later : List (Asked T S F)) (s : S) (b : Bool)
      → is_subscribed m.msg_type s b
          (underlying {F = F} {M = M} m (before ++ subscribes m.msg_type s ∷ later))
        ≡ true
  unfolding underlying
  from_any [] later s b =
      is_subscribed-append m.msg_type s b (reaches {F = F} {M = M} m (subscribes m.msg_type s))
        (underlying {F = F} {M = M} m later)
      ∙ ap (λ x. is_subscribed m.msg_type s x (underlying {F = F} {M = M} m later))
          (subscribed_first s b)
      ∙ stays later s
  from_any (a ∷ before) later s b =
      is_subscribed-append m.msg_type s b (reaches {F = F} {M = M} m a) _
      ∙ from_any before later s _

  -- A sink that has once subscribed through the mbox, for the type of the mbox, is subscribed to the
  -- underlying mbox for ever: whatever subscriptions, unsubscriptions and filters are asked for before
  -- and after through the mbox, also the unsubscription of this sink for this type, the last word that
  -- the underlying mbox gets of it is its subscription.
  pub never_unsubscribed :
      (before later : List (Asked T S F)) (s : S)
      → is_subscribed m.msg_type s false
          (underlying {F = F} {M = M} m (before ++ subscribes m.msg_type s ∷ later))
        ≡ true
  never_unsubscribed before later s = from_any before later s false
