-- ===== src/Mboxes/Collecting/Signals.antt =====
-- The builder of bunches of signals does what the mbox asks of it.
use so5extra.Prelude.{
  ℕ, ◌+◌, ◌≡◌, ◌<◌, refl, some, List, [], ◌∷◌, ◌++◌, arith, length, leb, ap, length-append,
}
use so5extra.So5.{Mutability, MboxRef, ok, DeliveryMode}
use so5extra.Mboxes.Collecting.{IsBunchBuilder, signals_builder, Mbox, make}
use so5extra.Mboxes.Collecting.Bunches.{Collected, made-Collected}

module _ {M : Type 0} (n : ℕ) where
  pub counted :
      (count : ℕ) (ms : List M) (x : M) → count ≡ length ms → count + 1 ≡ length (ms ++ x ∷ [])
  counted count ms x h = omega (arith, h, length-append ms (x ∷ []))

  unfoldable pub signals-IsBunchBuilder : IsBunchBuilder n (signals_builder {M = M})
  unfolding signals_builder
  signals-IsBunchBuilder = record {
    Holds = λ count ms. count ≡ length ms;
    Shows = λ count ms. count ≡ length ms;
    stored = λ m. some m;
    new_lem = refl;
    store_none = λ m count e. ground (arith, e);
    store_some = λ m x count ms e h lt. (count + 1, refl, counted count ms x h);
    ready_lem = λ count ms h. ap (leb n) h;
    extract_lem = λ count ms h e pos. (h, refl);
  }

  -- A mbox that collects signals by a positive number `n` sends a bunch of the size `n` for each `n`
  -- signals that are delivered, and fewer than `n` wait.
  pub signals-Collected :
      (mutability : Mutability) (id : ℕ) (target : MboxRef) (b : Mbox ℕ)
      (l : List (DeliveryMode × M))
      → 0 < n
      → make (signals_builder {M = M}) mutability id target n ≡ ok b
      → Collected n signals_builder signals-IsBunchBuilder b [] l
  signals-Collected mutability id target b l pos made =
      made-Collected n signals_builder signals-IsBunchBuilder mutability id target b l pos made
