-- ===== src/Mchains/FixedSize/Fifo.antt =====
-- The ring is a first-in first-out queue of at most `Size` demands.
use native.Mathlib.Nat.{mod-eq_of_lt, mod-eq-sub-mod, mod-add-mod, mod-lt}
use so5extra.Prelude.{
  ℕ, zero, suc, ◌+◌, ◌-◌, ◌%◌, ◌<◌, ◌≤◌, ◌≡◌, ◌≢◌, ◌⊎◌, refl, ap, ap₂, sym, ◌∙◌, inl, inr, none,
  some, List, leb, Bool, true, false, if◌then◌else◌, [], ◌∷◌, ◌++◌, arith, length, get_elem?, set,
  length-set, length-append, get_elem?-set_self, get_elem?-set_ne, length-replicate, dec_lt, subst,
}
use so5extra.Mchains.FixedSize.{
  DemandQueue, new_queue, is_full, is_empty, front, pop_front, push_back,
}

-- A sum of two numbers below `n`, modulo `n`.
mod_add :
    (n h m : ℕ)
    → h < n
    → m < n
    → ((h + m < n) × ((h + m) % n ≡ h + m)) ⊎ ((n ≤ h + m) × ((h + m) % n + n ≡ h + m))
mod_add n h m p q = elim (dec_lt (h + m) n) [
  | yes low ↦ inl (low, mod-eq_of_lt low)
  | no high ↦
      let le : n ≤ h + m = omega arith in
      let low : h + m - n < n = omega arith in
      inr (le, omega (arith, mod-eq-sub-mod le, mod-eq_of_lt low))
]

mod_step : (n h m : ℕ) → ((h + 1) % n + m) % n ≡ (h + suc m) % n
mod_step n h m = mod-add-mod (h + 1) n m ∙ ap (λ t. t % n) (omega arith)

mod_ne : (n h m : ℕ) → h < n → suc m < n → (h + suc m) % n ≢ h
mod_ne n h m p q = ground (arith, mod_add n h (suc m) p q)

module _ {D : Type 0} (Size : ℕ) where
  -- The demands `ds` stand in the array from the position `h` on, round the end.
  abbrev pub Holds : List D → ℕ → List D → Type 0
  Holds xs h [] = Unit
  Holds xs h (d ∷ ds) = (get_elem? xs h ≡ some d) × Holds xs ((h + 1) % Size) ds

  -- The ring with the contents `ds`, oldest first.
  pub record Represents (q : DemandQueue D) (ds : List D) : Type 0 where
    pub room : length q.storage ≡ Size
    pub start : q.head < Size
    pub counted : q.size ≡ length ds
    pub bounded : length ds ≤ Size
    pub holds : Holds q.storage q.head ds

  -- A write behind the contents does not touch them.
  Holds-set :
      (xs ds : List D) (h i m : ℕ) (v : D)
      → h < Size
      → length ds ≤ m
      → m < Size
      → i ≡ (h + m) % Size
      → Holds xs h ds
      → Holds (set xs i v) h ds
  Holds-set xs [] h i m v p le q e k = tt
  Holds-set xs (d ∷ ds) h i zero v p le q e k = absurd (omega arith)
  Holds-set xs (d ∷ ds) h i (suc m) v p le q e k = (
    get_elem?-set_ne xs i h v (λ same. mod_ne Size h m p q (sym e ∙ same)) ∙ k.0,
    Holds-set xs ds ((h + 1) % Size) i m v (mod-lt (h + 1) (omega arith)) (omega arith)
        (omega arith) (e ∙ sym (mod_step Size h m)) k.1,
  )

  Holds-append :
      (xs ds : List D) (h : ℕ) (d : D)
      → h < Size
      → get_elem? xs ((h + length ds) % Size) ≡ some d
      → Holds xs h ds
      → Holds xs h (ds ++ d ∷ [])
  Holds-append xs [] h d p g k =
      let low : h + 0 < Size = omega arith in
      let same : (h + 0) % Size ≡ h = mod-eq_of_lt low ∙ omega arith in
      (subst (λ i. get_elem? xs i ≡ some d) same g, tt)
  Holds-append xs (x ∷ ds) h d p g k = (
    k.0,
    Holds-append xs ds ((h + 1) % Size) d (mod-lt (h + 1) (omega arith))
        (subst (λ i. get_elem? xs i ≡ some d) (sym (mod_step Size h (length ds))) g) k.1,
  )

pub data Op (D : Type 0) : Type 0 where
  pushes : D → Op D
  asks_front pops asks_full asks_empty : Op D

pub data Seen (D : Type 0) : Type 0 where
  refused accepted : Seen D
  shown : D → Seen D
  answered : Bool → Seen D

module _ {D : Type 0} (Size : ℕ) (blank : D) where
  new_queue-Represents : 0 < Size → Represents Size (new_queue Size blank) []
  unfolding new_queue
  new_queue-Represents h = record {
    room = length-replicate Size blank;
    start = h;
    counted = refl;
    bounded = omega arith;
    holds = tt;
  }

  pushed : (q : DemandQueue D) → D → DemandQueue D
  pushed q d = record q { storage = set q.storage ((q.head + q.size) % Size) d; size = q.size + 1 }

  pushed-Represents :
      (q : DemandQueue D) (ds : List D) (d : D)
      → Represents Size q ds
      → length ds < Size
      → Represents Size (pushed q d) (ds ++ d ∷ [])
  unfolding pushed
  pushed-Represents q ds d r h = record {
    room = length-set q.storage _ d ∙ r.room;
    start = r.start;
    counted = omega (arith, r.counted, length-append ds (d ∷ []));
    bounded = omega (arith, length-append ds (d ∷ []));
    holds =
        Holds-append Size _ ds q.head d r.start
          (subst (λ n. get_elem? (set q.storage i d) ((q.head + n) % Size) ≡ some d) r.counted
            (get_elem?-set_self q.storage i d (subst (λ n. i < n) (sym r.room) below)))
          (Holds-set Size q.storage ds q.head i q.size d r.start (omega (arith, r.counted))
            (omega (arith, r.counted)) refl r.holds);
  }
    where
      i : ℕ
      i = (q.head + q.size) % Size

      below : i < Size
      below = mod-lt (q.head + q.size) (omega (arith, r.start))

  popped : (q : DemandQueue D) → DemandQueue D
  popped q = record {
    storage = set q.storage q.head blank;
    head = (q.head + 1) % Size;
    size = q.size - 1;
  }

  round_trip : (h : ℕ) → h < Size → h ≡ ((h + 1) % Size + (Size - 1)) % Size
  round_trip h p =
      let le : Size ≤ h + suc (Size - 1) = omega arith in
      let low : h + suc (Size - 1) - Size < Size = omega arith in
      sym (mod_step Size h (Size - 1) ∙ omega (arith, mod-eq-sub-mod le, mod-eq_of_lt low))

  popped-Represents :
      (q : DemandQueue D) (d : D) (ds : List D)
      → Represents Size q (d ∷ ds)
      → Represents Size (popped q) ds
  unfolding popped
  popped-Represents q d ds r = record {
    room = length-set q.storage _ blank ∙ r.room;
    start = mod-lt (q.head + 1) (omega (arith, r.start));
    counted = omega (arith, r.counted);
    bounded = omega (arith, r.bounded);
    holds =
        Holds-set Size q.storage ds ((q.head + 1) % Size) q.head (Size - 1) blank
          (mod-lt (q.head + 1) (omega (arith, r.start))) (omega (arith, r.bounded))
          (omega (arith, r.start)) (round_trip q.head r.start) r.holds.1;
  }

  -- One call of the ring and one of the list, with what the caller sees.
  pub ring_step : DemandQueue D → Op D → DemandQueue D × Seen D
  ring_step q (pushes d) = elim (push_back Size blank d q) [
    | none ↦ (q, refused)
    | some q' ↦ (q', accepted)
  ]
  ring_step q asks_front = elim (front Size blank q) [ none ↦ (q, refused) | some d ↦ (q, shown d) ]
  ring_step q pops = elim (pop_front Size blank q) [
    | none ↦ (q, refused)
    | some q' ↦ (q', accepted)
  ]
  ring_step q asks_full = (q, answered (is_full Size blank q))
  ring_step q asks_empty = (q, answered (is_empty Size blank q))

  unfoldable pub fifo_step : List D → Op D → List D × Seen D
  fifo_step ds (pushes d) = if leb Size (length ds) then (ds, refused) else (ds ++ d ∷ [], accepted)
  fifo_step [] asks_front = ([], refused)
  fifo_step (d ∷ ds) asks_front = (d ∷ ds, shown d)
  fifo_step [] pops = ([], refused)
  fifo_step (d ∷ ds) pops = (ds, accepted)
  fifo_step ds asks_full = (ds, answered (leb Size (length ds)))
  fifo_step [] asks_empty = ([], answered true)
  fifo_step (d ∷ ds) asks_empty = (d ∷ ds, answered false)

  step-refines :
      (q : DemandQueue D) (ds : List D) (op : Op D)
      → Represents Size q ds
      → ((ring_step q op).1 ≡ (fifo_step ds op).1)
        × Represents Size (ring_step q op).0 (fifo_step ds op).0
  unfolding ring_step fifo_step push_back pushed front pop_front popped is_full is_empty
  step-refines q ds (pushes d) r = elim (dec_lt (length ds) Size) [
    | yes h ↦ ground (arith, pushed-Represents q ds d r h, r.counted)
    | no h ↦ ground (arith, r.counted)
  ]
  step-refines q [] asks_front r = ground (arith, r.counted)
  step-refines q (d ∷ ds) asks_front r = ground (arith, r.counted, r.holds)
  step-refines q [] pops r = ground (arith, r.counted)
  step-refines q (d ∷ ds) pops r = ground (arith, r.counted, popped-Represents q d ds r)
  step-refines q ds asks_full r = (ap answered (ground (arith, r.counted, r.bounded)), r)
  step-refines q [] asks_empty r = (ap answered (ground (arith, r.counted)), r)
  step-refines q (d ∷ ds) asks_empty r = (ap answered (ground (arith, r.counted)), r)

  unfoldable pub ring_run : DemandQueue D → List (Op D) → List (Seen D)
  unfolding ring_step
  ring_run q [] = []
  ring_run q (op ∷ ops) = (ring_step q op).1 ∷ ring_run (ring_step q op).0 ops

  unfoldable pub fifo_run : List D → List (Op D) → List (Seen D)
  unfolding fifo_step
  fifo_run ds [] = []
  fifo_run ds (op ∷ ops) = (fifo_step ds op).1 ∷ fifo_run (fifo_step ds op).0 ops

  run-refines :
      (q : DemandQueue D) (ds : List D) (ops : List (Op D))
      → Represents Size q ds
      → ring_run q ops ≡ fifo_run ds ops
  unfolding ring_run fifo_run
  run-refines q ds [] r = refl
  run-refines q ds (op ∷ ops) r =
      let (seen, next) = step-refines q ds op r in
      ap₂ ◌∷◌ seen (run-refines (ring_step q op).0 (fifo_step ds op).0 ops next)

  -- A caller of a new queue of a positive size who makes any calls in any order sees the same as with
  -- a list that takes a demand at its end while it is shorter than the size, shows its first demand,
  -- and loses it: `push_back` is refused exactly when the queue is full, `front` and `pop_front`, each
  -- on its own, exactly when it is empty, and `is_full` and `is_empty` tell which it is.
  pub new_queue-refines :
      (ops : List (Op D)) → 0 < Size → ring_run (new_queue Size blank) ops ≡ fifo_run [] ops
  new_queue-refines ops h = run-refines _ [] ops (new_queue-Represents h)
