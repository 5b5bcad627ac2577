-- ===== src/Disp/AsioThreadPool/Launch.antt =====
-- The launch of the threads: all of them, or none is left.
use so5extra.Prelude.{
  ℕ, zero, suc, ◌+◌, ◌≡◌, refl, ap, sym, ◌∙◌, subst, inl, inr, Option, none, some, List, [], ◌∷◌,
  ◌++◌, map, replicate, set, length, length-append, append-nil, append_assoc, arith,
}
use so5extra.So5.{Error, Result, ok, throw, Result-cases}
use so5extra.Disp.AsioThreadPool.{
  make_threads, join_started, rolled_back, launch_work_threads, wait_work_threads,
}

module _ {H : Type 0} where
  -- The first threads are started, the others are not.
  pub started : List H → ℕ → List (Option H)
  started ts n = map some ts ++ replicate n none

  set-started :
      (ts : List H) (t : H) (n : ℕ)
      → set (started ts (suc n)) (length ts) (some t) ≡ started (ts ++ t ∷ []) n
  unfolding started
  set-started [] t n = refl
  set-started (x ∷ ts) t n = ap (λ l. some x ∷ l) (set-started ts t n)

  pub blank : List H → ℕ → List (Option H)
  blank ts m = map (λ t. none) ts ++ replicate m none

  blank-replicate : (ts : List H) (m n : ℕ) → n ≡ length ts + m → blank ts m ≡ replicate n none
  unfolding blank
  blank-replicate [] m n h = ap (λ k. replicate k none) (omega (arith, h))
  blank-replicate (t ∷ ts) m zero h = ground (arith, h)
  blank-replicate (t ∷ ts) m (suc n) h =
      ap (λ l. none ∷ l) (blank-replicate ts m n (omega (arith, h)))

  set-started-at :
      (i : ℕ) (ts : List H) (t : H) (n : ℕ)
      → i ≡ length ts
      → set (started ts (suc n)) i (some t) ≡ started (ts ++ t ∷ []) n
  set-started-at i ts t n h =
      subst (λ k. set (started ts (suc n)) k (some t) ≡ started (ts ++ t ∷ []) n) (sym h)
        (set-started ts t n)

module _ {H O : Type 0} (make_work_thread : ℕ → O → O × Result H) (join : H → O → O)
    (stop : O → O) where
  -- The threads that are made before one throws, and the exception; `i` is the number of the first.
  pub data Made : ℕ → ℕ → O → List H → O → Result (Unit {0}) → Type 0 where
    all_made : (i : ℕ) (o : O) → Made zero i o [] o (ok tt)
    next_made :
        (n i : ℕ) (o o' o'' : O) (t : H) (ts : List H) (r : Result (Unit {0}))
        → make_work_thread i o ≡ (o', ok t)
        → Made n (i + 1) o' ts o'' r
        → Made (suc n) i o (t ∷ ts) o'' r
    failed :
        (n i : ℕ) (o o' : O) (e : Error)
        → make_work_thread i o ≡ (o', throw e)
        → Made (suc n) i o [] o' (throw e)

  join_started-started :
      (ts : List H) (m : ℕ) (o : O)
      → join_started make_work_thread join stop (started ts m) o
        ≡ (blank ts m, wait_work_threads make_work_thread join stop ts o)
  unfolding started blank join_started wait_work_threads
  join_started-started [] zero o = refl
  join_started-started [] (suc m) o = refl
  join_started-started (t ∷ ts) m o =
      ap (λ x. (none ∷ x.0, x.1)) (join_started-started ts m (join t o))

  -- What the loop does from the thread `i` on.
  record Outcome (n i : ℕ) (ts : List H) (o : O) : Type 0 where
    pub more : List H
    pub left : ℕ
    pub o' : O
    pub r : Result (Unit {0})
    pub made : Made n i o more o' r
    pub counted : n ≡ length more + left
    pub gives :
        make_threads make_work_thread join stop n i (started ts n) o
        ≡ (started (ts ++ more) left, o', r)

  make_threads-Outcome : (n i : ℕ) (ts : List H) (o : O) → i ≡ length ts → Outcome n i ts o
  unfolding make_threads
  make_threads-Outcome zero i ts o h = record {
    more = [];
    left = 0;
    o' = o;
    r = ok tt;
    made = all_made i o;
    counted = omega arith;
    gives = ap (λ l. (started l 0, o, ok tt)) (sym (append-nil ts));
  }
  make_threads-Outcome (suc n) i ts o h =
      let o1 = (make_work_thread i o).0 in
      elim (Result-cases (make_work_thread i o).1) [
        | inr (e, g) ↦ record {
          more = [];
          left = suc n;
          o' = o1;
          r = throw e;
          made = failed n i o o1 e (ap (λ r. (o1, r)) g);
          counted = omega arith;
          gives =
              rw (g, make_threads)
                (ap (λ l. (started l (suc n), o1, throw e)) (sym (append-nil ts)));
        }
        | inl (t, g) ↦
            let rest =
              make_threads-Outcome n (i + 1) (ts ++ t ∷ []) o1
                (omega (arith, h, length-append ts (t ∷ []))) in
            record {
              more = t ∷ rest.more;
              left = rest.left;
              o' = rest.o';
              r = rest.r;
              made = next_made n i o o1 rest.o' t rest.more rest.r (ap (λ r. (o1, r)) g) rest.made;
              counted = omega (arith, rest.counted);
              gives =
                  rw (g, make_threads)
                    (ap (λ l. make_threads make_work_thread join stop n (i + 1) l o1)
                        (set-started-at i ts t n h)
                      ∙ rest.gives
                      ∙ ap (λ l. (started l rest.left, rest.o', rest.r))
                          (append_assoc ts (t ∷ []) rest.more));
            }
      ]

  Made-all :
      {n i : ℕ} {o o' : O} {ts : List H} {r : Result (Unit {0})} (u : Unit {0})
      → Made n i o ts o' r
      → r ≡ ok u
      → length ts ≡ n
  Made-all u (all_made i o) h = refl
  Made-all u (next_made n i o o' o'' t ts r g m) h = omega (arith, Made-all u m h)
  Made-all u (failed n i o o' e g) h = ground (arith, h)

  -- What `launch_work_threads` is to do, given the threads that can be made.
  pub settled : ℕ → List H → O → Result (Unit {0}) → List (Option H) × O × Result (Unit {0})
  settled n ts o (ok u) = (map some ts, o, ok u)
  settled n ts o (throw e) =
      (replicate n none, wait_work_threads make_work_thread join stop ts (stop o), throw e)

  launch-by :
      (n m : ℕ) (ts : List H) (o o' : O) (r : Result (Unit {0}))
      → make_threads make_work_thread join stop n 0 (replicate n none) o ≡ (started ts m, o', r)
      → n ≡ length ts + m
      → ((u : Unit {0}) → r ≡ ok u → length ts ≡ n)
      → launch_work_threads make_work_thread join stop n o ≡ settled n ts o' r
  unfolding launch_work_threads rolled_back settled started
  launch-by n m ts o o' (ok u) g c all =
      let none_left : m ≡ 0 = omega (arith, c, all u refl) in
      ap (rolled_back make_work_thread join stop) g
      ∙ (ap (λ k. (started ts k, o', ok u)) none_left
          ∙ ap (λ l. (l, o', ok u)) (append-nil (map some ts)))
  launch-by n m ts o o' (throw e) g c all =
      ap (rolled_back make_work_thread join stop) g
      ∙ (ap (λ x. (x.0, x.1, throw e)) (join_started-started ts m (stop o'))
          ∙ ap (λ l. (l, wait_work_threads make_work_thread join stop ts (stop o'), throw e))
              (blank-replicate ts m n c))

  -- The threads are made one after another until one cannot be made. If all are made, the dispatcher
  -- has exactly these; if the making of one throws, then the `io_context` is stopped, the threads that
  -- were made before are joined, each once and in this order, none is left, and the exception goes on.
  pub launch-settled :
      (n : ℕ) (o : O)
      → (ts : List H) × (o' : O) × (r : Result (Unit {0})) × Made n 0 o ts o' r
        × (launch_work_threads make_work_thread join stop n o ≡ settled n ts o' r)
  unfolding started
  launch-settled n o =
      let x = make_threads-Outcome n 0 [] o refl in
      (
        x.more,
        x.o',
        x.r,
        x.made,
        launch-by n x.left x.more o x.o' x.r x.gives x.counted (λ u. Made-all u x.made),
      )
