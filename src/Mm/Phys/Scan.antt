-- ===== src/Mm/Phys/Scan.antt =====
-- The search loop of `mmDoAllocFrames`, against runs of free frames.
use algae.Base.{
  ℕ, zero, suc, ◌+◌, ◌-◌, ◌^◌, ◌≤◌, ◌<◌, ◌≡◌, refl, ap, ◌∙◌, ◌⊎◌, inl, inr, true, false, Option,
  none, some, List, arith, leb, ltb, ltb→lt, leb→le, Bool-cases,
}
use algae.Bitmap.{test_bit}
use algae.Mm.Phys.{Search, first, search_run, inc_long}

-- The frames `k` to `k + count` are free: one more than were asked for.
abbrev pub HasRun : List ℕ → (count k : ℕ) → Type 0
HasRun m count k = (j : ℕ) → k ≤ j → j ≤ k + count → test_bit m j ≡ some false

-- No run begins before `k`.
abbrev pub NoRun : List ℕ → (count k : ℕ) → Type 0
NoRun m count k = (k' : ℕ) → k' < k → ¬ (HasRun m count k')

-- What the loop knows at frame `i`.
record AtFrame (m : List ℕ) (count i n : ℕ) (idx : Option ℕ) : Type 0 where
  begins : first idx i + n ≡ i
  run : (j : ℕ) → first idx i ≤ j → j < i → test_bit m j ≡ some false
  short : n ≤ count
  nonempty : (k : ℕ) → idx ≡ some k → 0 < n
  longest : (j : ℕ) → j ≤ i → ((x : ℕ) → j ≤ x → x < i → test_bit m x ≡ some false) → i ≤ j + n
  fresh : (k : ℕ) → k + count < i → ¬ (HasRun m count k)

pub record Found (m : List ℕ) (count h : ℕ) (r : Search) : Type 0 where
  pub start : ℕ
  pub idx : r.idx ≡ some start
  pub n_frames : r.n_frames ≡ suc count
  pub inside : start + count < h
  pub run : HasRun m count start
  pub earliest : NoRun m count start

pub record Missing (m : List ℕ) (count h : ℕ) (r : Search) : Type 0 where
  pub idx : (r.idx ≡ none) ⊎ ((0 < r.n_frames) × (r.n_frames ≤ count))
  pub no_run : (k : ℕ) → k + count < h → ¬ (HasRun m count k)

abbrev pub Outcome : List ℕ → (count h : ℕ) → Search → Type 0
Outcome m count h r = Found m count h r ⊎ Missing m count h r

module _ (m : List ℕ) (count h : ℕ) where
  at_used :
      (i n : ℕ) (idx : Option ℕ)
      → test_bit m i ≡ some true
      → AtFrame m count i n idx
      → AtFrame m count (i + 1) 0 none
  at_used i n idx e s = record {
    begins = omega arith;
    run = λ j p q. absurd (omega arith);
    short = omega arith;
    nonempty = λ k q. cc;
    longest = λ j p f. ground (arith, f i);
    fresh = λ k p f. ground (arith, f i, s.fresh k);
  }

  at_free :
      (i n : ℕ) (idx : Option ℕ)
      → test_bit m i ≡ some false
      → n < count
      → AtFrame m count i n idx
      → AtFrame m count (i + 1) (n + 1) (some (first idx i))
  at_free i n idx e lt s = record {
    begins = omega (arith, s.begins);
    run = λ j p q. ground (arith, s.run j);
    short = omega arith;
    nonempty = λ k q. omega arith;
    longest = λ j p f. ground (arith, s.longest j);
    fresh = λ k p f. elim (Bool-cases (ltb (k + count) i)) [
      | inl before ↦ s.fresh k (ltb→lt (k + count) i before) f
      | inr at ↦ absurd (ground (arith, s.longest k (ground arith) (λ x a b. f x a (ground arith))))
    ];
  }

  found :
      (i n : ℕ) (idx : Option ℕ)
      → test_bit m i ≡ some false
      → i < h
      → count ≤ n
      → AtFrame m count i n idx
      → Found m count h (record { n_frames = n + 1; idx = some (first idx i) })
  found i n idx e lt le s = record {
    start = first idx i;
    idx = refl;
    n_frames = omega (arith, s.short);
    inside = omega (arith, s.begins, s.short);
    run = λ j p q. ground (arith, s.run j, s.begins, s.short);
    earliest = λ k p. s.fresh k (omega (arith, s.begins, s.short));
  }

  ended :
      (i n : ℕ) (idx : Option ℕ)
      → i ≡ h
      → AtFrame m count i n idx
      → Missing m count h (record { n_frames = n; idx = idx })
  ended i n none e s = record { idx = inl refl; no_run = λ k p. s.fresh k (omega arith) }
  ended i n (some k) e s = record {
    idx = inr (s.nonempty k refl, s.short);
    no_run = λ k p. s.fresh k (omega arith);
  }

  inc_long_lem : (n : ℕ) → n < 2 ^ 31 - 1 → inc_long n ≡ n + 1
  unfolding inc_long
  inc_long_lem n fits = ground (arith, fits)

  module _ (left i n : ℕ) (idx : Option ℕ) where
    step-used :
        test_bit m i ≡ some true
        → search_run m count (suc left) i n idx ≡ search_run m count left (i + 1) 0 none
    unfolding search_run
    step-used e = rw e

    step-full :
        test_bit m i ≡ some false
        → leb count n ≡ true
        → n < 2 ^ 31 - 1
        → search_run m count (suc left) i n idx
          ≡ some (record { n_frames = n + 1; idx = some (first idx i) })
    unfolding search_run
    step-full e full fits =
        let at_run : search_run m count (suc left) i n idx
            ≡ some (record { n_frames = inc_long n; idx = some (first idx i) }) =
          ground arith in
        at_run
        ∙ ap (λ k. some (record { n_frames = k; idx = some (first idx i) })) (inc_long_lem n fits)

    step-more :
        test_bit m i ≡ some false
        → leb count n ≡ false
        → n < 2 ^ 31 - 1
        → search_run m count (suc left) i n idx
          ≡ search_run m count left (i + 1) (n + 1) (some (first idx i))
    unfolding search_run
    step-more e more fits =
        let at_free : search_run m count (suc left) i n idx
            ≡ search_run m count left (i + 1) (inc_long n) (some (first idx i)) =
          ground arith in
        at_free
        ∙ ap (λ k. search_run m count left (i + 1) k (some (first idx i))) (inc_long_lem n fits)

  module _ (fits : count < 2 ^ 31 - 1)
      (reads : (i : ℕ) → i < h → (test_bit m i ≡ some true) ⊎ (test_bit m i ≡ some false)) where
    search_run_from :
        (left i n : ℕ) (idx : Option ℕ)
        → i + left ≡ h
        → AtFrame m count i n idx
        → (r : Search) × (search_run m count left i n idx ≡ some r) × Outcome m count h r
    search_run_from zero i n idx e s = (
      record { n_frames = n; idx = idx },
      unfold search_run in refl,
      inr (ended i n idx (omega arith) s),
    )
    search_run_from (suc left) i n idx e s = elim (reads i (omega arith)) [
      | inl used ↦
          rw (step-used left i n idx used)
            (search_run_from left (i + 1) 0 none (omega arith) (at_used i n idx used s))
      | inr free ↦ elim (Bool-cases (leb count n)) [
        | inl full ↦
            rw (step-full left i n idx free full (omega (arith, fits, s.short)))
              (_, refl, inl (found i n idx free (omega arith) (leb→le count n full) s))
        | inr more ↦ rw (step-more left i n idx free more (omega (arith, fits, s.short))) (
            search_run_from left (i + 1) (n + 1) (some (first idx i)) (omega arith)
              (at_free i n idx free (ground arith) s))
      ]
    ]

    -- The search of all `h` frames finds the first run, or there is none.
    pub search_run_lem :
        (r : Search) × (search_run m count h 0 0 none ≡ some r) × Outcome m count h r
    search_run_lem = search_run_from h 0 0 none (omega arith) (record {
      begins = omega arith;
      run = λ j p q. elim q [ ];
      short = omega arith;
      nonempty = λ k e. cc;
      longest = λ j p f. omega arith;
      fresh = λ k p f. elim p [ ];
    })
