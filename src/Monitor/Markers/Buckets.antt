-- ===== src/Monitor/Markers/Buckets.antt =====
-- The buckets of time against the flags that they gather.
use gateway_hub.Monitor.Markers.{
  is_shown, items_of, bucket_key, Flag, add_flag, bucket_from, Bucket, Window,
}
use gateway_hub.Prelude.{
  suc, All-append, length-append, subst, arith, inl, true, keep, inr, false, ◌≡◌, ◌+◌, Bool-cases,
  ◌==◌, All, length, List, ℕ, [], ◌∷◌, refl,
}

module _ {V : Type 0} (w : Window) where
  -- A bucket holds flags of its own stretch of time only, all of them in the shown window.
  pub HasOwn : Bucket V → Type 0
  HasOwn b = All (λ a. (bucket_key w a.ts_ms ≡ b.key) × (is_shown w a ≡ true)) (items_of b)

  abbrev pub sum_items : List (Bucket V) → ℕ
  sum_items [] = 0
  sum_items (b ∷ buckets) = length (items_of b) + sum_items buckets

  abbrev pub DistinctKeys : List (Bucket V) → Type 0
  DistinctKeys [] = Unit
  DistinctKeys (b ∷ buckets) = All (λ c. (c.key == b.key) ≡ false) buckets × DistinctKeys buckets

  add_flag-HasOwn :
      (a : Flag V) (buckets : List (Bucket V))
      → is_shown w a ≡ true
      → All HasOwn buckets
      → All HasOwn (add_flag (bucket_key w a.ts_ms) a buckets)
  unfolding add_flag HasOwn
  add_flag-HasOwn a [] s h = (((refl, s), tt), tt)
  add_flag-HasOwn a (b ∷ buckets) s h = elim (Bool-cases (b.key == bucket_key w a.ts_ms)) [
    | inl e ↦
        let key : bucket_key w a.ts_ms ≡ b.key = ground arith in
        rw e ((h.0.0, All-append _ b.rest (a ∷ []) h.0.1 ((key, s), tt)), h.1)
    | inr e ↦ rw e (h.0, add_flag-HasOwn a buckets s h.1)
  ]

  add_flag-apart :
      (key k : ℕ) (a : Flag V) (buckets : List (Bucket V))
      → (key == k) ≡ false
      → All (λ c. (c.key == k) ≡ false) buckets
      → All (λ c. (c.key == k) ≡ false) (add_flag key a buckets)
  unfolding add_flag
  add_flag-apart key k a [] ne h = (ne, tt)
  add_flag-apart key k a (b ∷ buckets) ne h = elim (Bool-cases (b.key == key)) [
    | inl e ↦ rw e h
    | inr e ↦ rw e (h.0, add_flag-apart key k a buckets ne h.1)
  ]

  add_flag-DistinctKeys :
      (key : ℕ) (a : Flag V) (buckets : List (Bucket V))
      → DistinctKeys buckets
      → DistinctKeys (add_flag key a buckets)
  unfolding add_flag
  add_flag-DistinctKeys key a [] d = (tt, tt)
  add_flag-DistinctKeys key a (b ∷ buckets) d = elim (Bool-cases (b.key == key)) [
    | inl e ↦ rw e d
    | inr e ↦
        let ne : (key == b.key) ≡ false = ground arith in
        rw e (add_flag-apart key b.key a buckets ne d.0, add_flag-DistinctKeys key a buckets d.1)
  ]

  add_flag-sum :
      (key : ℕ) (a : Flag V) (buckets : List (Bucket V))
      → sum_items (add_flag key a buckets) ≡ sum_items buckets + 1
  unfolding add_flag
  add_flag-sum key a [] = refl
  add_flag-sum key a (b ∷ buckets) = elim (Bool-cases (b.key == key)) [
    | inl e ↦ rw e (omega (arith, length-append b.rest (a ∷ [])))
    | inr e ↦ rw e (omega (arith, add_flag-sum key a buckets))
  ]

  record AreBuckets (n : ℕ) (buckets : List (Bucket V)) : Type 0 where
    own : All HasOwn buckets
    distinct : DistinctKeys buckets
    sum_eq : sum_items buckets ≡ n

  bucket_from-AreBuckets :
      (flags : List (Flag V)) (n : ℕ) (buckets : List (Bucket V))
      → AreBuckets n buckets
      → AreBuckets (n + length (keep (is_shown w) flags)) (bucket_from w buckets flags)
  unfolding bucket_from
  bucket_from-AreBuckets [] n buckets h =
      let same : n ≡ n + 0 = omega arith in subst (λ m. AreBuckets m buckets) same h
  bucket_from-AreBuckets (a ∷ flags) n buckets h = elim (Bool-cases (is_shown w a)) [
    | inl e ↦
        let key = bucket_key w a.ts_ms in
        let next : AreBuckets (n + 1) (add_flag key a buckets) = record {
          own = add_flag-HasOwn a buckets e h.own;
          distinct = add_flag-DistinctKeys key a buckets h.distinct;
          sum_eq = omega (arith, add_flag-sum key a buckets, h.sum_eq);
        } in
        let same : n + 1 + length (keep (is_shown w) flags)
            ≡ n + suc (length (keep (is_shown w) flags)) =
          omega arith in
        rw e (
          subst (λ m. AreBuckets m (bucket_from w (add_flag key a buckets) flags)) same
            (bucket_from-AreBuckets flags (n + 1) (add_flag key a buckets) next))
    | inr e ↦ rw e (bucket_from-AreBuckets flags n buckets h)
  ]

  -- The buckets of the shown window: each holds flags of its own stretch of time only, no two are of
  -- one stretch, and together they hold as many flags as the window has.
  pub bucket_from_lem :
      (flags : List (Flag V))
      → let buckets = bucket_from w [] flags in
        All HasOwn buckets
        × DistinctKeys buckets
        × (sum_items buckets ≡ length (keep (is_shown w) flags))
  bucket_from_lem flags =
      let b =
        bucket_from-AreBuckets flags 0 [] (record { own = tt; distinct = tt; sum_eq = refl }) in
      (b.own, b.distinct, omega (arith, b.sum_eq))
