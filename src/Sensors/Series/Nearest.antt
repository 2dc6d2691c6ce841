-- ===== src/Sensors/Series/Nearest.antt =====
-- The value at a time is that of the nearest sample that has one.
use gateway_hub.Sensors.Series.{beats, Sample, Best, nearest_from, series_value_at}
use mathlib.Core.List.{append-nil, append_assoc}
use gateway_hub.Prelude.{
  inr, inl, ltb, arith, All-append, Option-cases, Bool-cases, ◌⊎◌, All, ◌++◌, none, some, ◌<◌, ◌≤◌,
  ◌≡◌, if◌then◌else◌, List, ℕ, [], ◌∷◌, refl,
}

module _ {V : Type 0} (apart : ℕ → ℕ → ℕ) (at : ℕ) where
  -- The readings of the samples that have one, with their distances as the browser computes
  -- them.
  abbrev pub readings : List (Sample V) → List (V × ℕ)
  readings [] = []
  readings (s ∷ samples) = elim s.avg [
    | none ↦ readings samples
    | some v ↦ (v, apart s.time at) ∷ readings samples
  ]

  -- The first of the nearest readings: those before it are further off, none after it is nearer.
  pub record IsFirstNearest (v : V) (d : ℕ) (all : List (V × ℕ)) : Type 0 where
    pub before : List (V × ℕ)
    pub after : List (V × ℕ)
    pub all_eq : all ≡ before ++ ((v, d) ∷ after)
    pub before_gt : All (λ r. d < r.1) before
    pub after_ge : All (λ r. d ≤ r.1) after

  IsBest : Best V → List (V × ℕ) → Type 0
  IsBest none all = all ≡ []
  IsBest (some (v, d)) all = IsFirstNearest v d all

  All-closer : (d e : ℕ) (rs : List (V × ℕ)) → e < d → All (λ r. d ≤ r.1) rs → All (λ r. e < r.1) rs
  All-closer d e [] h k = tt
  All-closer d e (r ∷ rs) h k = (omega (arith, k.0), All-closer d e rs h k.1)

  All-lt : (d e : ℕ) (rs : List (V × ℕ)) → e < d → All (λ r. d < r.1) rs → All (λ r. e < r.1) rs
  All-lt d e [] h k = tt
  All-lt d e (r ∷ rs) h k = (omega (arith, k.0), All-lt d e rs h k.1)

  replaced :
      (v w : V) (d e : ℕ) (all : List (V × ℕ))
      → e < d
      → IsFirstNearest v d all
      → IsFirstNearest w e (all ++ ((w, e) ∷ []))
  replaced v w d e all h n = record {
    before = all;
    after = [];
    all_eq = refl;
    before_gt = rw n.all_eq (
        All-append _ n.before ((v, d) ∷ n.after) (All-lt d e n.before h n.before_gt)
          (h, All-closer d e n.after h n.after_ge));
    after_ge = tt;
  }

  kept :
      (v w : V) (d e : ℕ) (all : List (V × ℕ))
      → d ≤ e
      → IsFirstNearest v d all
      → IsFirstNearest v d (all ++ ((w, e) ∷ []))
  kept v w d e all h n = record {
    before = n.before;
    after = n.after ++ ((w, e) ∷ []);
    all_eq = rw n.all_eq (append_assoc n.before ((v, d) ∷ n.after) ((w, e) ∷ []));
    before_gt = n.before_gt;
    after_ge = All-append _ n.after ((w, e) ∷ []) n.after_ge (h, tt);
  }

  next :
      (best : Best V) (w : V) (e : ℕ) (all : List (V × ℕ))
      → IsBest best all
      → IsBest (if beats e best then some (w, e) else best) (all ++ ((w, e) ∷ []))
  unfolding IsBest
  next none w e all h = record {
    before = [];
    after = [];
    all_eq = rw h refl;
    before_gt = tt;
    after_ge = tt;
  }
  next (some (v, d)) w e all h = elim (Bool-cases (ltb e d)) [
    | inl c ↦ rw c (replaced v w d e all (ground arith) h)
    | inr c ↦ rw c (kept v w d e all (ground arith) h)
  ]

  nearest_from-IsBest :
      (samples : List (Sample V)) (best : Best V) (all : List (V × ℕ))
      → IsBest best all
      → IsBest (nearest_from apart at samples best) (all ++ readings samples)
  unfolding nearest_from
  nearest_from-IsBest [] best all h = rw (append-nil all) h
  nearest_from-IsBest (s ∷ samples) best all h = elim (Option-cases s.avg) [
    | inl e ↦ rw e (nearest_from-IsBest samples best all h)
    | inr (v, e) ↦
        rw (e, ← append_assoc all ((v, apart s.time at) ∷ []) (readings samples))
          (nearest_from-IsBest samples _ _ (next best v (apart s.time at) all h))
  ]

  -- The value that is shown at a time: none if no sample has a reading, and otherwise the reading of the
  -- first of the samples with a reading whose distance from that time, as the browser computes it, is the
  -- least.
  pub series_value_at_lem :
      (samples : List (Sample V))
      → ((series_value_at apart at samples ≡ none) × (readings samples ≡ []))
        ⊎ ((v : V) × (d : ℕ) × (series_value_at apart at samples ≡ some v)
            × IsFirstNearest v d (readings samples))
  unfolding series_value_at IsBest
  series_value_at_lem samples =
      let b = nearest_from-IsBest samples none [] refl in
      elim (Option-cases (nearest_from apart at samples none)) [
        | inl e ↦ inl (rw e refl, rw e at b)
        | inr ((v, d), e) ↦ inr (v, d, rw e refl, rw e at b)
      ]
