-- ===== src/Sensors/Issues/Groups.antt =====
-- The groups of the list of issues against the anomalies that they are made of.
use gateway_hub.Prelude.Sort.{OrderedBy, sort_by-perm, sort_by-OrderedBy}
use mathlib.Core.List.{Perm, append-nil}
use gateway_hub.Sensors.Issues.{
  issues, later, group_from, new_group, add_event, group_key, Group, Anomaly, count_in,
}
use gateway_hub.Prelude.{
  append_assoc, ◌∙◌, subst, sym, includes, All-append, length-append, ltb, inr, inl, Bool-cases,
  eq_iff, ===-sym, keep, arith, true, length, false, ◌++◌, ◌+◌, ◌≡◌, All, ◌===◌, map, ◌≤◌, Bool,
  List, ℕ, String, [], ◌∷◌, refl,
}

abbrev pub of_key : String → Anomaly → Bool
of_key key e = group_key e === key

-- A group counts the events of its key, and no event of its key is later than its latest one, which
-- has that key too.
pub record Describes (seen : List Anomaly) (g : Group) : Type 0 where
  pub count_eq : g.count ≡ length (keep (of_key g.key) seen)
  pub latest_key : group_key g.latest ≡ g.key
  pub latest_max : All (λ e. e.ts_ms ≤ g.latest.ts_ms) (keep (of_key g.key) seen)

-- No two groups have one key.
abbrev pub DistinctKeys : List Group → Type 0
DistinctKeys [] = Unit
DistinctKeys (g ∷ groups) = All (λ h. (h.key === g.key) ≡ false) groups × DistinctKeys groups

abbrev pub sum_counts : List Group → ℕ
sum_counts [] = 0
sum_counts (g ∷ groups) = g.count + sum_counts groups

abbrev group_keys : List Group → List String
group_keys groups = map (λ g. g.key) groups

keep-snoc_true :
    (p : Anomaly → Bool) (xs : List Anomaly) (e : Anomaly)
    → p e ≡ true
    → keep p (xs ++ (e ∷ [])) ≡ keep p xs ++ (e ∷ [])
keep-snoc_true p [] e h = rw h refl
keep-snoc_true p (x ∷ xs) e h = elim (Bool-cases (p x)) [
  | inl k ↦ rw (keep-snoc_true p xs e h, k) refl
  | inr k ↦ rw (keep-snoc_true p xs e h, k) refl
]

keep-snoc_false :
    (p : Anomaly → Bool) (xs : List Anomaly) (e : Anomaly)
    → p e ≡ false
    → keep p (xs ++ (e ∷ [])) ≡ keep p xs
keep-snoc_false p [] e h = rw h refl
keep-snoc_false p (x ∷ xs) e h = rw (keep-snoc_false p xs e h) refl

All-le :
    (a b : ℕ) (xs : List Anomaly) → a ≤ b → All (λ e. e.ts_ms ≤ a) xs → All (λ e. e.ts_ms ≤ b) xs
All-le a b [] h k = tt
All-le a b (x ∷ xs) h k = (omega (arith, k.0), All-le a b xs h k.1)

other-Describes :
    (seen : List Anomaly) (e : Anomaly) (g : Group)
    → (g.key === group_key e) ≡ false
    → Describes seen g
    → Describes (seen ++ (e ∷ [])) g
other-Describes seen e g ne d =
    let same = keep-snoc_false (of_key g.key) seen e (rw (===-sym (group_key e) g.key) ne) in
    record {
      count_eq = rw same d.count_eq;
      latest_key = d.latest_key;
      latest_max = rw same d.latest_max;
    }

counted-Describes :
    (seen : List Anomaly) (e : Anomaly) (g : Group)
    → group_key e ≡ g.key
    → Describes seen g
    → Describes (seen ++ (e ∷ [])) (count_in e g)
unfolding count_in
counted-Describes seen e g key d =
    let more = keep-snoc_true (of_key g.key) seen e ((eq_iff _ _).1 key) in
    let own = keep (of_key g.key) seen in
    elim (Bool-cases (ltb g.latest.ts_ms e.ts_ms)) [
      | inl h ↦ rw h (record {
        count_eq = rw (more, length-append own (e ∷ [])) (omega (arith, d.count_eq));
        latest_key = key;
        latest_max = rw more (
            All-append _ own (e ∷ []) (All-le _ _ own (ground arith) d.latest_max)
              (omega arith, tt));
      })
      | inr h ↦ rw h (record {
        count_eq = rw (more, length-append own (e ∷ [])) (omega (arith, d.count_eq));
        latest_key = d.latest_key;
        latest_max = rw more (All-append _ own (e ∷ []) d.latest_max (ground arith, tt));
      })
    ]

module _ (display : String → String) where
  new-Describes :
      (seen : List Anomaly) (e : Anomaly)
      → keep (of_key (group_key e)) seen ≡ []
      → Describes (seen ++ (e ∷ [])) (count_in e (new_group display e))
  unfolding new_group
  new-Describes seen e none_seen =
      counted-Describes seen e (new_group display e) refl
        (record { count_eq = rw none_seen refl; latest_key = refl; latest_max = rw none_seen tt })

  others-Describe :
      (seen : List Anomaly) (e : Anomaly) (groups : List Group)
      → All (λ h. (h.key === group_key e) ≡ false) groups
      → All (Describes seen) groups
      → All (Describes (seen ++ (e ∷ []))) groups
  others-Describe seen e [] ne d = tt
  others-Describe seen e (g ∷ groups) ne d =
      (other-Describes seen e g ne.0 d.0, others-Describe seen e groups ne.1 d.1)

  add_event-Describe :
      (seen : List Anomaly) (e : Anomaly) (groups : List Group)
      → All (Describes seen) groups
      → DistinctKeys groups
      → (includes (group_keys groups) (group_key e) ≡ false → keep (of_key (group_key e)) seen ≡ [])
      → All (Describes (seen ++ (e ∷ []))) (add_event display e groups)
  unfolding add_event
  add_event-Describe seen e [] d k covers = (new-Describes seen e (covers refl), tt)
  add_event-Describe seen e (g ∷ groups) d k covers = elim (Bool-cases (g.key === group_key e)) [
    | inl h ↦
        let key : g.key ≡ group_key e = (eq_iff _ _).0 h in
        rw h (
          counted-Describes seen e g (sym key) d.0,
          others-Describe seen e groups
              (subst (λ x. All (λ o. (o.key === x) ≡ false) groups) key k.0) d.1,
        )
    | inr h ↦ rw h (
      other-Describes seen e g h d.0,
      add_event-Describe seen e groups d.1 k.1 (λ f. covers (rw h f)),
    )
  ]

  -- A key that no group has after an event is not the event's, and no group had it before.
  add_event-keys :
      (e : Anomaly) (k : String) (groups : List Group)
      → includes (group_keys (add_event display e groups)) k ≡ false
      → (includes (group_keys groups) k ≡ false) × ((group_key e === k) ≡ false)
  unfolding add_event new_group count_in
  add_event-keys e k [] h = elim (Bool-cases (group_key e === k)) [
    | inl f ↦ absurd (cc (rw f at h))
    | inr f ↦ (refl, f)
  ]
  add_event-keys e k (g ∷ groups) h = elim (Bool-cases (g.key === group_key e)) [
    | inl m ↦ (
      rw m at h,
      elim (Bool-cases (g.key === k)) [
        | inl f ↦ absurd (cc (rw (m, f) at h))
        | inr f ↦ subst (λ x. (x === k) ≡ false) ((eq_iff _ _).0 m) f
      ],
    )
    | inr m ↦ elim (Bool-cases (g.key === k)) [
      | inl f ↦ absurd (cc (rw (m, f) at h))
      | inr f ↦ rw f (add_event-keys e k groups (rw (m, f) at h))
    ]
  ]

  add_event-apart :
      (e : Anomaly) (k : String) (groups : List Group)
      → (group_key e === k) ≡ false
      → All (λ h. (h.key === k) ≡ false) groups
      → All (λ h. (h.key === k) ≡ false) (add_event display e groups)
  unfolding add_event new_group count_in
  add_event-apart e k [] ne a = (ne, tt)
  add_event-apart e k (g ∷ groups) ne a = elim (Bool-cases (g.key === group_key e)) [
    | inl h ↦ rw h a
    | inr h ↦ rw h (a.0, add_event-apart e k groups ne a.1)
  ]

  add_event-DistinctKeys :
      (e : Anomaly) (groups : List Group)
      → DistinctKeys groups
      → DistinctKeys (add_event display e groups)
  unfolding add_event count_in
  add_event-DistinctKeys e [] k = (tt, tt)
  add_event-DistinctKeys e (g ∷ groups) k = elim (Bool-cases (g.key === group_key e)) [
    | inl h ↦ rw h k
    | inr h ↦ rw h (
      add_event-apart e g.key groups (rw (===-sym (group_key e) g.key) h) k.0,
      add_event-DistinctKeys e groups k.1,
    )
  ]

  add_event-sum :
      (e : Anomaly) (groups : List Group)
      → sum_counts (add_event display e groups) ≡ sum_counts groups + 1
  unfolding add_event new_group count_in
  add_event-sum e [] = refl
  add_event-sum e (g ∷ groups) = elim (Bool-cases (g.key === group_key e)) [
    | inl h ↦ rw h (omega arith)
    | inr h ↦ rw h (omega (arith, add_event-sum e groups))
  ]

  -- The groups of the events seen so far.
  record AreGroups (seen : List Anomaly) (groups : List Group) : Type 0 where
    describe : All (Describes seen) groups
    distinct : DistinctKeys groups
    covers : (k : String) → includes (group_keys groups) k ≡ false → keep (of_key k) seen ≡ []
    sum_eq : sum_counts groups ≡ length seen

  add_event-AreGroups :
      (seen : List Anomaly) (e : Anomaly) (groups : List Group)
      → AreGroups seen groups
      → AreGroups (seen ++ (e ∷ [])) (add_event display e groups)
  add_event-AreGroups seen e groups a = record {
    describe = add_event-Describe seen e groups a.describe a.distinct (a.covers (group_key e));
    distinct = add_event-DistinctKeys e groups a.distinct;
    covers = λ k h.
        let r = add_event-keys e k groups h in
        keep-snoc_false (of_key k) seen e r.1 ∙ a.covers k r.0;
    sum_eq = rw (length-append seen (e ∷ [])) (omega (arith, add_event-sum e groups, a.sum_eq));
  }

  group_from-AreGroups :
      (events seen : List Anomaly) (groups : List Group)
      → AreGroups seen groups
      → AreGroups (seen ++ events) (group_from display groups events)
  unfolding group_from
  group_from-AreGroups [] seen groups a = rw (append-nil seen) a
  group_from-AreGroups (e ∷ events) seen groups a = rw (← append_assoc seen (e ∷ []) events) (
      group_from-AreGroups events (seen ++ (e ∷ [])) (add_event display e groups)
        (add_event-AreGroups seen e groups a))

  later_trans : (a b c : Group) → later a b ≡ true → later b c ≡ true → later a c ≡ true
  later_trans a b c h k = ground arith

  later_total : (a b : Group) → later a b ≡ false → later b a ≡ true
  later_total a b h = ground arith

  -- The issues are the groups of the events in the order of their latest events: no two groups have
  -- one key, each counts the events of its key and holds a latest one of them, and the counts of all
  -- groups make up the number of events.
  pub issues_lem :
      (events : List Anomaly)
      → let groups = group_from display [] events in
        Perm (issues display events) groups
        × OrderedBy later (issues display events)
        × All (Describes events) groups
        × DistinctKeys groups
        × (sum_counts groups ≡ length events)
  unfolding issues
  issues_lem events =
      let start : AreGroups [] [] = record {
        describe = tt;
        distinct = tt;
        covers = λ k h. refl;
        sum_eq = refl;
      } in
      let a = group_from-AreGroups events [] [] start in
      let groups = group_from display [] events in
      (
        sort_by-perm later groups,
        sort_by-OrderedBy later later_trans later_total groups,
        a.describe,
        a.distinct,
        a.sum_eq,
      )
