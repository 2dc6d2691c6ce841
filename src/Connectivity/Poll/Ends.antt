-- ===== src/Connectivity/Poll/Ends.antt =====
-- When the poll after "Save and Apply" ends, and what it says then.
use gateway_hub.Prelude.{
  ℕ, zero, suc, ◌+◌, ◌≤◌, ◌<◌, ◌≡◌, ◌≢◌, refl, ◌∙◌, Bool, true, false, Option, none, some, List, [],
  ◌∷◌, length, arith, Bool-cases, inl, inr,
}
use gateway_hub.Network.{NetworkState}
use gateway_hub.Connectivity.Poll.{
  Strip, is_pending, is_success, is_error, start_poll, tick, tick_state, run, is_reached, max_polls,
}

abbrev pub all_some : List (Option NetworkState) → Bool
all_some [] = true
all_some (none ∷ rs) = false
all_some (some s ∷ rs) = all_some rs

abbrev pub failures : ℕ → List (Option NetworkState)
failures zero = []
failures (suc n) = none ∷ failures n

-- While a tick is to come the strip is pending; a success was seen in the state shown; an error
-- came after the last poll.
pub record IsHonest (wifi : Bool) (p : Strip) : Type 0 where
  pub pending : p.scheduled ≡ true → p.cls ≡ is_pending
  pub stopped : p.scheduled ≡ false → p.cls ≢ is_pending
  pub success :
      p.cls ≡ is_success → (s : NetworkState) × (p.runtime ≡ some s) × (is_reached wifi s ≡ true)
  pub error : p.cls ≡ is_error → max_polls ≤ p.polls

module _ (wifi : Bool) where
  tick-none-IsHonest :
      (p : Strip) → p.scheduled ≡ true → IsHonest wifi p → IsHonest wifi (tick wifi p none)
  unfolding tick
  tick-none-IsHonest p up h = record {
    pending = λ _. h.pending up;
    stopped = λ e. cc;
    success = λ e. cc (h.pending up);
    error = λ e. cc (h.pending up);
  }

  tick-some-IsHonest :
      (p : Strip) (s : NetworkState)
      → p.scheduled ≡ true
      → IsHonest wifi p
      → IsHonest wifi (tick wifi p (some s))
  unfolding tick tick_state
  tick-some-IsHonest p s up h = record {
    pending = λ e. ground (arith, h.pending up);
    stopped = λ e. ground (arith, h.pending up);
    success = λ e. (s, ground (arith, h.pending up), ground (arith, h.pending up));
    error = λ e. ground (arith, h.pending up);
  }

  tick-IsHonest :
      (p : Strip) (r : Option NetworkState)
      → p.scheduled ≡ true
      → IsHonest wifi p
      → IsHonest wifi (tick wifi p r)
  tick-IsHonest p none = tick-none-IsHonest p
  tick-IsHonest p (some s) = tick-some-IsHonest p s

  run_nil : (p : Strip) → run wifi p [] ≡ p
  unfolding run
  run_nil p = refl

  run_stopped :
      (p : Strip) (rs : List (Option NetworkState)) → p.scheduled ≡ false → run wifi p rs ≡ p
  unfolding run
  run_stopped p [] h = refl
  run_stopped p (r ∷ rs) h = rw h

  run_scheduled :
      (p : Strip) (r : Option NetworkState) (rs : List (Option NetworkState))
      → p.scheduled ≡ true
      → run wifi p (r ∷ rs) ≡ run wifi (tick wifi p r) rs
  unfolding run
  run_scheduled p r rs h = rw h

  run-IsHonest :
      (rs : List (Option NetworkState)) (p : Strip)
      → IsHonest wifi p
      → IsHonest wifi (run wifi p rs)
  run-IsHonest [] p h = rw run_nil h
  run-IsHonest (r ∷ rs) p h = elim (Bool-cases p.scheduled) [
    | inl up ↦
        rw (run_scheduled p r rs up) (run-IsHonest rs (tick wifi p r) (tick-IsHonest p r up h))
    | inr down ↦ rw (run_stopped p (r ∷ rs) down) h
  ]

  tick_room :
      (p : Strip) (s : NetworkState)
      → (tick wifi p (some s)).scheduled ≡ true
      → (tick wifi p (some s)).polls < max_polls
  unfolding tick tick_state
  tick_room p s e = ground arith

  polls-tick : (p : Strip) (r : Option NetworkState) → (tick wifi p r).polls ≡ p.polls + 1
  unfolding tick tick_state
  polls-tick p r = ground arith

  tick_none_lem :
      (p : Strip) → ((tick wifi p none).scheduled ≡ true) × ((tick wifi p none).cls ≡ p.cls)
  unfolding tick
  tick_none_lem p = (refl, refl)

  -- As many answers as polls are left end the poll.
  run_ends :
      (rs : List (Option NetworkState)) (p : Strip)
      → all_some rs ≡ true
      → max_polls ≤ p.polls + length rs
      → p.polls < max_polls
      → (run wifi p rs).scheduled ≡ false
  run_ends [] p h m lt = absurd (omega arith)
  run_ends (none ∷ rs) p h m lt = cc
  run_ends (some s ∷ rs) p h m lt =
      let q = tick wifi p (some s) in
      elim (Bool-cases p.scheduled) [
        | inr down ↦ rw (run_stopped p (some s ∷ rs) down) down
        | inl up ↦ rw (run_scheduled p (some s) rs up) (elim (Bool-cases q.scheduled) [
          | inr down ↦ rw (run_stopped q rs down) down
          | inl more ↦ run_ends rs q h (omega (arith, polls-tick p (some s))) (tick_room p s more)
        ])
      ]

  run-failures :
      (n : ℕ) (p : Strip)
      → p.scheduled ≡ true
      → ((run wifi p (failures n)).scheduled ≡ true)
        × ((run wifi p (failures n)).cls ≡ p.cls)
        × ((run wifi p (failures n)).polls ≡ p.polls + n)
  run-failures zero p h = rw run_nil (h, refl, omega arith)
  run-failures (suc n) p h =
      let ih = run-failures n (tick wifi p none) (tick_none_lem p).0 in
      rw (run_scheduled p none (failures n) h)
        (ih.0, ih.1 ∙ (tick_none_lem p).1, omega (arith, ih.2, polls-tick p none))

  module _ (runtime : Option NetworkState) where
    start-IsHonest : IsHonest wifi (start_poll wifi runtime)
    unfolding start_poll
    start-IsHonest = record {
      pending = λ _. refl;
      stopped = λ e. cc;
      success = λ e. cc;
      error = λ e. cc;
    }

    -- When every poll is answered, the poll ends at the twentieth answer at the latest.
    pub poll_ends :
        (rs : List (Option NetworkState))
        → all_some rs ≡ true
        → max_polls ≤ length rs
        → (run wifi (start_poll wifi runtime) rs).scheduled ≡ false
    unfolding start_poll
    poll_ends rs h m = run_ends rs _ h (omega arith) (omega arith)

    -- Whatever is answered, in whatever order answers and failures come: the strip is pending
    -- exactly as long as a tick is to come, it says success only where the state that it shows
    -- has what was waited for, and error only after the last poll.
    pub start_poll-IsHonest :
        (rs : List (Option NetworkState)) → IsHonest wifi (run wifi (start_poll wifi runtime) rs)
    start_poll-IsHonest rs = run-IsHonest rs _ start-IsHonest

    -- While every request fails, the poll goes on, past any number of polls.
    pub poll_unreachable :
        (n : ℕ)
        → ((run wifi (start_poll wifi runtime) (failures n)).scheduled ≡ true)
          × ((run wifi (start_poll wifi runtime) (failures n)).cls ≡ is_pending)
          × ((run wifi (start_poll wifi runtime) (failures n)).polls ≡ n)
    unfolding start_poll
    poll_unreachable n =
        let r = run-failures n (start_poll wifi runtime) refl in (r.0, r.1, omega (arith, r.2))
