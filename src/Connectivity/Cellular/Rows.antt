-- ===== src/Connectivity/Cellular/Rows.antt =====
-- The rows of the modem's status in web_console/static/js/app.js, before and after an update.
use gateway_hub.Connectivity.Cellular.{
  some, CelPage, Retry, update_cellular_status, retry_of, retry_texts, error_texts, status_texts,
  set_all, all_keys, Modem,
}
use gateway_hub.Prelude.{
  keys_of, sym, subst, All, none, ap, ===-sym, truthy, ◌∙◌, inl, refl, inr, ◌===◌, if◌then◌else◌,
  Bool-cases, ◌++◌, [], true, Option, includes, ◌∷◌, ◌≡◌, map, List, Bool, String, ℕ,
}

set_all-same :
    (table : List (String × String)) (f g : String → String) (j : String)
    → f j ≡ g j
    → set_all table f j ≡ set_all table g j
set_all-same [] f g j h = h
set_all-same ((k, v) ∷ table) f g j h =
    set_all-same table (λ i. if i === k then v else f i) (λ i. if i === k then v else g i) j
      (rw h refl)

-- A text that is set does not depend on what was there.
set_all-forgets :
    (table : List (String × String)) (f g : String → String) (j : String)
    → includes (keys_of table) j ≡ true
    → set_all table f j ≡ set_all table g j
set_all-forgets [] f g j h = absurd (cc h)
set_all-forgets ((k, v) ∷ table) f g j h = elim (Bool-cases (k === j)) [
  | inl e ↦
      set_all-same table (λ i. if i === k then v else f i) (λ i. if i === k then v else g i) j
        (rw (===-sym j k, e) refl)
  | inr e ↦
      set_all-forgets table (λ i. if i === k then v else f i) (λ i. if i === k then v else g i) j
        (rw e at h)
]

-- The elements that are in sight after an update with a modem.
abbrev pub retry_keys : List String
retry_keys = "retry_count" ∷ "retry_last" ∷ "retry_next" ∷ "retry_result" ∷ []

abbrev pub visible_keys : Bool → Bool → List String
visible_keys error_shown retry_shown =
    all_keys
    ++ (if error_shown then "last_error" ∷ [] else [])
    ++ (if retry_shown then retry_keys else [])

module _ (locale : String → String) (locale_time : ℕ → String) (now : ℕ) where
  error_texts-keys :
      (c : Modem) (rest : List (String × String))
      → keys_of (error_texts locale locale_time now c ++ rest)
        ≡ (if truthy c.last_error then "last_error" ∷ [] else []) ++ keys_of rest
  unfolding error_texts
  error_texts-keys c rest = elim (Bool-cases (truthy c.last_error)) [
    | inl e ↦ rw e refl
    | inr e ↦ rw e refl
  ]

  retry_texts-keys :
      (r : Option Retry)
      → keys_of (retry_texts locale locale_time now r) ≡ (if retry_of r then retry_keys else [])
  unfolding retry_texts
  retry_texts-keys none = refl
  retry_texts-keys (some r) = elim (Bool-cases (retry_of (some r))) [
    | inl e ↦ rw e refl
    | inr e ↦ rw e refl
  ]

  abbrev texts_of : Modem → Option String → List (String × String)
  texts_of c uplink =
      status_texts locale locale_time now c uplink
      ++ error_texts locale locale_time now c
      ++ retry_texts locale locale_time now c.retry

  texts_of-keys :
      (c : Modem) (uplink : Option String)
      → keys_of (texts_of c uplink) ≡ visible_keys (truthy c.last_error) (retry_of c.retry)
  unfolding status_texts
  texts_of-keys c uplink = ap (all_keys ++◌) (
      error_texts-keys c (retry_texts locale locale_time now c.retry)
      ∙ ap ((if truthy c.last_error then "last_error" ∷ [] else []) ++◌) (retry_texts-keys c.retry))

  -- An update with a modem sets every text that is then in sight, and which rows are: two pages
  -- that the same answer updates look alike, whatever they showed before.
  pub update_cellular_status-forgets :
      (c : Modem) (uplink : Option String) (p q : CelPage) (key : String)
      → includes (visible_keys (truthy c.last_error) (retry_of c.retry)) key ≡ true
      → let p' = update_cellular_status locale locale_time now (some c) uplink p in
        let q' = update_cellular_status locale locale_time now (some c) uplink q in
        (p'.error_shown ≡ q'.error_shown)
        × (p'.retry_shown ≡ q'.retry_shown)
        × (p'.texts key ≡ q'.texts key)
  unfolding update_cellular_status
  update_cellular_status-forgets c uplink p q key h = (
    refl,
    refl,
    set_all-forgets (texts_of c uplink) p.texts q.texts key
        (subst (λ ks. includes ks key ≡ true) (sym (texts_of-keys c uplink)) h),
  )

  dashes-kept :
      (key : String) (keys : List String) (f : String → String)
      → f key ≡ "—"
      → set_all (map (λ k. (k, "—")) keys) f key ≡ "—"
  dashes-kept key [] f h = h
  dashes-kept key (k ∷ keys) f h =
      dashes-kept key keys (λ j. if j === k then "—" else f j)
        (elim (Bool-cases (key === k)) [ inl e ↦ rw e refl | inr e ↦ rw e h ])

  dashes :
      (key : String) (keys : List String) (f : String → String)
      → includes keys key ≡ true
      → set_all (map (λ k. (k, "—")) keys) f key ≡ "—"
  dashes key [] f h = absurd (cc h)
  dashes key (k ∷ keys) f h = elim (Bool-cases (k === key)) [
    | inl e ↦ dashes-kept key keys (λ j. if j === k then "—" else f j) (rw (===-sym key k, e) refl)
    | inr e ↦ dashes key keys (λ j. if j === k then "—" else f j) (rw e at h)
  ]

  -- When the answer has no modem any more, the nineteen texts of its status become dashes; but the
  -- rows of the last error and of the retries stay as they were, in sight and with their old texts.
  pub update_cellular_status-lost :
      (uplink : Option String) (p : CelPage) (key : String)
      → includes all_keys key ≡ true
      → let q = update_cellular_status locale locale_time now none uplink p in
        (q.texts key ≡ "—")
        × (q.error_shown ≡ p.error_shown)
        × (q.retry_shown ≡ p.retry_shown)
        × (q.texts "last_error" ≡ p.texts "last_error")
        × All (λ k. q.texts k ≡ p.texts k) retry_keys
  unfolding update_cellular_status
  update_cellular_status-lost uplink p key h =
      (dashes key all_keys p.texts h, refl, refl, refl, (refl, (refl, (refl, (refl, tt)))))
