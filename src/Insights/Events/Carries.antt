-- ===== src/Insights/Events/Carries.antt =====
-- What the requests of the events tab in web_console/static/js/app.js carry.
use gateway_hub.Insights.Events.Sent.{has_colon}
use gateway_hub.Insights.Events.{set_if_filled, split_key, inc_params, Params, Tab, ev_params}
use gateway_hub.Prelude.{
  ap, ◌∙◌, ◌⊎◌, ◌==◌, true, none, false, ◌===◌, some, Option, if◌then◌else◌, String, lookup_in,
  arith, List, inr, inl, Bool-cases, Bool, ◌≡◌, [], ◌∷◌, refl,
}
use Prim.Native.Char.{Char, code}
use Prim.Native.String
use text.Mathlib.TextEquality.{Char-path}
use text.Mathlib.TextLemmas.{nil-append, cons-append}

-- A text that is not empty.
abbrev pub filled : String → Option String
filled s = if s === "" then none else some s

-- The device of a request is the one that is chosen: its source and its id, joined by a colon, are the
-- choice; a choice without a colon is the source. Without a choice there is none.
abbrev pub HasDevice : String → Bool → Params → Type 0
HasDevice chosen true q = (lookup_in "source" q ≡ none) × (lookup_in "device_id" q ≡ none)
HasDevice chosen false q =
    (source : String) × (id : String) × (lookup_in "source" q ≡ some source)
    × (lookup_in "device_id" q ≡ some id)
    × (has_colon source ≡ false)
    × ((if has_colon chosen then String.◌++◌ source (String.◌++◌ ":" id) else source) ≡ chosen)

-- The parameters of a request for raw events: the window, the severity unless it is empty, the device.
abbrev pub CarriesEvents : Tab → Params → Type 0
CarriesEvents t q =
    (lookup_in "window" q ≡ some t.window)
    × (lookup_in "severity" q ≡ filled t.severity)
    × HasDevice t.chosen_device (t.chosen_device === "") q

-- Those of a request for incidents: of sensors, in the window, of the status and of the domain unless
-- these are empty.
abbrev pub CarriesIncidents : Tab → Params → Type 0
CarriesIncidents t q =
    (lookup_in "window" q ≡ some t.inc_window)
    × (lookup_in "scope" q ≡ some "sensors")
    × (lookup_in "status" q ≡ filled t.inc_status)
    × (lookup_in "domain" q ≡ filled t.inc_domain)

-- The last request that was sent, if there is one.
abbrev pub Latest : (Params → Type 0) → List Params → Type 0
Latest Carries [] = Unit
Latest Carries (q ∷ earlier) = Carries q

abbrev pub colon : Char
colon = ":"

pub colon-eq : (c : Char) → (code c == b':') ≡ true → c ≡ colon
colon-eq c e = Char-path c colon (let same : code c ≡ code colon = ground arith in same)

pub set_if_filled-other :
    (key name value : String) (rest : Params)
    → (name === key) ≡ false
    → lookup_in key (set_if_filled name value rest) ≡ lookup_in key rest
set_if_filled-other key name value rest h = elim (Bool-cases (value === "")) [
  | inl e ↦ rw e refl
  | inr e ↦ rw (e, h) refl
]

pub set_if_filled-same :
    (key value : String) (rest : Params)
    → (key === key) ≡ true
    → lookup_in key rest ≡ none
    → lookup_in key (set_if_filled key value rest) ≡ filled value
set_if_filled-same key value rest h k = elim (Bool-cases (value === "")) [
  | inl e ↦ rw e k
  | inr e ↦ rw (e, h) refl
]

pub cons_parts :
    (c : Char) (s : String)
    → (code c == b':') ≡ false
    → (has_colon s ≡ true) ⊎ (has_colon s ≡ false)
    → (has_colon (split_key s).0 ≡ false)
      × ((if has_colon s
            then String.◌++◌ (split_key s).0 (String.◌++◌ ":" (split_key s).1)
            else (split_key s).0)
          ≡ s)
    → (has_colon (String.◌∷◌ c (split_key s).0) ≡ false)
      × ((if has_colon s
            then String.◌++◌ (String.◌∷◌ c (split_key s).0) (String.◌++◌ ":" (split_key s).1)
            else String.◌∷◌ c (split_key s).0)
          ≡ String.◌∷◌ c s)
cons_parts c s h (inl e) p = (
  rw h p.0,
  rw e (
      cons-append c (split_key s).0 (String.◌++◌ ":" (split_key s).1)
      ∙ ap (String.◌∷◌ c) (rw e at p.1)),
)
cons_parts c s h (inr e) p = (rw h p.0, rw e (ap (String.◌∷◌ c) (rw e at p.1)))

pub split_key-parts :
    (s : String)
    → let parts = split_key s in
      (has_colon parts.0 ≡ false)
      × ((if has_colon s then String.◌++◌ parts.0 (String.◌++◌ ":" parts.1) else parts.0) ≡ s)
split_key-parts String.[] = (refl, refl)
split_key-parts (String.◌∷◌ c s) = elim (Bool-cases (code c == b':')) [
  | inl e ↦ rw e (
    refl,
    rw (nil-append (String.◌++◌ ":" s), colon-eq c e)
        (cons-append colon "" s ∙ ap (String.◌∷◌ colon) (nil-append s)),
  )
  | inr e ↦ rw e (cons_parts c s e (Bool-cases (has_colon s)) (split_key-parts s))
]

pub ev_params-CarriesEvents :
    (t : Tab) → CarriesEvents t (ev_params t.window t.severity t.chosen_device)
unfolding ev_params
ev_params-CarriesEvents t =
    let device : Params =
      if t.chosen_device === ""
      then []
      else ("source", (split_key t.chosen_device).0)
        ∷ ("device_id", (split_key t.chosen_device).1)
        ∷ [] in
    (
      refl,
      set_if_filled-same "severity" t.severity device refl
          (elim (Bool-cases (t.chosen_device === "")) [ inl e ↦ rw e refl | inr e ↦ rw e refl ]),
      elim (Bool-cases (t.chosen_device === "")) [
        | inl e ↦
            rw
              (
                e,
                set_if_filled-other "source" "severity" t.severity [] refl,
                set_if_filled-other "device_id" "severity" t.severity [] refl,
              )
              (refl, refl)
        | inr e ↦
            let parts = split_key-parts t.chosen_device in
            let two : Params =
              ("source", (split_key t.chosen_device).0)
              ∷ ("device_id", (split_key t.chosen_device).1)
              ∷ [] in
            rw e (
              (split_key t.chosen_device).0,
              (split_key t.chosen_device).1,
              set_if_filled-other "source" "severity" t.severity two refl,
              set_if_filled-other "device_id" "severity" t.severity two refl,
              parts.0,
              parts.1,
            )
      ],
    )

pub inc_params-CarriesIncidents :
    (t : Tab) → CarriesIncidents t (inc_params t.inc_window t.inc_status t.inc_domain)
unfolding inc_params
inc_params-CarriesIncidents t =
    let domain = set_if_filled "domain" t.inc_domain [] in
    (
      refl,
      refl,
      set_if_filled-same "status" t.inc_status domain refl
          (set_if_filled-other "status" "domain" t.inc_domain [] refl),
      set_if_filled-other "domain" "status" t.inc_status domain refl
          ∙ set_if_filled-same "domain" t.inc_domain [] refl refl,
    )
