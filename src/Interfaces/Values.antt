-- ===== src/Interfaces/Values.antt =====
-- The objects that the interfaces page in web_console/static/js/app.js reads off its inputs.
use gateway_hub.Prelude.Int.{nonzero_or, pos, ℤ}
use gateway_hub.Prelude.{
  set_key, ◌∙◌, eq_iff, lookup_in, inr, ===-other, inl, refl, Bool-cases, includes, [], false,
  eq_refl, ◌∷◌, if◌then◌else◌, none, ◌≡◌, ◌===◌, List, some, Bool, Option, String,
}

-- An input by its `type`, with `checked` and `value`.
pub data Input : Type 0 where
  checkbox : Bool → String → Input
  number : String → Input
  words : String → Input

abbrev pub value_of : Input → String
value_of (checkbox b s) = s
value_of (number s) = s
value_of (words s) = s

-- `NaN` is `whole none`.
pub data Value (F : Type 0) : Type 0 where
  flag : Bool → Value F
  whole : Option ℤ → Value F
  decimal : F → Value F
  text : String → Value F
  null : Value F

-- `elements.forEach((el) => { table[key] = read(key, el); })`
abbrev pub collect {ℓ} :
    {A B : Type ℓ} → (String → A → B) → List (String × A) → List (String × B) → List (String × B)
collect read [] table = table
collect read ((k, x) ∷ els) table = collect read els (set_key k (read k x) table)

module _ {F : Type 0} (parse_int : String → Option ℤ) where
  -- The settings of a serial line.
  abbrev pub serial_value : String → String → Value F
  serial_value key s =
      if includes ("baud_rate" ∷ "stop_bits" ∷ "data_bits" ∷ []) key
      then whole (parse_int s)
      else text s

  -- `parseInt(s, 10) || 0`
  abbrev pub int_value : String → Value F
  int_value s = whole (some (nonzero_or (pos 0) (parse_int s)))

pub get-set_same {ℓ} :
    {A : Type ℓ} (key : String) (v : A) (table : List (String × A))
    → lookup_in key (set_key key v table) ≡ some v
get-set_same key v [] = rw (eq_refl key) refl
get-set_same key v ((k, w) ∷ table) = elim (Bool-cases (k === key)) [
  | inl e ↦ rw (e, e) refl
  | inr e ↦ rw (e, e) (get-set_same key v table)
]

pub get-set_other {ℓ} :
    {A : Type ℓ} (key j : String) (v : A) (table : List (String × A))
    → (j === key) ≡ false
    → lookup_in key (set_key j v table) ≡ lookup_in key table
get-set_other key j v [] h = rw h refl
get-set_other key j v ((k, w) ∷ table) h = elim (Bool-cases (k === j)) [
  | inl e ↦ rw (e, ===-other k j key e h) refl
  | inr e ↦ rw e (elim (Bool-cases (k === key)) [
    | inl q ↦ rw q refl
    | inr q ↦ rw q (get-set_other key j v table h)
  ])
]

abbrev pub first_some {ℓ} : {A : Type ℓ} → Option A → Option A → Option A
first_some none b = b
first_some (some a) b = some a

-- The last element with the key.
abbrev pub last_of {ℓ} : {A : Type ℓ} → String → List (String × A) → Option A
last_of key [] = none
last_of key ((k, x) ∷ els) = first_some (last_of key els) (if k === key then some x else none)

abbrev pub read_some {ℓ} : {A B : Type ℓ} → (String → A → B) → String → Option A → Option B
read_some read key none = none
read_some read key (some x) = some (read key x)

get-collect_step {ℓ} :
    {A B : Type ℓ} (read : String → A → B) (key k : String) (x : A) (last : Option A)
    (table : List (String × B))
    → first_some (read_some read key last) (lookup_in key (set_key k (read k x) table))
      ≡ first_some
          (read_some read key (first_some last (if k === key then some x else none)))
          (lookup_in key table)
get-collect_step read key k x (some y) table = refl
get-collect_step read key k x none table = elim (Bool-cases (k === key)) [
  | inl e ↦ rw (e, (eq_iff k key).0 e) (get-set_same key (read key x) table)
  | inr e ↦ rw e (get-set_other key k (read k x) table e)
]

-- A key of a collected object has the value of its last element, or else what it had before.
pub get-collect {ℓ} :
    {A B : Type ℓ} (read : String → A → B) (key : String) (els : List (String × A))
    (table : List (String × B))
    → lookup_in key (collect read els table)
      ≡ first_some (read_some read key (last_of key els)) (lookup_in key table)
get-collect read key [] table = refl
get-collect read key ((k, x) ∷ els) table =
    get-collect read key els (set_key k (read k x) table)
    ∙ get-collect_step read key k x (last_of key els) table
