-- ===== src/Prelude/Text.antt =====
-- Texts as the scripts build them: template literals, `String(n)`, and `||` on a text that may
-- be missing or empty.
use Prim.Native.Nat.{ℕ, zero, suc, ◌/◌, ◌%◌}
use mathlib.Core.Path.{◌≡◌, refl}
use mathlib.Core.Logic.{◌≢◌, inl, inr}
use text.Mathlib.TextEquality.{eq_iff}
use text.Mathlib.TextLemmas.{append-ne-nil_of_right_ne-nil}
use gateway_hub.Prelude.Tests.{Bool-cases}
use Prim.Native.String.{String}
use Prim.Native.String
use mathlib.Core.Bool.{Bool, true, false}
use mathlib.Core.Option.{Option, none, some}
use mathlib.Core.List.{List, [], ◌∷◌}
use gateway_hub.Prelude.Tests.{ltb, ◌==◌, ◌===◌, if◌then◌else◌}

-- A template literal: its pieces, joined.
unfoldable pub template : List String → String
template [] = ""
template (s ∷ rest) = String.◌++◌ s (template rest)

digit : ℕ → String
digit n =
    if n == 0
    then "0"
    else if n == 1
    then "1"
    else if n == 2
    then "2"
    else if n == 3
    then "3"
    else if n == 4
    then "4"
    else if n == 5
    then "5"
    else if n == 6
    then "6"
    else if n == 7
    then "7"
    else if n == 8
    then "8"
    else "9"

-- The decimal digits of `n`, the fuel being above `n`.
decimal : ℕ → ℕ → String
unfolding digit
decimal zero n = ""
decimal (suc f) n =
    let upper = decimal f (n / 10) in
    if ltb n 10 then digit n else String.◌++◌ upper (digit (n % 10))

-- `String(n)` of a natural number.
unfoldable pub to_string : ℕ → String
unfolding decimal
to_string n = decimal (suc n) n

-- `Boolean(s)` of a text that may be missing.
abbrev pub truthy : Option String → Bool
truthy none = false
truthy (some s) = if s === "" then false else true

-- `s || d`
abbrev pub or_text : Option String → String → String
or_text none d = d
or_text (some s) d = if s === "" then d else s

-- `{ key: text, … }[k]` of a table of texts; a key that is missing gives none.
abbrev pub lookup_text : String → List (String × String) → Option String
lookup_text k [] = none
lookup_text k ((j, v) ∷ table) = if k === j then some v else lookup_text k table

-- `xs.includes(s)`
abbrev pub includes : List String → String → Bool
includes [] s = false
includes (x ∷ xs) s = if x === s then true else includes xs s

-- `table[key]`
abbrev pub lookup_in {ℓ} : {A : Type ℓ} → String → List (String × A) → Option A
lookup_in key [] = none
lookup_in key ((k, v) ∷ table) = if k === key then some v else lookup_in key table

-- `table[key] = v`
abbrev pub set_key {ℓ} : {A : Type ℓ} → String → A → List (String × A) → List (String × A)
set_key key v [] = (key, v) ∷ []
set_key key v ((k, w) ∷ table) =
    let rest = set_key key v table in if k === key then (k, v) ∷ table else (k, w) ∷ rest

-- `parts.join(separator)`
abbrev pub joined : String → List String → String
joined separator [] = ""
joined separator (s ∷ []) = s
joined separator (s ∷ t ∷ rest) = template (s ∷ separator ∷ joined separator (t ∷ rest) ∷ [])

-- `Object.keys(table)`
abbrev pub keys_of {ℓ} : {A : Type ℓ} → List (String × A) → List String
keys_of [] = []
keys_of ((k, v) ∷ table) = k ∷ keys_of table

either-filled :
    (b : Bool) (s t : String)
    → (s === "") ≡ false
    → (t === "") ≡ false
    → ((if b then s else t) === "") ≡ false
either-filled true s t h k = h
either-filled false s t h k = k

digit-filled : (n : ℕ) → (digit n === "") ≡ false
unfolding digit
digit-filled n = either-filled (n == 0) "0" _ refl (
    either-filled (n == 1) "1" _ refl (
      either-filled (n == 2) "2" _ refl (
        either-filled (n == 3) "3" _ refl (
          either-filled (n == 4) "4" _ refl (
            either-filled (n == 5) "5" _ refl (
              either-filled (n == 6) "6" _ refl
                (either-filled (n == 7) "7" _ refl (either-filled (n == 8) "8" _ refl refl))))))))

pub text_differs : (a b : String) → (a === b) ≡ false → a ≢ b
text_differs a b h e = absurd (cc (h, (eq_iff a b).1 e))

pub text_blank : (s : String) → s ≢ "" → (s === "") ≡ false
text_blank s h = elim (Bool-cases (s === "")) [ inl e ↦ absurd (h ((eq_iff s "").0 e)) | inr e ↦ e ]

decimal-filled : (f n : ℕ) → decimal (suc f) n ≢ ""
unfolding decimal
decimal-filled f n = elim (Bool-cases (ltb n 10)) [
  | inl e ↦ rw e (text_differs (digit n) "" (digit-filled n))
  | inr e ↦ rw e (
      append-ne-nil_of_right_ne-nil (decimal f (n / 10))
        (text_differs (digit (n % 10)) "" (digit-filled (n % 10))))
]

pub to_string-filled : (n : ℕ) → (to_string n === "") ≡ false
unfolding to_string
to_string-filled n = text_blank (to_string n) (decimal-filled n n)
