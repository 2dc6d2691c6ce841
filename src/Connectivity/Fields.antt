-- ===== src/Connectivity/Fields.antt =====
-- How the network form's texts are read: `trim`, `split(",")`, `parseInt(text, 10)`, and
-- `parseDns` and `parseTargets` of web_console/static/js/app.js.
pub mod Items
pub mod Joined
use Prim.Native.Char.{Char, code}
use mathlib.Core.Option as Opt
use gateway_hub.Prelude.{
  suc, ℕ, zero, suc, ◌+◌, ◌-◌, ◌*◌, ◌≡◌, refl, Bool, true, false, not, ◌&&◌, ◌||◌, Option, none,
  some, String, List, [], ◌∷◌, map, keep, leb, ◌==◌, ◌===◌, if◌then◌else◌, arith, Bool-cases, inl,
  inr,
}
use gateway_hub.Prelude.Int.{ℤ, pos, negsuc}

-- The white space and line ends of ECMAScript.
unfoldable pub is_space : ℕ → Bool
is_space c =
    leb 9 c && leb c 13
    || c == 32
    || c == 160
    || c == 0x1680
    || leb 0x2000 c && leb c 0x200a
    || c == 0x2028
    || c == 0x2029
    || c == 0x202f
    || c == 0x205f
    || c == 0x3000
    || c == 0xfeff

unfoldable pub trim_start : String → String
unfolding is_space
trim_start String.[] = ""
trim_start (String.◌∷◌ c s) =
    let rest = trim_start s in if is_space (code c) then rest else String.◌∷◌ c s

unfoldable pub trim_end : String → String
unfolding is_space
trim_end String.[] = ""
trim_end (String.◌∷◌ c s) =
    let rest = trim_end s in if is_space (code c) && rest === "" then "" else String.◌∷◌ c rest

unfoldable pub trim : String → String
unfolding trim_start trim_end
trim s = trim_end (trim_start s)

-- The pieces between the commas; the last one is kept apart from the others while it grows.
abbrev put_first : Char → List String → List String
put_first c [] = String.◌∷◌ c "" ∷ []
put_first c (s ∷ rest) = String.◌∷◌ c s ∷ rest

unfoldable pub split_comma : String → List String
split_comma String.[] = "" ∷ []
split_comma (String.◌∷◌ c s) =
    let rest = split_comma s in if code c == b',' then "" ∷ rest else put_first c rest

-- A field that is missing is the empty text.
unfoldable pub parse_list : Option String → List String
unfolding trim split_comma
parse_list none = []
parse_list (some value) = keep (λ s. not (s === "")) (map trim (split_comma value))

abbrev is_digit : ℕ → Bool
is_digit c = leb b'0' c && leb c b'9'

-- The number that the digits at the front of a text spell after `n`; `none` if there are none.
unfoldable pub leading_digits : Option ℕ → String → Option ℕ
leading_digits n String.[] = n
leading_digits n (String.◌∷◌ c s) =
    let value : ℕ = elim n [ none ↦ 0 | some k ↦ k ] in
    let rest = leading_digits (some (value * 10 + (code c - b'0'))) s in
    if is_digit (code c) then rest else n

abbrev negate : ℕ → ℤ
negate zero = pos 0
negate (suc n) = negsuc n

abbrev after_sign : String → Option ℤ
after_sign String.[] = none
after_sign (String.◌∷◌ c s) =
    if code c == b'-'
    then Opt.map negate (leading_digits none s)
    else if code c == b'+'
    then Opt.map pos (leading_digits none s)
    else Opt.map pos (leading_digits none (String.◌∷◌ c s))

-- `Number.parseInt(text, 10)`; `none` is NaN.
unfoldable pub parse_int : String → Option ℤ
unfolding trim_start leading_digits
parse_int s = after_sign (trim_start s)
