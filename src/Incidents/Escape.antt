-- ===== src/Incidents/Escape.antt =====
-- `esc` of web_console/static/js/incidents.js: text made safe to place in HTML. A text is the list
-- of its code points here.
use Prim.Native.Char.{code}
use gateway_hub.Prelude.{
  ℕ, ◌≡◌, refl, Bool, true, false, ◌&&◌, ◌*◌, ◌+◌, ◌-◌, leb, Option, none, some, ◌||◌, String, List,
  [], ◌∷◌, ◌++◌, arith, ◌==◌, if◌then◌else◌,
}

abbrev pub codes : String → List ℕ
codes String.[] = []
codes (String.◌∷◌ c s) = code c ∷ codes s

-- The table of the replacer; any other character stands for itself.
abbrev pub entity : ℕ → List ℕ
entity c =
    if c == b'&'
    then codes "&amp;"
    else if c == b'<'
    then codes "&lt;"
    else if c == b'>'
    then codes "&gt;"
    else if c == b'"'
    then codes "&quot;"
    else if c == 39
    then codes "&#39;"
    else c ∷ []

pub esc : List ℕ → List ℕ
esc [] = []
esc (c ∷ s) = entity c ++ esc s

-- How a browser reads a text of HTML: a reference runs from an ampersand to a semicolon and is one of
-- the five names below or the decimal number of a code point after a hash; an ampersand that begins
-- no such reference stands for itself, with what follows it. `none` is a reader in plain text, `some
-- name` one that has read an ampersand and then `name`.
abbrev same_codes : List ℕ → List ℕ → Bool
same_codes [] [] = true
same_codes [] (d ∷ t) = false
same_codes (c ∷ s) [] = false
same_codes (c ∷ s) (d ∷ t) = let rest = same_codes s t in c == d && rest

abbrev names : List (List ℕ × ℕ)
names =
    (codes "amp", b'&')
    ∷ (codes "lt", b'<')
    ∷ (codes "gt", b'>')
    ∷ (codes "quot", b'"')
    ∷ (codes "apos", 39)
    ∷ []

abbrev named : List ℕ → List (List ℕ × ℕ) → Option ℕ
named name [] = none
named name ((known, c) ∷ table) =
    let rest = named name table in if same_codes name known then some c else rest

-- The number that the digits continue, if there are only digits.
abbrev decimal : ℕ → List ℕ → Option ℕ
decimal n [] = some n
decimal n (c ∷ s) =
    let rest = decimal (10 * n + (c - b'0')) s in if leb b'0' c && leb c b'9' then rest else none

abbrev code_point : List ℕ → Option ℕ
code_point [] = named [] names
code_point (c ∷ []) = named (c ∷ []) names
code_point (c ∷ d ∷ s) = if c == b'#' then decimal 0 (d ∷ s) else named (c ∷ d ∷ s) names

abbrev reference : List ℕ → List ℕ
reference name = elim (code_point name) [ none ↦ b'&' ∷ name ++ b';' ∷ [] | some c ↦ c ∷ [] ]

abbrev pub unescape : Option (List ℕ) → List ℕ → List ℕ
unescape none [] = []
unescape (some name) [] = b'&' ∷ name
unescape none (c ∷ s) =
    let more = c ∷ unescape none s in
    let opened = unescape (some []) s in if c == b'&' then opened else more
unescape (some name) (c ∷ s) =
    let closed = reference name ++ unescape none s in
    let again = b'&' ∷ name ++ unescape (some []) s in
    let longer = unescape (some (name ++ c ∷ [])) s in
    if c == b';' then closed else if c == b'&' then again else longer

-- The characters that can open a tag, close it, or end an attribute's value.
abbrev pub is_markup : ℕ → Bool
is_markup c = c == b'<' || c == b'>' || c == b'"' || c == 39

abbrev pub has_markup : List ℕ → Bool
has_markup [] = false
has_markup (c ∷ s) = is_markup c || has_markup s

has_markup-entity : (c : ℕ) (s : List ℕ) → has_markup (entity c ++ s) ≡ has_markup s
has_markup-entity c s = ground arith

-- No escaped text holds a character that HTML reads as markup.
pub has_markup-esc : (s : List ℕ) → has_markup (esc s) ≡ false
unfolding esc
has_markup-esc [] = refl
has_markup-esc (c ∷ s) = rw has_markup-entity (has_markup-esc s)

unescape-entity : (c : ℕ) (s : List ℕ) → unescape none (entity c ++ s) ≡ c ∷ unescape none s
unescape-entity c s = ground arith

-- A browser that reads an escaped text, with its named and numbered references, reads the text that
-- was escaped.
pub unescape-esc : (s : List ℕ) → unescape none (esc s) ≡ s
unfolding esc
unescape-esc [] = refl
unescape-esc (c ∷ s) = rw (unescape-entity, unescape-esc s)
