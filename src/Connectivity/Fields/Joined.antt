-- ===== src/Connectivity/Fields/Joined.antt =====
-- A list of the network form that is joined with commas and read again.
use Prim.Native.Char.{Char, code}
use Prim.Native.String
use text.Mathlib.TextLemmas.{nil-append, cons-append, append-nil}
use gateway_hub.Prelude.{
  All, ◌≡◌, refl, ap, ◌∙◌, false, not, some, String, List, [], ◌∷◌, map, keep, ◌==◌, ◌===◌, arith,
  joined, template,
}
use gateway_hub.Connectivity.Fields.{
  is_space, trim_start, trim_end, trim, split_comma, parse_list, put_first,
}
use gateway_hub.Connectivity.Fields.Items.{has_comma, IsItem}

abbrev space : Char
space = " "

separated : (rest : String) → String.◌++◌ ", " rest ≡ String.◌∷◌ "," (String.◌∷◌ space rest)
separated rest =
    cons-append "," " " rest
    ∙ ap (String.◌∷◌ ",") (cons-append space "" rest ∙ ap (String.◌∷◌ space) (nil-append rest))

no_comma :
    (c : Char) (s : String)
    → has_comma (String.◌∷◌ c s) ≡ false
    → ((code c == b',') ≡ false) × (has_comma s ≡ false)
no_comma c s h = ground arith

split-piece :
    (s rest : String)
    → has_comma s ≡ false
    → split_comma (String.◌++◌ s (String.◌++◌ ", " rest)) ≡ s ∷ split_comma (String.◌∷◌ space rest)
unfolding split_comma
split-piece String.[] rest h = rw (nil-append (String.◌++◌ ", " rest), separated rest) refl
split-piece (String.◌∷◌ c s) rest h =
    let free = no_comma c s h in
    rw (cons-append c s (String.◌++◌ ", " rest), free.0, split-piece s rest free.1) refl

split-free : (s : String) → has_comma s ≡ false → split_comma s ≡ s ∷ []
unfolding split_comma
split-free String.[] h = refl
split-free (String.◌∷◌ c s) h = let free = no_comma c s h in rw (free.0, split-free s free.1) refl

trim-space : (s : String) → trim (String.◌∷◌ space s) ≡ trim s
unfolding trim trim_start is_space
trim-space s = refl

items : List String → List String
items pieces = keep (λ s. not (s === "")) (map trim pieces)

items-space : (pieces : List String) → items (put_first space pieces) ≡ items pieces
unfolding items
items-space [] = unfold trim trim_start trim_end is_space in refl
items-space (p ∷ pieces) = rw (trim-space p) refl

items-cons : (s : String) (pieces : List String) → IsItem s → items (s ∷ pieces) ≡ s ∷ items pieces
unfolding items
items-cons s pieces h = rw (h.1, h.0) refl

split-space :
    (rest : String) → split_comma (String.◌∷◌ space rest) ≡ put_first space (split_comma rest)
unfolding split_comma
split-space rest = refl

split-joined :
    (s t : String) (names : List String)
    → has_comma s ≡ false
    → split_comma (joined ", " (s ∷ t ∷ names))
      ≡ s ∷ put_first space (split_comma (joined ", " (t ∷ names)))
unfolding template
split-joined s t names h =
    let rest = joined ", " (t ∷ names) in
    rw (append-nil rest, split-piece s rest h) (ap (s ∷◌) (split-space rest))

items-joined :
    (names : List String) → All IsItem names → items (split_comma (joined ", " names)) ≡ names
unfolding items
items-joined [] h = unfold items split_comma trim trim_start trim_end in refl
items-joined (s ∷ []) h = rw (split-free s h.0.2) (items-cons s [] h.0)
items-joined (s ∷ t ∷ names) h =
    let rest = joined ", " (t ∷ names) in
    ap items (split-joined s t names h.0.2)
    ∙ items-cons s (put_first space (split_comma rest)) h.0
    ∙ ap (s ∷◌) (items-space (split_comma rest) ∙ items-joined (t ∷ names) h.1)

-- A list of items that are not empty, have no space at their ends and no comma, joined by commas and
-- spaces, is read back.
pub parse_list-joined :
    (names : List String) → All IsItem names → parse_list (some (joined ", " names)) ≡ names
unfolding parse_list items
parse_list-joined names h = items-joined names h
