-- ===== src/Connectivity/Fields/Items.antt =====
-- What the lists of the network form hold after they are read.
use Prim.Native.Char.{Char, code}
use gateway_hub.Prelude.{
  All, ◌≡◌, refl, ap, ◌∙◌, Bool, true, false, not, ◌&&◌, ◌||◌, Option, none, some, String, List, [],
  ◌∷◌, map, keep, ◌==◌, ◌===◌, arith, Bool-cases, inl, inr,
}
use gateway_hub.Connectivity.Fields.{
  is_space, trim_start, trim_end, trim, split_comma, parse_list, put_first,
}

abbrev pub has_comma : String → Bool
has_comma String.[] = false
has_comma (String.◌∷◌ c s) = code c == b',' || has_comma s

-- What begins with no space, or is empty, is kept.
starts_plain : String → Bool
starts_plain String.[] = true
starts_plain (String.◌∷◌ c s) = not (is_space (code c))

trim_start-starts : (s : String) → starts_plain (trim_start s) ≡ true
unfolding trim_start starts_plain
trim_start-starts String.[] = refl
trim_start-starts (String.◌∷◌ c s) = elim (Bool-cases (is_space (code c))) [
  | inl h ↦ rw h (trim_start-starts s)
  | inr h ↦ rw (h, h)
]

trim_end-starts : (s : String) → starts_plain s ≡ true → starts_plain (trim_end s) ≡ true
unfolding trim_end starts_plain
trim_end-starts String.[] h = refl
trim_end-starts (String.◌∷◌ c s) h = elim (Bool-cases (is_space (code c))) [
  | inl k ↦ cc k
  | inr k ↦ rw (k, k)
]

trim_start_of : (s : String) → starts_plain s ≡ true → trim_start s ≡ s
unfolding trim_start starts_plain
trim_start_of String.[] h = refl
trim_start_of (String.◌∷◌ c s) h = elim (Bool-cases (is_space (code c))) [
  | inl k ↦ cc k
  | inr k ↦ rw k
]

trim_end_cons :
    (c : Char) (s : String)
    → (is_space (code c) && trim_end s === "") ≡ false
    → trim_end (String.◌∷◌ c s) ≡ String.◌∷◌ c (trim_end s)
unfolding trim_end
trim_end_cons c s h = rw h

trim_end_idem : (s : String) → trim_end (trim_end s) ≡ trim_end s
trim_end_idem String.[] = unfold trim_end in refl
trim_end_idem (String.◌∷◌ c s) = elim (Bool-cases (is_space (code c) && trim_end s === "")) [
  | inl h ↦ unfold trim_end in rw h
  | inr h ↦
      rw (trim_end_cons c s h) (
        trim_end_cons c (trim_end s) (rw (trim_end_idem s) h) ∙ ap (String.◌∷◌ c) (trim_end_idem s))
]

trim_idem : (s : String) → trim (trim s) ≡ trim s
unfolding trim
trim_idem s =
    ap trim_end (trim_start_of _ (trim_end-starts _ (trim_start-starts s)))
    ∙ trim_end_idem (trim_start s)

or_false : (a b : Bool) → (a || b) ≡ false → (a ≡ false) × (b ≡ false)
or_false a b h = ground arith

cons_false :
    (c : Char) (s : String)
    → (code c == b',') ≡ false
    → has_comma s ≡ false
    → has_comma (String.◌∷◌ c s) ≡ false
cons_false c s h k = rw (h, k)

has_comma-trim_start : (s : String) → has_comma s ≡ false → has_comma (trim_start s) ≡ false
unfolding trim_start
has_comma-trim_start String.[] h = refl
has_comma-trim_start (String.◌∷◌ c s) h = elim (Bool-cases (is_space (code c))) [
  | inl k ↦ rw k (has_comma-trim_start s (or_false _ _ h).1)
  | inr k ↦ rw k h
]

has_comma-trim_end : (s : String) → has_comma s ≡ false → has_comma (trim_end s) ≡ false
has_comma-trim_end String.[] h = unfold trim_end in refl
has_comma-trim_end (String.◌∷◌ c s) h = elim (Bool-cases (is_space (code c) && trim_end s === "")) [
  | inl k ↦ unfold trim_end in rw k
  | inr k ↦
      rw (trim_end_cons c s k)
        (cons_false c (trim_end s) (or_false _ _ h).0 (has_comma-trim_end s (or_false _ _ h).1))
]

abbrev pub IsFree : String → Type 0
IsFree s = has_comma s ≡ false

put_first-All :
    (c : Char) (ps : List String)
    → (code c == b',') ≡ false
    → All IsFree ps
    → All IsFree (put_first c ps)
put_first-All c [] h k = (cons_false c "" h refl, tt)
put_first-All c (p ∷ ps) h k = (cons_false c p h k.0, k.1)

split-All : (s : String) → All IsFree (split_comma s)
unfolding split_comma
split-All String.[] = (refl, tt)
split-All (String.◌∷◌ c s) = elim (Bool-cases (code c == b',')) [
  | inl h ↦ rw h (refl, split-All s)
  | inr h ↦ rw h (put_first-All c (split_comma s) h (split-All s))
]

-- A read item is not empty, has no space at its ends, and no comma.
abbrev pub IsItem : String → Type 0
IsItem s = ((s === "") ≡ false) × (trim s ≡ s) × (has_comma s ≡ false)

trim-IsFree : (s : String) → IsFree s → IsFree (trim s)
unfolding trim
trim-IsFree s h = has_comma-trim_end (trim_start s) (has_comma-trim_start s h)

items-All :
    (ps : List String) → All IsFree ps → All IsItem (keep (λ s. not (s === "")) (map trim ps))
items-All [] h = tt
items-All (p ∷ ps) h = elim (Bool-cases (trim p === "")) [
  | inl e ↦ rw e (items-All ps h.1)
  | inr e ↦ rw e ((e, trim_idem p, trim-IsFree p h.0), items-All ps h.1)
]

-- Every item that is read from a list of the form is not empty, has no space at its ends and no
-- comma within.
pub parse_list-All : (value : Option String) → All IsItem (parse_list value)
unfolding parse_list
parse_list-All none = tt
parse_list-All (some value) = items-All (split_comma value) (split-All value)
