-- ===== src/Incidents/Paging.antt =====
-- `paginate`, `pageNumbers` and `pagerHtml` of web_console/static/js/incidents.js.
pub mod Slices
pub mod Numbers
use gateway_hub.Prelude.{
  ℕ, zero, suc, ◌+◌, ◌-◌, ◌*◌, ◌/◌, min, max, Bool, true, false, ◌||◌, Option, none, some, List, [],
  ◌∷◌, map, length, take, drop, leb, ltb, ◌==◌, if◌then◌else◌,
}
use gateway_hub.Prelude.Int.{ℤ, pos, pos_part, sub_ℕ}

-- `xs.slice(from, to)` for indices that are not negative.
abbrev pub slice {ℓ} : {A : Type ℓ} → ℕ → ℕ → List A → List A
slice from to xs = take (to - from) (drop from xs)

-- `Math.ceil(n / d)`
abbrev pub ceil_div : ℕ → ℕ → ℕ
ceil_div n d = (n + (d - 1)) / d

pub record Page {ℓ} (A : Type ℓ) : Type ℓ where
  pub page_count : ℕ
  pub current : ℕ
  pub shown : List A

abbrev pub count_pages {ℓ} : {A : Type ℓ} → List A → ℕ → ℕ
count_pages rows per_page = max 1 (ceil_div (length rows) per_page)

-- The page that is asked for may be out of range, on either side.
abbrev pub clamp_page : ℤ → ℕ → ℕ
clamp_page page pages = min (pos_part page) (pages - 1)

unfoldable pub paginate {ℓ} : {A : Type ℓ} → List A → ℤ → ℕ → Page A
paginate rows page per_page =
    let pages = count_pages rows per_page in
    let current = clamp_page page pages in
    record {
      page_count = pages;
      current = current;
      shown = slice (current * per_page) ((current + 1) * per_page) rows;
    }

-- An entry of the row of page buttons: a page, or the ellipsis.
pub data Item : Type 0 where
  page : ℕ → Item
  gap : Item

abbrev pub is_gap : Option Item → Bool
is_gap none = false
is_gap (some (page n)) = false
is_gap (some gap) = true

-- `keep.has(i)` for the set of the first and the last page, the current one and its neighbours.
abbrev pub is_kept : ℕ → ℕ → ℕ → Bool
is_kept current pages i =
    i == 0 || i + 1 == pages || i + 1 == current || i == current || i == current + 1

-- The loop over `i`, with the rounds left and the last item that was pushed.
unfoldable pub number_loop : ℕ → ℕ → ℕ → ℕ → Option Item → List Item
number_loop current pages zero i last = []
number_loop current pages (suc rounds) i last =
    let kept = page i ∷ number_loop current pages rounds (i + 1) (some (page i)) in
    let skipped = number_loop current pages rounds (i + 1) last in
    let opened = gap ∷ number_loop current pages rounds (i + 1) (some gap) in
    if is_kept current pages i then kept else if is_gap last then skipped else opened

unfoldable pub page_numbers : ℕ → ℕ → List Item
unfolding number_loop
page_numbers current pages = number_loop current pages pages 0 none

-- A rendered button: the page it carries, and whether it can be pressed.
pub record Button : Type 0 where
  pub target : ℤ
  pub disabled : Bool
  pub is_current : Bool

pub record Pager : Type 0 where
  pub previous : Button
  pub numbers : List (Option Button)
  pub following : Button
  pub total : ℕ

abbrev pub number_button : ℕ → Item → Option Button
number_button current (page n) =
    some (record { target = pos n; disabled = false; is_current = n == current })
number_button current gap = none

-- No pager is drawn for a single page.
unfoldable pub pager : ℕ → ℕ → ℕ → Option Pager
unfolding page_numbers
pager current pages total =
    if ltb 1 pages
    then some (record {
      previous = record { target = sub_ℕ current 1; disabled = current == 0; is_current = false };
      numbers = map (number_button current) (page_numbers current pages);
      following = record {
        target = pos (current + 1);
        disabled = leb (pages - 1) current;
        is_current = false;
      };
      total = total;
    })
    else none
