-- ===== src/Incidents/PageList/Stuck.antt =====
-- What the lists of incidents can show.
use gateway_hub.Incidents.Data.{refused, failed, answered, Response, Incident}
use gateway_hub.Incidents.Paging.{ceil_div, count_pages, Button, Pager, paginate, pager}
use gateway_hub.Prelude.{
  ◌-◌, min, max, ◌==◌, arith, inl, inr, take-nil, Bool-cases, refl, sym, length, get_elem?, [], ◌∷◌,
  false, take, ◌++◌, none, some, All, Option, includes, ◌≡◌, List, String, ℕ,
}
use gateway_hub.Incidents.PageList.{
  pos, with_answer, with_incidents, es_inc_load, press, answer, nothing_loaded, Answer, fw_inc_load,
  press_button, step, receive_incidents, Event, run, show_incidents, inc_load, is_pressable,
  number_attributes, arrow_attributes, render_rows, press_at, press_on_pager, PageList,
  numbers_attributes, query, pager_attributes, render_list,
}

-- A button of the pager has neither of the attributes that the lists look for.
abbrev Lacks : String → List (List String) → Type 0
Lacks name buttons = All (λ attributes. includes attributes name ≡ false) buttons

arrow-lacks :
    (b : Button)
    → (includes (arrow_attributes b) "data-inc-page-prev" ≡ false)
      × (includes (arrow_attributes b) "data-inc-page-next" ≡ false)
arrow-lacks b = elim (Bool-cases b.disabled) [
  | inl e ↦ rw e (refl, refl)
  | inr e ↦ rw e (refl, refl)
]

number-lacks :
    (b : Button)
    → (includes (number_attributes b) "data-inc-page-prev" ≡ false)
      × (includes (number_attributes b) "data-inc-page-next" ≡ false)
number-lacks b = elim (Bool-cases b.is_current) [
  | inl e ↦ rw e (refl, refl)
  | inr e ↦ rw e (refl, refl)
]

numbers-lack :
    (numbers : List (Option Button)) (rest : List (List String))
    → Lacks "data-inc-page-prev" rest
    → Lacks "data-inc-page-next" rest
    → Lacks "data-inc-page-prev" (numbers_attributes numbers ++ rest)
      × Lacks "data-inc-page-next" (numbers_attributes numbers ++ rest)
unfolding numbers_attributes
numbers-lack [] rest h k = (h, k)
numbers-lack (none ∷ numbers) rest h k = numbers-lack numbers rest h k
numbers-lack (some b ∷ numbers) rest h k =
    let l = number-lacks b in let m = numbers-lack numbers rest h k in ((l.0, m.0), (l.1, m.1))

pager-Lacks :
    (p : Pager)
    → Lacks "data-inc-page-prev" (pager_attributes p)
      × Lacks "data-inc-page-next" (pager_attributes p)
unfolding pager_attributes
pager-Lacks p =
    let f = arrow-lacks p.following in
    let b = arrow-lacks p.previous in
    let m = numbers-lack p.numbers _ (f.0, tt) (f.1, tt) in ((b.0, m.0), (b.1, m.1))

query-Lacks :
    (name : String) (buttons : List (List String)) → Lacks name buttons → query name buttons ≡ none
unfolding query
query-Lacks name [] h = refl
query-Lacks name (b ∷ buttons) h = rw (h.0, query-Lacks name buttons h.1) refl

press_at-stays : (p : Pager) (i : ℕ) (l : PageList) → press_at 8 (pager_attributes p) i l ≡ l
unfolding press_at
press_at-stays p i l =
    let k = pager-Lacks p in
    let b = is_pressable (get_elem? (pager_attributes p) i) in
    rw (query-Lacks _ _ k.0, query-Lacks _ _ k.1)
      (elim (Bool-cases b) [ inl e ↦ rw e refl | inr e ↦ rw e refl ])

press_on_pager-stays : (o : Option Pager) (i : ℕ) (l : PageList) → press_on_pager 8 o i l ≡ l
unfolding press_on_pager
press_on_pager-stays none i l = refl
press_on_pager-stays (some p) i l = press_at-stays p i l

-- The list shows the first eight rows, and the pager that belongs to them.
pub record ShowsFirst (p : PageList) : Type 0 where
  pub list_eq : p.list ≡ take 8 p.rows
  pub pager_eq : p.pager_shown ≡ pager 0 (count_pages p.rows 8) (length p.rows)

take-empty : (n : ℕ) (xs : List Incident) → length xs ≡ 0 → [] ≡ take n xs
take-empty n [] h = sym (take-nil n)
take-empty n (x ∷ xs) h = absurd (omega arith)

pager-empty : (n : ℕ) → n ≡ 0 → none ≡ pager 0 (max 1 (ceil_div n 8)) n
unfolding pager
pager-empty n e = rw e refl

render_list-ShowsFirst : (p : PageList) → p.page ≡ pos 0 → ShowsFirst (render_list 8 p)
unfolding render_list render_rows paginate
render_list-ShowsFirst p first = elim (Bool-cases (length p.rows == 0)) [
  | inl e ↦
      let empty : length p.rows ≡ 0 = ground arith in
      rw e (record {
        list_eq = take-empty 8 p.rows empty;
        pager_eq = pager-empty (length p.rows) empty;
      })
  | inr e ↦
      let zeroth : min 0 (count_pages p.rows 8 - 1) ≡ 0 = omega arith in
      rw (e, first) (record { list_eq = rw zeroth refl; pager_eq = rw zeroth refl })
]

show_incidents-ShowsFirst :
    (body : Option (List Incident)) (p : PageList) → ShowsFirst (show_incidents 8 body p)
unfolding show_incidents
show_incidents-ShowsFirst body p = render_list-ShowsFirst (with_incidents body p) refl

fw_inc_load-ShowsFirst :
    (r : Response (Option (List Incident))) (p : PageList)
    → ShowsFirst p
    → ShowsFirst (fw_inc_load r p)
unfolding receive_incidents
fw_inc_load-ShowsFirst failed p s = s
fw_inc_load-ShowsFirst refused p s = s
fw_inc_load-ShowsFirst (answered body) p s = show_incidents-ShowsFirst body p

inc_load-ShowsFirst :
    (r : Response Answer) (p : PageList) → ShowsFirst p → ShowsFirst (inc_load r p)
unfolding inc_load
inc_load-ShowsFirst failed p s = s
inc_load-ShowsFirst refused p s = s
inc_load-ShowsFirst (answered a) p s = render_list-ShowsFirst (with_answer a p) refl

module _ {R : Type 0} (load : R → PageList → PageList)
    (loads_first : (r : R) (p : PageList) → ShowsFirst p → ShowsFirst (load r p)) where
  run-ShowsFirst :
      (p : PageList) (events : List (Event R)) → ShowsFirst p → ShowsFirst (run load p events)
  unfolding run step press_button
  run-ShowsFirst p [] s = s
  run-ShowsFirst p (answer r ∷ events) s = run-ShowsFirst (load r p) events (loads_first r p s)
  run-ShowsFirst p (press i ∷ events) s =
      rw (press_on_pager-stays p.pager_shown i p) (run-ShowsFirst p events s)

-- The pager of the forwarding page, of the Edge Server page and of the insights page's incidents is
-- drawn for the first page and never leaves it: whatever answers arrive and whichever buttons are
-- pressed, in any order, the list shows the first eight incidents, and no others can be reached.
pub pages_unreachable :
    (forwarding edge : List (Event (Response (Option (List Incident)))))
    (insights : List (Event (Response Answer)))
    → ShowsFirst (run fw_inc_load nothing_loaded forwarding)
      × ShowsFirst (run es_inc_load nothing_loaded edge)
      × ShowsFirst (run inc_load nothing_loaded insights)
unfolding pager
pages_unreachable forwarding edge insights =
    let start : ShowsFirst nothing_loaded = record { list_eq = refl; pager_eq = refl } in
    (
      run-ShowsFirst fw_inc_load fw_inc_load-ShowsFirst nothing_loaded forwarding start,
      run-ShowsFirst es_inc_load fw_inc_load-ShowsFirst nothing_loaded edge start,
      run-ShowsFirst inc_load inc_load-ShowsFirst nothing_loaded insights start,
    )
