-- ===== src/Sensors/Selection/Asked.antt =====
-- What the sensor view requests for the chart.
use gateway_hub.Insights.Events.Sent.{split_key-key, has_colon}
use gateway_hub.Sensors.Selection.{
  asked, names_of, key_of, request_for, selected_metric, split_key, device_of, request, Device,
  first_or_empty, pick_metric, View, Request,
}
use gateway_hub.Prelude.{
  lookup_in, ap, ◌∙◌, sym, eq_iff, includes, true, String, subst, find, All, Bool, List, none,
  false, inl, inr, ◌===◌, Bool-cases, some, ◌≡◌, Option, [], ◌∷◌, refl,
}

module _ {S : Type 0} where
  -- A request for the chart of a device.
  pub record AsksFor (v : View S) (r : Request) : Type 0 where
    pub device : Device
    pub device_eq : device_of v ≡ some device
    pub key_eq : split_key v.selected ≡ (r.source, r.device_id)
    pub metric_eq : r.metric ≡ selected_metric v
    pub metric_filled : (selected_metric v === "") ≡ false
    pub range_eq : r.range ≡ v.range

  request_for-AsksFor :
      (v : View S) (o : Option Device) (r : Request)
      → device_of v ≡ o
      → request_for v o ≡ some r
      → AsksFor v r
  request_for-AsksFor v none r h e = absurd (cc e)
  request_for-AsksFor v (some d) r h e = elim (Bool-cases (selected_metric v === "")) [
    | inl m ↦ absurd (cc (rw m at e))
    | inr m ↦
        let same : some (asked v) ≡ some r = rw m at e in
        let eq : asked v ≡ r = cc same in
        subst (AsksFor v) eq (record {
          device = d;
          device_eq = h;
          key_eq = refl;
          metric_eq = refl;
          metric_filled = m;
          range_eq = refl;
        })
  ]

  pub request_lem : (v : View S) (r : Request) → request v ≡ some r → AsksFor v r
  unfolding request
  request_lem v r e = elim (Bool-cases (v.selected === "")) [
    | inl m ↦ absurd (cc (rw m at e))
    | inr m ↦ request_for-AsksFor v (device_of v) r refl (rw m at e)
  ]

find-has :
    (p : Device → Bool) (devices : List Device) (d : Device) → find p devices ≡ some d → p d ≡ true
find-has p [] d e = absurd (cc e)
find-has p (x ∷ devices) d e = elim (Bool-cases (p x)) [
  | inl h ↦
      let same : some x ≡ some d = rw h at e in
      let eq : x ≡ d = cc same in subst (λ y. p y ≡ true) eq h
  | inr h ↦ find-has p devices d (rw h at e)
]

find-All :
    (p : Device → Bool) (P : Device → Type 0) (devices : List Device) (d : Device)
    → find p devices ≡ some d
    → All P devices
    → P d
find-All p P [] d e a = absurd (cc e)
find-All p P (x ∷ devices) d e a = elim (Bool-cases (p x)) [
  | inl h ↦ let same : some x ≡ some d = rw h at e in let eq : x ≡ d = cc same in subst P eq a.0
  | inr h ↦ find-All p P devices d (rw h at e) a.1
]

first-included :
    (names : List String)
    → (first_or_empty names === "") ≡ false
    → includes names (first_or_empty names) ≡ true
first-included [] h = absurd (cc h)
first-included (n ∷ names) h = rw ((eq_iff n n).1 refl) refl

pick_metric-included :
    (names : List String) (saved : Option String)
    → (pick_metric names saved === "") ≡ false
    → includes names (pick_metric names saved) ≡ true
pick_metric-included names none h = first-included names h
pick_metric-included names (some saved) h = elim (Bool-cases (includes names saved)) [
  | inl e ↦ rw e e
  | inr e ↦ rw e (first-included names (rw e at h))
]

module _ {S : Type 0} where
  selected_metric-included :
      (v : View S) (d : Device)
      → device_of v ≡ some d
      → (selected_metric v === "") ≡ false
      → includes d.expected (selected_metric v) ≡ true
  selected_metric-included v d e h =
      subst (λ o. includes (names_of o) (selected_metric v) ≡ true) e
        (pick_metric-included (names_of (device_of v)) (lookup_in v.selected v.metric_sel) h)

  -- Every request for a chart asks for a device that is configured and selected, by its own source
  -- and id, and for one of its metrics, given that no source has a colon.
  pub request-configured :
      (v : View S) (r : Request)
      → All (λ d. has_colon d.source ≡ false) v.configured
      → request v ≡ some r
      → (d : Device) × (device_of v ≡ some d)
        × (key_of d ≡ v.selected)
        × (r.source ≡ d.source)
        × (r.device_id ≡ d.device_id)
        × (includes d.expected r.metric ≡ true)
        × (r.range ≡ v.range)
  request-configured v r clean e =
      let a = request_lem v r e in
      let d = a.device in
      let key : key_of d ≡ v.selected = (eq_iff _ _).0 (find-has _ v.configured d a.device_eq) in
      let split =
        split_key-key d.source d.device_id (find-All _ _ v.configured d a.device_eq clean) in
      let parts : (d.source, d.device_id) ≡ (r.source, r.device_id) = sym split ∙ rw key a.key_eq in
      (
        d,
        a.device_eq,
        key,
        ap (λ x. x.0) (sym parts),
        ap (λ x. x.1) (sym parts),
        subst (λ m. includes d.expected m ≡ true) (sym a.metric_eq)
            (selected_metric-included v d a.device_eq a.metric_filled),
        a.range_eq,
      )
