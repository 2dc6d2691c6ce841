-- ===== src/Incidents/Kpi.antt =====
-- `kpiHtml` and the figures of `attachPilotSummary` of web_console/static/js/incidents.js.
use gateway_hub.Prelude.{
  ◌∙◌, ap, sym, eq_iff, ℕ, ◌+◌, ◌<◌, ◌≡◌, ◌↔◌, Bool, true, false, Option, none, some, String, ltb,
  leb, ◌===◌, or_text, arith, if◌then◌else◌,
}
use gateway_hub.Prelude.Int.{ℤ}
use gateway_hub.Format.{Span, duration}

-- A number of the API: the key is missing, it is `null`, or it is a number.
pub data Measure : Type 0 where
  undefined : Measure
  null : Measure
  is : ℕ → Measure

-- A figure as shown: the dash, or the number in the reader's notation.
pub data Figure : Type 0 where
  dash : Figure
  figure : ℕ → Figure

abbrev pub num : Measure → Figure
num undefined = dash
num null = dash
num (is n) = figure n

-- `m || 0`
abbrev pub or_zero : Measure → ℕ
or_zero undefined = 0
or_zero null = 0
or_zero (is n) = n

abbrev pub is_null : Measure → Bool
is_null null = true
is_null _ = false

-- `${pct}%`, or "n/a".
pub data Percent : Type 0 where
  not_available : Percent
  percent : ℕ → Percent

abbrev pub recovery : Measure → Percent
recovery undefined = not_available
recovery null = not_available
recovery (is n) = percent n

pub record Kpi : Type 0 where
  -- `Object.keys(k).length`
  pub keys : ℕ
  pub blind_time_ms : Option ℤ
  pub detection_latency_ms : Option ℤ
  pub buffered_peak : Measure
  pub replayed : Measure
  pub pending : Measure
  pub evicted : Measure
  pub recovery_pct : Measure
  pub uplink_switches : Measure
  pub forwarding_failures : Measure
  pub completeness : Option String
  pub partial : Bool

pub data Completeness : Type 0 where
  verified not_measured unverifiable : Completeness

pub record KpiView : Type 0 where
  pub blind_time : Span
  pub detection_latency : Span
  pub buffered : Figure
  pub recovered : Figure
  pub is_good : Bool
  pub unrecovered : Figure
  pub is_loss : Bool
  pub pct : Percent
  pub switches : Figure
  pub retries : Figure
  pub tag : Completeness

abbrev pub unrecovered_figure : Measure → Measure → Figure
unrecovered_figure pending evicted =
    if (if is_null pending then is_null evicted else false)
    then dash
    else figure (or_zero pending + or_zero evicted)

abbrev pub tag_of : Option String → Bool → Completeness
tag_of completeness partial =
    if or_text completeness "" === "verified"
    then verified
    else if partial
    then not_measured
    else unverifiable

unfoldable pub kpi_view : Option Kpi → Option KpiView
kpi_view none = none
kpi_view (some k) =
    if leb k.keys 1
    then none
    else some (record {
      blind_time = duration k.blind_time_ms;
      detection_latency = duration k.detection_latency_ms;
      buffered = num k.buffered_peak;
      recovered = num k.replayed;
      is_good = ltb 0 (or_zero k.replayed);
      unrecovered = unrecovered_figure k.pending k.evicted;
      is_loss = ltb 0 (or_zero k.pending + or_zero k.evicted);
      pct = recovery k.recovery_pct;
      switches = num k.uplink_switches;
      retries = num k.forwarding_failures;
      tag = tag_of k.completeness k.partial;
    })

-- The figures that `load` of the pilot summary shows; its tag has two values.
pub record PilotView : Type 0 where
  pub recovered : Figure
  pub unrecovered : Figure
  pub is_loss : Bool
  pub pct : Percent
  pub is_verified : Bool

unfoldable pub pilot_view : Kpi → PilotView
pilot_view s = record {
  recovered = num s.replayed;
  unrecovered = num (is (or_zero s.pending + or_zero s.evicted));
  is_loss = ltb 0 (or_zero s.pending + or_zero s.evicted);
  pct = recovery s.recovery_pct;
  is_verified = or_text s.completeness "" === "verified";
}

dash_iff : (p e : Measure) → (unrecovered_figure p e ≡ dash) ↔ ((p ≡ null) × (e ≡ null))
dash_iff p e = ground arith

loss_iff :
    (p e : Measure)
    → (ltb 0 (or_zero p + or_zero e) ≡ true)
      ↔ ((n : ℕ) × (0 < n) × (unrecovered_figure p e ≡ figure n))
loss_iff p e = ((λ h. (or_zero p + or_zero e, ground arith, ground arith)), λ h. ground arith)

tag_iff :
    (c : Option String) (partial : Bool) → (tag_of c partial ≡ verified) ↔ (c ≡ some "verified")
tag_iff none partial = ground arith
tag_iff (some s) partial = ground (arith, eq_iff s "", eq_iff s "verified", eq_iff "" "verified")

figure_zero : (p e : Measure) → unrecovered_figure p e ≡ dash → or_zero p + or_zero e ≡ 0
figure_zero p e h = ground arith

figure_same :
    (p e : Measure) (n : ℕ) → unrecovered_figure p e ≡ figure n → or_zero p + or_zero e ≡ n
figure_same p e n h = ground arith

module _ (k : Kpi) (v : KpiView) (e : kpi_view (some k) ≡ some v) where
  unrecovered-eq : v.unrecovered ≡ unrecovered_figure k.pending k.evicted
  unfolding kpi_view
  unrecovered-eq = ground arith

  is_loss-eq : v.is_loss ≡ ltb 0 (or_zero k.pending + or_zero k.evicted)
  unfolding kpi_view
  is_loss-eq = ground arith

  tag-eq : v.tag ≡ tag_of k.completeness k.partial
  unfolding kpi_view
  tag-eq = ground arith

  shared-eq : (num k.replayed ≡ v.recovered) × (recovery k.recovery_pct ≡ v.pct)
  unfolding kpi_view
  shared-eq = ground arith

-- In an incident's strip the unrecovered figure is the dash exactly when neither part was measured
-- (both `null`), it is marked as a loss exactly when it is a number above 0, and only an incident
-- whose completeness is "verified" is tagged so.
pub unrecovered_lem :
    (k : Kpi) (v : KpiView)
    → kpi_view (some k) ≡ some v
    → ((v.unrecovered ≡ dash) ↔ ((k.pending ≡ null) × (k.evicted ≡ null)))
      × ((v.is_loss ≡ true) ↔ ((n : ℕ) × (0 < n) × (v.unrecovered ≡ figure n)))
      × ((v.tag ≡ verified) ↔ (k.completeness ≡ some "verified"))
unrecovered_lem k v e = (
  rw (unrecovered-eq k v e) (dash_iff k.pending k.evicted),
  rw (unrecovered-eq k v e, is_loss-eq k v e) (loss_iff k.pending k.evicted),
  rw (tag-eq k v e) (tag_iff k.completeness k.partial),
)

-- The strip of an incident and the pilot summary show the same figures of the same numbers, but
-- for the unrecovered records when neither part was measured: the incident's strip shows the dash
-- there, and the summary shows 0.
pub pilot-kpi :
    (k : Kpi) (v : KpiView)
    → kpi_view (some k) ≡ some v
    → ((pilot_view k).recovered ≡ v.recovered)
      × ((pilot_view k).is_loss ≡ v.is_loss)
      × ((pilot_view k).pct ≡ v.pct)
      × (v.unrecovered ≡ dash → (pilot_view k).unrecovered ≡ figure 0)
      × ((n : ℕ) → v.unrecovered ≡ figure n → (pilot_view k).unrecovered ≡ figure n)
unfolding pilot_view
pilot-kpi k v e =
    let u = unrecovered-eq k v e in
    (
      (shared-eq k v e).0,
      sym (is_loss-eq k v e),
      (shared-eq k v e).1,
      (λ h. ap figure (figure_zero k.pending k.evicted (sym u ∙ h))),
      λ n h. ap figure (figure_same k.pending k.evicted n (sym u ∙ h)),
    )
