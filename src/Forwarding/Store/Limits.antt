-- ===== src/Forwarding/Store/Limits.antt =====
-- The limits of the protocols in web_console/static/js/app.js: one MQTT profile and
-- `_MAX_HTTPS_PROFILES` HTTPS profiles, which the form keeps by its disabled options.
use gateway_hub.Prelude.{
  ap, ◌∙◌, ℕ, ◌+◌, ◌≤◌, ◌≡◌, refl, Bool, true, ◌&&◌, Option, none, some, String, List, [], ◌∷◌,
  ◌++◌, length, keep, leb, ◌===◌, if◌then◌else◌, arith, eq_iff,
}
use gateway_hub.Forwarding.Profile.{Profile}
use gateway_hub.Forwarding.Form.{Form, read_form}
use gateway_hub.Forwarding.Store.{
  Store, differs, mqtt_taken, https_count, max_https_profiles, update_protocol_options, upsert,
  put_profile, save_begin, fw_show_form, show_new, show_edit, id_or_null,
}

abbrev pub count : String → List Profile → ℕ
count proto ps = length (keep (λ p. p.protocol === proto) ps)

-- The profiles of a protocol but for the edited one.
abbrev pub others : String → Option String → List Profile → ℕ
others proto editing ps = length (keep (λ p. p.protocol === proto && differs editing p) ps)

abbrev pub one_if : Bool → ℕ
one_if b = if b then 1 else 0

-- No two profiles have the id.
abbrev pub Once : Option String → List Profile → Type 0
Once none ps = 0 ≤ 1
Once (some id) ps = length (keep (λ p. p.id === id) ps) ≤ 1

others_all :
    (proto id : String) (ps : List Profile)
    → length (keep (λ p. p.id === id) ps) ≡ 0
    → others proto (some id) ps ≡ count proto ps
others_all proto id [] h = refl
others_all proto id (p ∷ ps) h = ground (arith, others_all proto id ps)

count-upsert :
    (proto id : String) (p : Profile) (ps : List Profile)
    → Once (some id) ps
    → count proto (upsert id p ps) ≡ others proto (some id) ps + one_if (p.protocol === proto)
unfolding upsert
count-upsert proto id p [] h = ground arith
count-upsert proto id p (q ∷ qs) h =
    ground (arith, others_all proto id qs, count-upsert proto id p qs)

count-append :
    (proto : String) (p : Profile) (ps : List Profile)
    → count proto (ps ++ p ∷ []) ≡ others proto none ps + one_if (p.protocol === proto)
count-append proto p [] = ground arith
count-append proto p (q ∷ qs) = ground (arith, count-append proto p qs)

count-put :
    (proto : String) (e : Option String) (p : Profile) (ps : List Profile)
    → Once e ps
    → count proto (put_profile e p ps) ≡ others proto e ps + one_if (p.protocol === proto)
unfolding put_profile
count-put proto none p ps h = count-append proto p ps
count-put proto (some id) p ps h = count-upsert proto id p ps h

abbrev pub Within : List Profile → Type 0
Within ps = (count "mqtt" ps ≤ 1) × (count "https" ps ≤ max_https_profiles)

abbrev pub editing_of : Option Profile → Option String
editing_of none = none
editing_of (some p) = id_or_null p.id

-- What opening the form does to the fields of the store that a save reads.
shown :
    (q : Option Profile) (s : Store)
    → let t = fw_show_form q s in
      (t.edit_id ≡ editing_of q)
      × (t.profiles ≡ s.profiles)
      × (t.mqtt_disabled ≡ mqtt_taken s.profiles (editing_of q))
      × (t.https_disabled ≡ leb max_https_profiles (https_count s.profiles (editing_of q)))
unfolding fw_show_form show_new show_edit update_protocol_options
shown none s = (refl, refl, refl, refl)
shown (some p) s = (refl, refl, refl, refl)

-- The store when the form that was opened for a profile, or for a new one, has been filled in.
abbrev pub filled : Option Profile → Form → Store → Store
filled q f s = record (fw_show_form q s) { form = f }

others-none : (proto : String) (ps : List Profile) → others proto none ps ≡ count proto ps
others-none proto [] = refl
others-none proto (p ∷ ps) = ground (arith, others-none proto ps)

new_protocol :
    (s : Store) → mqtt_taken s.profiles none ≡ true → (fw_show_form none s).form.protocol ≡ "https"
unfolding fw_show_form show_new update_protocol_options
new_protocol s taken = rw taken refl

protocol-read :
    (e : Option String) (f : Form) → f.protocol ≡ "https" → (read_form e f).protocol ≡ "https"
unfolding read_form
protocol-read e f h = rw h refl

-- With an MQTT profile and five HTTPS profiles, a new form opens under "https" although that option
-- is disabled, and saving the form as it opened makes a sixth HTTPS profile.
pub new_form_over_limit :
    (s : Store)
    → mqtt_taken s.profiles none ≡ true
    → count "https" s.profiles ≡ max_https_profiles
    → let t = fw_show_form none s in
      (t.form.protocol ≡ "https")
      × (t.https_disabled ≡ true)
      × (count "https" (save_begin t).profiles ≡ 6)
new_form_over_limit s taken full =
    let t = fw_show_form none s in
    let h = shown none s in
    let proto = new_protocol s taken in
    let sent : (save_begin t).profiles ≡ put_profile none (read_form none t.form) s.profiles =
      unfold save_begin in rw (h.0, h.1) refl in
    let every_other = others-none "https" s.profiles ∙ full in
    (
      proto,
      h.3 ∙ ground (arith, every_other),
      ap (count "https") sent
          ∙ count-put "https" none (read_form none t.form) s.profiles (ground arith)
          ∙ ground (
            arith,
            every_other,
            eq_iff (read_form none t.form).protocol "https",
            protocol-read none t.form proto,
          ),
    )
