-- ===== src/Forwarding/Store/Save.antt =====
-- What a save does to the list of profiles, and what it keeps of a profile that was opened.
use mathlib.Core.Option.{some-injective}
use gateway_hub.Prelude.{
  ◌⊎◌, ◌≡◌, ◌≢◌, refl, ap, ◌∙◌, false, Option, none, some, String, List, [], ◌∷◌, ◌++◌, length,
  keep, find, ◌===◌, includes, if◌then◌else◌, arith, eq_iff, Bool-cases, inl, inr, append_assoc,
}
use gateway_hub.Forwarding.Cert.{step-wanted}
use gateway_hub.Forwarding.Profile.{every, listed, Mqtt, mqtt, Channel, Loaded, Profile}
use gateway_hub.Forwarding.Form.{Form, read_form, read_sources, read_mqtt}
use gateway_hub.Forwarding.Store.{
  update_protocol_options, Store, upsert, put_profile, save_begin, save_end, show_edit, opened,
  show_channel, show_mqtt, Reply, Config, Saved, id_or_null,
}

abbrev pub find_id : String → List Profile → Option Profile
find_id id ps = find (λ p. p.id === id) ps

find_id-upsert :
    (id j : String) (p : Profile)
    → p.id ≡ id
    → (ps : List Profile) → find_id j (upsert id p ps) ≡ (if id === j then some p else find_id j ps)
unfolding upsert
find_id-upsert id j p e [] = rw e
find_id-upsert id j p e (q ∷ qs) =
    ground (arith, e, eq_iff q.id id, eq_iff id j, eq_iff q.id j, find_id-upsert id j p e qs)

length-upsert :
    (id : String) (p q : Profile) (ps : List Profile)
    → find_id id ps ≡ some q
    → length (upsert id p ps) ≡ length ps
unfolding upsert
length-upsert id p q [] h = cc
length-upsert id p q (r ∷ rs) h = ground (arith, length-upsert id p q rs)

upsert-upsert :
    (id : String) (p : Profile)
    → p.id ≡ id
    → (ps : List Profile) → upsert id p (upsert id p ps) ≡ upsert id p ps
unfolding upsert
upsert-upsert id p e [] = ground (arith, e, eq_iff p.id id)
upsert-upsert id p e (q ∷ qs) = ground (arith, e, eq_iff p.id id, upsert-upsert id p e qs)

-- The profile that a save puts into the list.
abbrev pub saved : Store → Profile
saved s = read_form s.edit_id s.form

id-saved : (id : String) (f : Form) → (id === "") ≡ false → (read_form (some id) f).id ≡ id
unfolding read_form
id-saved id f h = rw h

-- Saving a profile that is being edited replaces it and no other: looked up by its id, each other
-- profile is the one of before, and the list keeps its length if it had the profile.
pub save-edited :
    (s : Store) (id j : String)
    → s.edit_id ≡ some id
    → (id === "") ≡ false
    → (find_id j (save_begin s).profiles
        ≡ (if id === j then some (saved s) else find_id j s.profiles))
      × ((q : Profile)
          → find_id id s.profiles ≡ some q
          → length (save_begin s).profiles ≡ length s.profiles)
unfolding save_begin put_profile
save-edited s id j e h =
    let p = read_form (some id) s.form in
    (
      rw e (find_id-upsert id j p (id-saved id s.form h) s.profiles),
      (λ q found. rw e (length-upsert id p q s.profiles found)),
    )

abbrev Failed : Option Saved → Type 0
Failed r = r ≡ none ⊎ ((b : Saved) × (r ≡ some b) × (b.ok ≡ false))

-- After a failed save the list, the form and the profile that it edits are as they were sent.
save_end-Failed :
    (r : Option Saved) (config : Reply Config) (s : Store)
    → Failed r
    → (save_begin (save_end r config s)).profiles ≡ put_profile s.edit_id (saved s) s.profiles
unfolding save_begin save_end
save_end-Failed none config s failed = refl
save_end-Failed (some b) config s (inl e) = cc
save_end-Failed (some b) config s (inr (c, e, h)) =
    let no : b.ok ≡ false = rw (some-injective _ _ e) h in rw no refl

-- Pressing Save once more after a failed save of an edited profile sends the same list again; of a
-- new profile, it sends a list that holds the profile twice.
pub save-retry :
    (s : Store) (r : Option Saved) (config : Reply Config)
    → Failed r
    → (s.edit_id ≡ none
        → (save_begin (save_end r config (save_begin s))).profiles
          ≡ s.profiles ++ saved s ∷ saved s ∷ [])
      × ((id : String)
          → s.edit_id ≡ some id
          → (id === "") ≡ false
          → (save_begin (save_end r config (save_begin s))).profiles ≡ (save_begin s).profiles)
save-retry s r config failed =
    let sent = save_end-Failed r config (save_begin s) failed in
    (
      (λ e. sent ∙ unfold save_begin put_profile in rw e (append_assoc s.profiles _ _)),
      (λ id e h.
          sent
          ∙ unfold save_begin put_profile in
            rw e (upsert-upsert id _ (id-saved id s.form h) s.profiles)),
    )

form-show_edit :
    (p : Profile) (s : Store)
    → (show_edit p s).form
      ≡ show_channel (opened p s).protocol p.channel p.loaded s.default_query (opened p s)
unfolding show_edit update_protocol_options
form-show_edit p s = refl

read-show_mqtt :
    (m : Mqtt) (l : Loaded) (f : Form)
    → let n = read_mqtt (show_mqtt m l f) in
      (n.password ≡ m.password)
      × (n.tls ≡ m.tls)
      × (m.port ≢ 0 → n.port ≡ m.port)
      × ((n.tls_ca ≡ none) × (n.tls_cert ≡ none) × (n.tls_key ≡ none))
      × (m.qos ≢ 0 → n.qos ≡ m.qos)
      × (m.qos ≡ 0 → n.qos ≡ 1)
unfolding read_mqtt
read-show_mqtt m l f = (
  refl,
  refl,
  (λ h. ground arith),
  (step-wanted f.mqtt_ca _, step-wanted f.mqtt_cert _, step-wanted f.mqtt_key _),
  (λ h. ground arith),
  (λ h. ground arith),
)

channel-mqtt :
    (id : Option String) (f : Form) (m : Mqtt) (l : Loaded)
    → f.protocol ≡ "mqtt"
    → (read_form id (show_mqtt m l f)).channel ≡ mqtt (read_mqtt (show_mqtt m l f))
unfolding read_form
channel-mqtt id f m l e = rw e refl

-- Opening an MQTT profile that the list has and saving it unchanged keeps its password, its TLS
-- switch and its port (if it is not 0), tells the device to keep its certificates, and keeps its
-- QoS, but for QoS 0, which is saved as QoS 1.
pub show-save_mqtt :
    (p : Profile) (m : Mqtt) (s : Store)
    → p.protocol ≡ "mqtt"
    → p.channel ≡ mqtt m
    → (n : Mqtt) × ((read_form (id_or_null p.id) (show_edit p s).form).channel ≡ mqtt n)
      × (n.password ≡ m.password)
      × (n.tls ≡ m.tls)
      × (m.port ≢ 0 → n.port ≡ m.port)
      × ((n.tls_ca ≡ none) × (n.tls_cert ≡ none) × (n.tls_key ≡ none))
      × (m.qos ≢ 0 → n.qos ≡ m.qos)
      × (m.qos ≡ 0 → n.qos ≡ 1)
show-save_mqtt p m s e c =
    let f = opened p s in
    let proto : f.protocol ≡ "mqtt" = unfold opened in rw e refl in
    let shown : (show_edit p s).form ≡ show_mqtt m p.loaded f =
      form-show_edit p s ∙ rw (proto, c) refl in
    let kept = read-show_mqtt m p.loaded f in
    (
      read_mqtt (show_mqtt m p.loaded f),
      ap (λ g. (read_form (id_or_null p.id) g).channel) shown
          ∙ channel-mqtt (id_or_null p.id) f m p.loaded proto,
      kept.0,
      kept.1,
      kept.2,
      kept.3,
      kept.4,
      kept.5,
    )

sources-show_channel :
    (proto : String) (c : Channel) (l : Loaded) (q : String) (f : Form)
    → (read_sources (show_channel proto c l q f)).sensors ≡ (read_sources f).sensors
unfolding read_sources
sources-show_channel proto c l q f = elim (Bool-cases (proto === "mqtt")) [
  | inl h ↦ rw h refl
  | inr h ↦ rw h refl
]

-- Opening a profile and saving it unchanged keeps a selection of all sensors; of a list of sensors
-- it keeps those that are available at the moment, in the order of the available ones.
pub show-save_sensors :
    (p : Profile) (s : Store)
    → (p.sources.sensors ≡ every → (read_sources (show_edit p s).form).sensors ≡ every)
      × ((keys : List String)
          → p.sources.sensors ≡ listed keys
          → (read_sources (show_edit p s).form).sensors
            ≡ listed (keep (λ k. includes keys k) s.available))
show-save_sensors p s =
    let same =
      ap (λ f. (read_sources f).sensors) (form-show_edit p s)
      ∙ sources-show_channel _ p.channel p.loaded s.default_query (opened p s) in
    (
      (λ e. same ∙ unfold opened read_sources in rw e refl),
      (λ keys e. same ∙ unfold opened read_sources in rw e refl),
    )
