-- ===== src/EdgeServer/Buttons.antt =====
-- The buttons of the endpoints and topics of the Edge Server page in web_console/static/js/app.js.
use gateway_hub.Prelude.{
  includes, eq_iff, Bool-cases, inl, inr, ◌⊎◌, ◌∙◌, or_text, ◌+◌, ◌≡◌, refl, ap, Bool, true, false,
  not, Option, none, some, String, List, [], ◌∷◌, ◌===◌, if◌then◌else◌,
}
use gateway_hub.EdgeServer.Items.{
  put, remove, change, find_id, Distinct, find-put, put-Distinct, remove-Distinct, change-Distinct,
  change-change,
}
use gateway_hub.EdgeServer.Endpoints.{
  assigned, text, id_or_null, http_protocols, http_methods, http_auths, http_payloads, http_sources,
  Endpoint, Topic, HttpForm, MqttForm, Page, show_http_form, show_mqtt_form, hide_http_form,
  hide_mqtt_form, read_http_form, read_mqtt_form, flip_endpoint, flip_topic,
}

pub data Event : Type 0 where
  add_http cancel_http add_mqtt cancel_mqtt : Event
  save_http save_mqtt edit_http delete_http toggle_http edit_mqtt delete_mqtt toggle_mqtt :
      String → Event
  http_typed : HttpForm → Event
  mqtt_typed : MqttForm → Event

abbrev pub is_some : {A : Type 0} → Option A → Bool
is_some none = false
is_some (some x) = true

abbrev pub count_save : Bool → Page → Page
count_save found p = record p { saves = if found then p.saves + 1 else p.saves }

unfoldable pub step : Page → Event → Page
unfolding show_http_form show_mqtt_form hide_http_form hide_mqtt_form put remove change
step p add_http = show_http_form none p
step p cancel_http = hide_http_form p
step p (save_http fresh) =
    let list = put (λ e. e.id) (read_http_form fresh p) p.http_endpoints in
    count_save true (hide_http_form (record p { http_endpoints = list }))
step p (edit_http id) = show_http_form (find_id (λ e. e.id) id p.http_endpoints) p
step p (delete_http id) =
    count_save true (record p { http_endpoints = remove (λ e. e.id) id p.http_endpoints })
step p (toggle_http id) =
    count_save (is_some (find_id (λ e. e.id) id p.http_endpoints))
      (record p { http_endpoints = change (λ e. e.id) flip_endpoint id p.http_endpoints })
step p (http_typed form) = record p { http_form = form }
step p add_mqtt = show_mqtt_form none p
step p cancel_mqtt = hide_mqtt_form p
step p (save_mqtt fresh) =
    let list = put (λ t. t.id) (read_mqtt_form fresh p) p.mqtt_topics in
    count_save true (hide_mqtt_form (record p { mqtt_topics = list }))
step p (edit_mqtt id) = show_mqtt_form (find_id (λ t. t.id) id p.mqtt_topics) p
step p (delete_mqtt id) =
    count_save true (record p { mqtt_topics = remove (λ t. t.id) id p.mqtt_topics })
step p (toggle_mqtt id) =
    count_save (is_some (find_id (λ t. t.id) id p.mqtt_topics))
      (record p { mqtt_topics = change (λ t. t.id) flip_topic id p.mqtt_topics })
step p (mqtt_typed form) = record p { mqtt_form = form }

unfoldable pub run : Page → List Event → Page
run p [] = p
run p (e ∷ events) = run (step p e) events

abbrev pub http_id : Endpoint → String
http_id e = e.id

abbrev pub mqtt_id : Topic → String
mqtt_id t = t.id

abbrev pub DistinctIds : Page → Type 0
DistinctIds p = Distinct http_id p.http_endpoints × Distinct mqtt_id p.mqtt_topics

step-DistinctIds : (p : Page) (e : Event) → DistinctIds p → DistinctIds (step p e)
unfolding step
step-DistinctIds p add_http h = h
step-DistinctIds p cancel_http h = h
step-DistinctIds p (save_http fresh) h = (put-Distinct http_id _ _ h.0, h.1)
step-DistinctIds p (edit_http id) h = h
step-DistinctIds p (delete_http id) h = (remove-Distinct http_id id _ h.0, h.1)
step-DistinctIds p (toggle_http id) h =
    (change-Distinct http_id flip_endpoint (λ e. refl) id _ h.0, h.1)
step-DistinctIds p (http_typed form) h = h
step-DistinctIds p add_mqtt h = h
step-DistinctIds p cancel_mqtt h = h
step-DistinctIds p (save_mqtt fresh) h = (h.0, put-Distinct mqtt_id _ _ h.1)
step-DistinctIds p (edit_mqtt id) h = h
step-DistinctIds p (delete_mqtt id) h = (h.0, remove-Distinct mqtt_id id _ h.1)
step-DistinctIds p (toggle_mqtt id) h =
    (h.0, change-Distinct mqtt_id flip_topic (λ t. refl) id _ h.1)
step-DistinctIds p (mqtt_typed form) h = h

-- If no two endpoints of the start page have one id, and no two topics, then none do after whatever
-- is added, edited, saved, toggled and deleted, in whatever order and with whatever ids drawn.
pub run-DistinctIds : (p : Page) (events : List Event) → DistinctIds p → DistinctIds (run p events)
unfolding run
run-DistinctIds p [] h = h
run-DistinctIds p (e ∷ events) h = run-DistinctIds (step p e) events (step-DistinctIds p e h)

not-not : (b : Bool) → not (not b) ≡ b
not-not true = refl
not-not false = refl

-- Toggling an endpoint or a topic twice, whether or not the id is there, leaves the lists as they
-- were.
pub toggle-toggle :
    (p : Page) (id : String)
    → ((run p (toggle_http id ∷ toggle_http id ∷ [])).http_endpoints ≡ p.http_endpoints)
      × ((run p (toggle_mqtt id ∷ toggle_mqtt id ∷ [])).mqtt_topics ≡ p.mqtt_topics)
unfolding run step
toggle-toggle p id = (
  change-change http_id flip_endpoint (λ e. refl)
      (λ e. ap (λ b. record e { enabled = b }) (not-not e.enabled)) id p.http_endpoints,
  change-change mqtt_id flip_topic (λ t. refl)
      (λ t. ap (λ b. record t { enabled = b }) (not-not t.enabled)) id p.mqtt_topics,
)

-- The inputs of text that are not left empty, and the id.
abbrev pub IsFilled : Endpoint → Type 0
IsFilled e =
    ((e.id === "") ≡ false)
    × ((e.name === "") ≡ false)
    × ((e.path === "") ≡ false)
    × ((e.device_id_key === "") ≡ false)

-- A value that is an option, or else the default.
abbrev pub option_or : List String → String → String → String
option_or options value default = if includes options value then value else default

text_self : (s : String) → ((s === "") ≡ true) ⊎ ((s === "") ≡ false) → text s s ≡ s
text_self s (inl e) = rw e refl
text_self s (inr e) = rw e refl

text-text : (s default : String) → (s === "") ≡ false → text (text s default) default ≡ s
text-text s default e = rw (e, e) refl

-- What a select stores whose value is shown and read, of a default that is an option.
text-assigned :
    (options : List String) (value default : String)
    → includes options "" ≡ false
    → includes options default ≡ true
    → text (assigned options (text value default)) default ≡ option_or options value default
text-assigned options value default h k = elim (Bool-cases (value === "")) [
  | inl e ↦
      let empty : value ≡ "" = (eq_iff value "").0 e in
      let out : includes options value ≡ false = ap (includes options) empty ∙ h in
      rw (e, out, k) (text_self default (Bool-cases (default === "")))
  | inr e ↦ elim (Bool-cases (includes options value)) [
    | inl o ↦ rw (e, o, e) refl
    | inr o ↦ rw (e, o) refl
  ]
]

-- The endpoint that is stored when e is opened and saved unchanged.
abbrev pub stored : Endpoint → Endpoint
stored e = record e {
  enabled = true;
  protocol = option_or http_protocols e.protocol "http";
  method = option_or http_methods e.method "POST";
  auth = option_or http_auths e.auth "token";
  payload_type = option_or http_payloads e.payload_type "json";
  device_id_source = option_or http_sources e.device_id_source "payload";
}

read-show :
    (e : Endpoint) (fresh : String) (p : Page)
    → IsFilled e
    → read_http_form fresh (show_http_form (some e) p) ≡ stored e
unfolding show_http_form read_http_form
read-show e fresh p f = λ i. record {
  id = (let h : or_text (id_or_null e.id) fresh ≡ e.id = rw (f.0, f.0) refl in h) i;
  enabled = true;
  name = (let h : text e.name "HTTP Endpoint" ≡ e.name = rw (f.1) refl in h) i;
  protocol = text-assigned http_protocols e.protocol "http" refl refl i;
  method = text-assigned http_methods e.method "POST" refl refl i;
  path = text-text e.path "/ingest" f.2 i;
  auth = text-assigned http_auths e.auth "token" refl refl i;
  payload_type = text-assigned http_payloads e.payload_type "json" refl refl i;
  device_id_source = text-assigned http_sources e.device_id_source "payload" refl refl i;
  device_id_key = text-text e.device_id_key "device_id" f.3 i;
}

-- Opening an endpoint whose id and texts are not empty and saving it unchanged stores it switched on,
-- also if it was disabled, with its texts as they were; a protocol, method, authentication, payload or
-- source of the id that the form offers is kept, and any other gives way to the default. Every other
-- endpoint is left alone.
pub edit-save_http :
    (p : Page) (e : Endpoint) (fresh id : String)
    → IsFilled e
    → find_id http_id e.id p.http_endpoints ≡ some e
    → find_id http_id id (run p (edit_http e.id ∷ save_http fresh ∷ [])).http_endpoints
      ≡ (if e.id === id then some (stored e) else find_id http_id id p.http_endpoints)
unfolding run step
edit-save_http p e fresh id f found =
    let opened : find_id (λ d. d.id) e.id p.http_endpoints ≡ some e = found in
    rw (opened, read-show e fresh p f) (find-put http_id id (stored e) p.http_endpoints)
