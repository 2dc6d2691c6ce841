-- ===== src/EdgeServer/Settings/Kept.antt =====
-- Settings of the Edge Server page in web_console/static/js/app.js that are shown and read back.
use gateway_hub.EdgeServer.Settings.Read.{
  read_storage, read_funnel_config, at_least, number_text, read_port, read_listeners, read_services,
}
use gateway_hub.EdgeServer.Settings.{
  completed_tls, Tls, funnel_or, apply_storage, apply_funnel_config, is_not_false, Page,
  interfaces_or, check_bind, Config, check_service, apply_listeners, number_or, checked_of, is_true,
  Funnel, Listeners, Storage,
}
use gateway_hub.Prelude.{
  keep, includes, Option-cases, ◌===◌, [], ◌∷◌, sym, ap, inl, inr, to_string-filled, ◌==◌, arith,
  Bool-cases, map, max, refl, ◌≤◌, none, set_key, some, lookup_in, false, All, true, Bool,
  to_string, ◌≡◌, List, String, Option, ℕ,
}

abbrev pub is_given : {A : Type 0} → Option A → Bool
is_given none = false
is_given (some a) = true

-- A number that is given and not below `low`.
abbrev pub IsAtLeast : ℕ → Option ℕ → Type 0
IsAtLeast low o = (is_given o ≡ true) × (low ≤ number_or o 0)

-- A configuration that leaves nothing but its interfaces to the defaults: ports and days that are not
-- zero, a storage of 5120 MB or more, every flag, and of the tunnel every service of the page.
abbrev pub IsFullListeners : Listeners → Type 0
IsFullListeners l =
    IsAtLeast 1 l.http.port
    × IsAtLeast 1 l.https.port
    × IsAtLeast 1 l.mqtt.port
    × IsAtLeast 1 l.mqtts.port
    × (is_given l.https.mtls_required ≡ true)
    × (is_given l.mqtt.allow_anonymous ≡ true)
    × (is_given l.mqtts.mtls_required ≡ true)

abbrev pub IsFullStorage : Storage → Type 0
IsFullStorage s =
    (is_given s.enabled ≡ true) × IsAtLeast 1 s.retention_days × IsAtLeast 5120 s.max_size_mb

abbrev pub IsFullFunnel : Option Funnel → List (String × Bool) → Type 0
IsFullFunnel none inputs = is_given {A = Bool} none ≡ true
IsFullFunnel (some f) inputs =
    (is_given f.enabled ≡ true) × All (λ i. is_given (lookup_in i.0 f.services) ≡ true) inputs

flag-kept : (o : Option Bool) → is_given o ≡ true → some (is_true o) ≡ o
flag-kept none h = absurd (cc h)
flag-kept (some b) h = refl

not_false-kept : (o : Option Bool) → is_given o ≡ true → some (is_not_false o) ≡ o
not_false-kept none h = absurd (cc h)
not_false-kept (some b) h = refl

set_key-same :
    (key : String) (b : Bool) (services : List (String × Bool))
    → lookup_in key services ≡ some b
    → set_key key b services ≡ services
set_key-same key b [] h = absurd (cc h)
set_key-same key b ((k, a) ∷ services) h = elim (Bool-cases (k === key)) [
  | inl e ↦ rw e (ap (λ x. (k, x) ∷ services) (sym (cc (rw e at h))))
  | inr e ↦ rw e (ap ((k, a) ∷◌) (set_key-same key b services (rw e at h)))
]

set_key-looked_up :
    (key : String) (services : List (String × Bool))
    → is_given (lookup_in key services) ≡ true
    → set_key key (is_true (lookup_in key services)) services ≡ services
set_key-looked_up key services h = elim (Option-cases (lookup_in key services)) [
  | inl e ↦ absurd (cc (h, e))
  | inr (b, e) ↦ rw e (set_key-same key b services e)
]

services-kept :
    (inputs services : List (String × Bool))
    → All (λ i. is_given (lookup_in i.0 services) ≡ true) inputs
    → read_services (map (check_service services) inputs) services ≡ services
services-kept [] services h = refl
services-kept ((key, checked) ∷ inputs) services h = elim (Bool-cases (key === "")) [
  | inl e ↦ rw (read_services, e) (services-kept inputs services h.1)
  | inr e ↦
      rw (read_services, e, set_key-looked_up key services h.0) (services-kept inputs services h.1)
]

funnel-kept :
    (f : Option Funnel) (inputs : List (String × Bool))
    → IsFullFunnel f inputs
    → some (record {
      enabled = some (is_true (funnel_or f).enabled);
      services =
          read_services (map (check_service (funnel_or f).services) inputs) (funnel_or f).services;
    })
      ≡ f
funnel-kept none inputs h = absurd (cc h)
funnel-kept (some f) inputs h = λ i. some (record {
  enabled = flag-kept f.enabled h.0 i;
  services = services-kept inputs f.services h.1 i;
})

tls-kept : (t : Option Tls) → is_given t ≡ true → completed_tls t ≡ t
tls-kept none h = absurd (cc h)
tls-kept (some t) h = refl

-- The number that is printed for a given one is read back.
abbrev pub IsReadBack : (String → Option ℕ) → Option ℕ → Type 0
IsReadBack number none = Unit
IsReadBack number (some n) = number (to_string n) ≡ some n

abbrev pub AreReadBack : (String → Option ℕ) → Config → Type 0
AreReadBack number c = All (IsReadBack number) (
    c.listeners.http.port ∷ c.listeners.https.port ∷ c.listeners.mqtt.port ∷ c.listeners.mqtts.port
    ∷ c.storage.retention_days ∷ c.storage.max_size_mb ∷ [])

-- The page's interfaces, in the page's order, that the configuration has; without a list it has all of
-- the default one.
abbrev pub bound : Config → Page → List String
bound c p = keep (includes (interfaces_or c.listeners.bind_interfaces)) (map (λ b. b.0) p.binds)

checked_of-keep :
    (names : List String) (binds : List (String × Bool))
    → checked_of (map (check_bind names) binds) ≡ keep (includes names) (map (λ b. b.0) binds)
checked_of-keep names [] = refl
checked_of-keep names ((value, checked) ∷ binds) = elim (Bool-cases (includes names value)) [
  | inl e ↦ rw e (ap (value ∷◌) (checked_of-keep names binds))
  | inr e ↦ rw e (checked_of-keep names binds)
]

module _ (number : String → Option ℕ) where
  port-kept :
      (o : Option ℕ) (d : ℕ)
      → IsAtLeast 1 o
      → IsReadBack number o
      → read_port number (to_string (number_or o d)) o ≡ o
  port-kept none d h r = absurd (cc h.0)
  port-kept (some n) d h r = elim (Bool-cases (n == 0)) [
    | inl e ↦ absurd (grind (arith, h.1, e))
    | inr e ↦ rw (e, to_string-filled n) r
  ]

  days-kept :
      (o : Option ℕ) (d : ℕ)
      → IsAtLeast 1 o
      → IsReadBack number o
      → number_text number (to_string (number_or o d)) d ≡ o
  days-kept none d h r = absurd (cc h.0)
  days-kept (some n) d h r = elim (Bool-cases (n == 0)) [
    | inl e ↦ absurd (grind (arith, h.1, e))
    | inr e ↦ rw (e, to_string-filled n) r
  ]

  size-kept :
      (o : Option ℕ)
      → IsAtLeast 5120 o
      → IsReadBack number o
      → at_least 5120 (number_text number (to_string (max 5120 (number_or o 5120))) 5120) ≡ o
  size-kept none h r = absurd (cc h.0)
  size-kept (some n) h r =
      let big : max 5120 (number_or (some n) 5120) ≡ n = grind (arith, h.1) in
      rw (big, to_string-filled n, r) (ap some (let e : max 5120 n ≡ n = grind (arith, h.1) in e))

  listeners-kept :
      (c : Config) (p : Page)
      → IsFullListeners c.listeners
      → AreReadBack number c
      → (read_listeners number (apply_listeners (some c) p) c).listeners
        ≡ record c.listeners { bind_mode = some "interfaces"; bind_interfaces = some (bound c p) }
  unfolding read_listeners apply_listeners
  listeners-kept c p h r = λ i. record {
    bind_mode = some "interfaces";
    bind_interfaces = some (checked_of-keep (interfaces_or c.listeners.bind_interfaces) p.binds i);
    http = record c.listeners.http { port = port-kept c.listeners.http.port 8080 h.0 r.0 i };
    https = record c.listeners.https {
      port = port-kept c.listeners.https.port 8443 h.1 r.1.0 i;
      mtls_required = flag-kept c.listeners.https.mtls_required h.4 i;
    };
    mqtt = record c.listeners.mqtt {
      port = port-kept c.listeners.mqtt.port 1883 h.2 r.1.1.0 i;
      allow_anonymous = flag-kept c.listeners.mqtt.allow_anonymous h.5 i;
    };
    mqtts = record c.listeners.mqtts {
      port = port-kept c.listeners.mqtts.port 8883 h.3 r.1.1.1.0 i;
      mtls_required = flag-kept c.listeners.mqtts.mtls_required h.6 i;
    };
  }

  storage-kept :
      (c : Config) (p : Page)
      → IsFullStorage c.storage
      → AreReadBack number c
      → (read_storage number (apply_storage (some c) p) c).storage ≡ c.storage
  unfolding read_storage apply_storage
  storage-kept c p h r = λ i. record {
    enabled = not_false-kept c.storage.enabled h.0 i;
    retention_days = days-kept c.storage.retention_days 30 h.1 r.1.1.1.1.0 i;
    max_size_mb = size-kept c.storage.max_size_mb h.2 r.1.1.1.1.1.0 i;
  }

  -- All settings shown, then all read back.
  abbrev pub shown_then_read : Config → Page → Config
  shown_then_read c p =
      let q = apply_funnel_config (some c) (apply_storage (some c) (apply_listeners (some c) p)) in
      read_funnel_config q (read_storage number q (read_listeners number q c))

  -- Where `number` reads back the configuration's printed numbers, a configuration that leaves nothing but
  -- its interfaces to the defaults is shown on the page and read back: its ports, flags, storage and tunnel
  -- unchanged, and as its interfaces those of the page's, in the page's order, that it has. What it
  -- says of certificates, which is not read from the page, stays.
  pub settings-kept :
      (c : Config) (p : Page)
      → IsFullListeners c.listeners
      → IsFullStorage c.storage
      → IsFullFunnel c.funnel p.funnel_services
      → is_given c.tls ≡ true
      → AreReadBack number c
      → shown_then_read c p ≡ record c {
        listeners = record c.listeners {
          bind_mode = some "interfaces";
          bind_interfaces = some (bound c p);
        };
      }
  unfolding apply_listeners apply_storage apply_funnel_config read_listeners read_storage
      read_funnel_config
  settings-kept c p hl hs hf ht r = λ i. record {
    listeners = listeners-kept c p hl r i;
    storage = storage-kept c p hs r i;
    funnel = funnel-kept c.funnel p.funnel_services hf i;
    tls = tls-kept c.tls ht i;
  }
