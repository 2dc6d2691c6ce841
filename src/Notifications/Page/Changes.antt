-- ===== src/Notifications/Page/Changes.antt =====
-- What a change of a channel's type or encryption does, and what a pass of the page keeps, in
-- web_console/static/js/app.js.
use gateway_hub.Notifications.Channels.{
  collect_email, moved_port, security_ports, port_or, default_name, EmailCard, collect_channel,
  Card, Channel,
}
use gateway_hub.Notifications.Page.{
  choose_security, change_email, nonzero_or, pos, rename, change_security, Page, collect, kind_at,
  render, ◌∷◌, collect_all, change_type,
}
use gateway_hub.Prelude.Int.{ℤ}
use gateway_hub.Prelude.{
  arith, inr, inl, ◌<◌, lookup_in, Bool-cases, ◌∙◌, ◌||◌, to_string, ◌==◌, ◌===◌, none,
  if◌then◌else◌, refl, ap, zero, [], suc, some, ◌≡◌, change_at, Option, get_elem?, ◌≢◌, String,
  List, ℕ,
}

get-change_at_same {ℓ} :
    {A : Type ℓ} (i : ℕ) (f : A → A) (xs : List A) (x : A)
    → get_elem? xs i ≡ some x
    → get_elem? (change_at i f xs) i ≡ some (f x)
get-change_at_same i f [] x h = absurd (cc h)
get-change_at_same zero f (y ∷ xs) x h = cc h
get-change_at_same (suc i) f (y ∷ xs) x h = get-change_at_same i f xs x h

get-change_at_other {ℓ} :
    {A : Type ℓ} (i j : ℕ) (f : A → A) (xs : List A)
    → i ≢ j
    → get_elem? (change_at i f xs) j ≡ get_elem? xs j
get-change_at_other i j f [] h = refl
get-change_at_other zero zero f (y ∷ xs) h = absurd (h refl)
get-change_at_other zero (suc j) f (y ∷ xs) h = refl
get-change_at_other (suc i) zero f (y ∷ xs) h = refl
get-change_at_other (suc i) (suc j) f (y ∷ xs) h = get-change_at_other i j f xs (λ e. h (ap suc e))

abbrev pub kind_and_name : Option Channel → Option (String × String)
kind_and_name none = none
kind_and_name (some c) = some (c.kind, c.name)

abbrev pub port_and_security : Option Channel → Option (Option ℤ × Option String)
port_and_security none = none
port_and_security (some c) = some (c.email.smtp_port, c.email.security)

-- The port that goes with an encryption, for a port that was `n`.
abbrev pub port_for : String → ℕ → ℕ
port_for security n =
    if n == 587 || n == 465 || n == 25 then port_or n (lookup_in security security_ports) else n

rename_lem :
    (previous : String) (c : Channel)
    → kind_and_name (some (rename previous c))
      ≡ some (c.kind, if c.name === default_name previous then default_name c.kind else c.name)
rename_lem previous c = elim (Bool-cases (c.name === default_name previous)) [
  | inl e ↦ rw e refl
  | inr e ↦ rw e refl
]

default_port-positive :
    (security : String) (n : ℕ) → 0 < n → 0 < port_or n (lookup_in security security_ports)
default_port-positive security n h = elim (Bool-cases ("starttls" === security)) [
  | inl e ↦ rw e (omega arith)
  | inr e ↦ rw e (elim (Bool-cases ("ssl" === security)) [
    | inl f ↦ rw f (omega arith)
    | inr f ↦
        rw f
          (elim (Bool-cases ("none" === security)) [ inl g ↦ rw g (omega arith) | inr g ↦ rw g h ])
  ])
]

nonzero-positive : (n : ℕ) → 0 < n → nonzero_or (pos 587) (some (pos n)) ≡ pos n
nonzero-positive n h = ground arith

module _ (number : String → Option ℤ) where
  get-collect_all :
      (i : ℕ) (cards : List Card) (channels : List Channel) (k : Card) (c : Channel)
      → get_elem? cards i ≡ some k
      → get_elem? channels i ≡ some c
      → get_elem? (collect_all number cards channels) i ≡ some (collect_channel number k c)
  unfolding collect_all
  get-collect_all i [] channels k c h g = absurd (cc h)
  get-collect_all i (x ∷ cards) [] k c h g = absurd (cc g)
  get-collect_all zero (x ∷ cards) (y ∷ channels) k c h g = cc (h, g)
  get-collect_all (suc i) (x ∷ cards) (y ∷ channels) k c h g =
      get-collect_all i cards channels k c h g

  kind_at_lem :
      (i : ℕ) (channels : List Channel) (c : Channel)
      → get_elem? channels i ≡ some c
      → kind_at i channels ≡ c.kind
  kind_at_lem i channels c g = rw (kind_at, g) refl

  renamed :
      (previous : String) (k : Card) (c : Channel)
      → kind_and_name (some (rename previous (collect_channel number k c)))
        ≡ some (k.kind, if k.name === default_name previous then default_name k.kind else k.name)
  unfolding collect_channel
  renamed previous k c = rename_lem previous (collect_channel number k c)

  -- A channel whose card is set to another type has that type, and its name follows the type if it
  -- was the default name of the old one, and is the one typed otherwise.
  pub change_type-renames :
      (i : ℕ) (kind : String) (p : Page) (k : Card) (c : Channel)
      → get_elem? p.cards i ≡ some k
      → get_elem? p.channels i ≡ some c
      → kind_and_name (get_elem? (change_type number i kind p).channels i)
        ≡ some (kind, if k.name === default_name c.kind then default_name kind else k.name)
  unfolding change_type render collect
  change_type-renames i kind p k c h g =
      let set = λ (x : Card). record x { kind = kind } in
      let d = collect_channel number (set k) c in
      ap kind_and_name (
        get-change_at_same i (rename (kind_at i p.channels)) _ d (
          get-collect_all i (change_at i set p.cards) p.channels (set k) c
            (get-change_at_same i set p.cards k h) g))
      ∙ rw (kind_at_lem i p.channels c g) (renamed c.kind (set k) c)

  moved_port_lem :
      (security text : String) (n : ℕ)
      → number (to_string (port_for security n)) ≡ some (pos (port_for security n))
      → 0 < n
      → number text ≡ some (pos n)
      → nonzero_or (pos 587) (number (moved_port number security text)) ≡ pos (port_for security n)
  unfolding moved_port
  moved_port_lem security text n exact h e = elim (Bool-cases (n == 587 || n == 465 || n == 25)) [
    | inl f ↦
        let m = port_or n (lookup_in security security_ports) in
        let x : number (to_string m) ≡ some (pos m) = (rw f at exact) in
        rw (moved_port, e, f, x) (nonzero-positive m (default_port-positive security n h))
    | inr f ↦ rw (moved_port, e, f, e) (nonzero-positive n h)
  ]

  collected_port :
      (security : String) (k : Card) (e : EmailCard) (c : Channel) (n : ℕ)
      → number (to_string (port_for security n)) ≡ some (pos (port_for security n))
      → 0 < n
      → k.email ≡ some e
      → number e.smtp_port ≡ some (pos n)
      → port_and_security
          (some (collect_channel number (change_email (choose_security number security) k) c))
        ≡ some (some (pos (port_for security n)), some security)
  unfolding collect_channel collect_email
  collected_port security k e c n exact h ke ne =
      rw (ke, moved_port_lem security e.smtp_port n exact h ne) refl

  -- Where `number` reads back the port that is printed, the port of a channel whose encryption is
  -- chosen moves to the default of the new one just if it
  -- was one of the three defaults, and is otherwise the one typed.
  pub change_security-port :
      (i : ℕ) (security : String) (p : Page) (k : Card) (e : EmailCard) (c : Channel) (n : ℕ)
      → number (to_string (port_for security n)) ≡ some (pos (port_for security n))
      → 0 < n
      → get_elem? p.cards i ≡ some k
      → k.email ≡ some e
      → number e.smtp_port ≡ some (pos n)
      → get_elem? p.channels i ≡ some c
      → port_and_security (get_elem? (change_security number i security p).channels i)
        ≡ some (some (pos (port_for security n)), some security)
  unfolding change_security render collect
  change_security-port i security p k e c n exact h1 h ke ne g =
      let set = change_email (choose_security number security) in
      ap port_and_security (
        get-collect_all i (change_at i set p.cards) p.channels (set k) c
          (get-change_at_same i set p.cards k h) g)
      ∙ collected_port security k e c n exact h1 ke ne
