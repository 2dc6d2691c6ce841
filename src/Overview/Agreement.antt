-- ===== src/Overview/Agreement.antt =====
-- The parts of the overview that show one fact in several places agree.
use gateway_hub.Prelude.{
  ap, ◌∙◌, sym, false, ◌===◌, true, if◌then◌else◌, ◌≡◌, ◌⊎◌, List, [], ◌∷◌, ◌++◌, String, eq_iff,
  arith, inl, inr, Bool, refl, Bool-cases,
}
use gateway_hub.Network.{NetworkState, active_of, Tone, active, standby, inactive}
use gateway_hub.Overview.{wireless_state, wifi_item, wifi_box, eth_box, cellular_box}

-- The wireless chip, the Wi-Fi row and the Wi-Fi box show one status: the chip has the row's text,
-- and the row has the box's tone.
pub wifi_places_agree :
    (s : NetworkState)
    → (wireless_state s ≡ (wifi_item s).state) × ((wifi_item s).tone ≡ (wifi_box s).tone)
unfolding wireless_state wifi_item wifi_box
wifi_places_agree s = (ground arith, refl)

abbrev pub is_active : Tone → Bool
is_active active = true
is_active standby = false
is_active inactive = false

abbrev pub key_if : Bool → String → List String
key_if b key = if b then key ∷ [] else []

-- The gateway boxes that are painted active, by their uplink.
abbrev pub active_boxes : NetworkState → List String
active_boxes s =
    key_if (is_active (eth_box "eth0" s.eth0 s).tone) "eth0"
    ++ (key_if (is_active (eth_box "eth1" s.eth1 s).tone) "eth1"
        ++ (key_if (is_active (wifi_box s).tone) "wifi_client"
            ++ key_if (is_active (cellular_box s).tone) "cellular"))

eth-is_active :
    (key : String) (s : NetworkState)
    → is_active (eth_box key s.eth0 s).tone ≡ (active_of s === key)
unfolding eth_box
eth-is_active key s = ground arith

eth1-is_active :
    (key : String) (s : NetworkState)
    → is_active (eth_box key s.eth1 s).tone ≡ (active_of s === key)
unfolding eth_box
eth1-is_active key s = ground arith

cellular-is_active :
    (s : NetworkState) → is_active (cellular_box s).tone ≡ (active_of s === "cellular")
unfolding cellular_box
cellular-is_active s = ground arith

wifi-is_active :
    (s : NetworkState) → is_active (wifi_box s).tone ≡ true → (active_of s === "wifi_client") ≡ true
unfolding wifi_box
wifi-is_active s h = ground arith

abbrev boxes_of : String → Bool → List String
boxes_of a w =
    key_if (a === "eth0") "eth0"
    ++ (key_if (a === "eth1") "eth1"
        ++ (key_if w "wifi_client" ++ key_if (a === "cellular") "cellular"))

abbrev OnlyIts : String → Bool → Type 0
OnlyIts a w = (boxes_of a w ≡ []) ⊎ (boxes_of a w ≡ a ∷ [])

no_wifi : (w : Bool) → (w ≡ true → false ≡ true) → w ≡ false
no_wifi true h = cc (h refl)
no_wifi false h = refl

-- At an uplink that has no Wi-Fi box, from the same fact of the literal.
at_literal :
    (a b : String) (w : Bool)
    → a ≡ b
    → ((b === "wifi_client") ≡ false)
    → OnlyIts b false
    → (w ≡ true → (a === "wifi_client") ≡ true)
    → OnlyIts a w
at_literal a b w e ne only h =
    let off : w ≡ false =
      no_wifi w (λ t. sym ne ∙ ap (λ x. x === "wifi_client") (sym e) ∙ h t ∙ refl) in
    rw (e, off) only

wifi_only :
    {a : String} (w : Bool)
    → (w ≡ true → a ≡ "wifi_client")
    → (key_if w "wifi_client" ++ [] ≡ []) ⊎ (key_if w "wifi_client" ++ [] ≡ a ∷ [])
wifi_only true h = inr (rw (h refl))
wifi_only false h = inl refl

boxes_cases : (a : String) (w : Bool) → (w ≡ true → (a === "wifi_client") ≡ true) → OnlyIts a w
boxes_cases a w h = elim (Bool-cases (a === "eth0")) [
  | inl e ↦ at_literal a "eth0" w ((eq_iff a "eth0").0 e) refl (inr refl) h
  | inr n0 ↦ elim (Bool-cases (a === "eth1")) [
    | inl e ↦ at_literal a "eth1" w ((eq_iff a "eth1").0 e) refl (inr refl) h
    | inr n1 ↦ elim (Bool-cases (a === "cellular")) [
      | inl e ↦ at_literal a "cellular" w ((eq_iff a "cellular").0 e) refl (inr refl) h
      | inr n2 ↦ rw (n0, n1, n2) (wifi_only w (λ t. (eq_iff a "wifi_client").0 (h t)))
    ]
  ]
]

-- At most one box of the gateway drawing is painted active, and only that of the active uplink.
pub one_active_box :
    (s : NetworkState) → (active_boxes s ≡ []) ⊎ (active_boxes s ≡ active_of s ∷ [])
one_active_box s =
    rw (eth-is_active "eth0" s, eth1-is_active "eth1" s, cellular-is_active s)
      (boxes_cases (active_of s) (is_active (wifi_box s).tone) (wifi-is_active s))
