-- ===== src/Notifications/Page/Cards.antt =====
-- The cards of the notification channels in web_console/static/js/app.js stay with their channels.
use gateway_hub.Notifications.Page.{remove, add, collect, ◌∷◌, ℤ, Page}
use gateway_hub.Notifications.Channels.{Channel, Card}
use gateway_hub.Prelude.{
  true, remove_at, ◌++◌, [], map, ltb, not, All, Option, length, Bool, ◌≡◌, String, ℕ,
}

-- A chip is lit just when it is checked, and a card is off just when its channel's switch is.
abbrev pub IsTrue : Card → Type 0
IsTrue k = (k.is_off ≡ not k.enabled) × All (λ c. c.is_on ≡ c.checked) k.chips

-- There is one card for each channel, and the line for none is hidden just when there is one.
abbrev pub IsPaired : Page → Type 0
IsPaired p =
    (length p.cards ≡ length p.channels)
    × (p.empty_hidden ≡ ltb 0 (length p.channels))
    × All IsTrue p.cards

-- What is typed and set on a card, and the same of a channel: the name, the switch, the type and the
-- least severity.
abbrev pub Typed : Type 0
Typed = String × Bool × String × String

abbrev pub typed_on : Card → Typed
typed_on k = (k.name, k.enabled, k.kind, k.min_severity)

abbrev pub typed_of : Channel → Typed
typed_of c = (c.name, c.enabled, c.kind, c.min_severity)

-- The cards show the names and the switches of the channels, each those of the channel at its place.
abbrev pub ShowNames : Page → Type 0
ShowNames p =
    (map (λ k. k.name) p.cards ≡ map (λ c. c.name) p.channels)
    × (map (λ k. k.enabled) p.cards ≡ map (λ c. c.enabled) p.channels)

module _ (number : String → Option ℤ) where
  -- The channels are those typed on the cards, place by place.
  pub record AreCollected (p : Page) (i : ℕ) : Type 0 where
    pub collected : map typed_of (collect number p).channels ≡ map typed_on p.cards
    pub added :
        map typed_of (add number p).channels
        ≡ map typed_on p.cards ++ ("Slack channel", true, "slack", "warning") ∷ []
    pub removed : map typed_of (remove number i p).channels ≡ remove_at i (map typed_on p.cards)
    pub shown_added : ShowNames (add number p)
    pub shown_removed : ShowNames (remove number i p)
