-- ===== src/EdgeServer/Alerts.antt =====
-- The alerts of the Edge Server page in web_console/static/js/app.js: their two protocol filters.
use gateway_hub.Prelude.{
  eq_iff, ◌≡◌, refl, Bool, true, false, not, ◌&&◌, ◌||◌, String, [], ◌∷◌, includes, ◌===◌,
  if◌then◌else◌, Bool-cases, inl, inr,
}

pub record Filters : Type 0 where
  pub group : String
  pub protocol : String

-- The group that a protocol belongs to.
unfoldable pub group_of : String → String
group_of protocol =
    if includes ("HTTP" ∷ "HTTPS" ∷ []) protocol
    then "http"
    else if includes ("MQTT" ∷ "MQTTS" ∷ []) protocol
    then "mqtt"
    else ""

-- `esNormaliseAlertFilterPair("group")`
unfoldable pub group_changed : Filters → Filters
group_changed f =
    if not (f.protocol === "") && not (f.group === "" || f.group === group_of f.protocol)
    then record f { protocol = "" }
    else f

-- `esNormaliseAlertFilterPair("protocol")`
unfoldable pub protocol_changed : Filters → Filters
protocol_changed f =
    if not (group_of f.protocol === "") then record f { group = group_of f.protocol } else f

pub data Choice : Type 0 where
  group_chosen protocol_chosen : String → Choice

unfoldable pub choose : Filters → Choice → Filters
unfolding group_changed protocol_changed
choose f (group_chosen g) = group_changed (record f { group = g })
choose f (protocol_chosen p) = protocol_changed (record f { protocol = p })

-- The two menus do not contradict each other.
abbrev pub Compatible : Filters → Type 0
Compatible f =
    (not (f.protocol === "")
      && not (group_of f.protocol === "")
      && not (f.group === "" || f.group === group_of f.protocol))
    ≡ false

and_between : (a b c : Bool) → (a && c) ≡ false → (a && b && c) ≡ false
and_between true true c h = h
and_between true false c h = refl
and_between false b c h = refl

and_false : (a : Bool) → (a && false) ≡ false
and_false true = refl
and_false false = refl

false_between : (a b : Bool) → (a && false && b) ≡ false
false_between true b = refl
false_between false b = refl

own_group :
    (a c : Bool) (g : String) → (g === "") ≡ false → (a && c && not (g === "" || g === g)) ≡ false
own_group a c g h = rw (h, (eq_iff g g).1 refl) (and_false (a && c))

group_changed-Compatible : (f : Filters) → Compatible (group_changed f)
unfolding group_changed
group_changed-Compatible f =
    let own = f.group === "" || f.group === group_of f.protocol in
    elim (Bool-cases (not (f.protocol === "") && not own)) [
      | inl h ↦ rw h refl
      | inr h ↦
          rw h
            (and_between (not (f.protocol === "")) (not (group_of f.protocol === "")) (not own) h)
    ]

protocol_changed-Compatible : (f : Filters) → Compatible (protocol_changed f)
unfolding protocol_changed
protocol_changed-Compatible f = elim (Bool-cases (group_of f.protocol === "")) [
  | inl h ↦ rw h (rw h (false_between (not (f.protocol === "")) _))
  | inr h ↦ rw h (
      own_group (not (f.protocol === "")) (not (group_of f.protocol === "")) (group_of f.protocol)
        h)
]

-- Whatever is chosen in either menu, the two filters do not contradict each other: a protocol that
-- has a group stands beside no group or beside its own.
pub choose-Compatible : (f : Filters) (c : Choice) → Compatible (choose f c)
unfolding choose
choose-Compatible f (group_chosen g) = group_changed-Compatible (record f { group = g })
choose-Compatible f (protocol_chosen p) = protocol_changed-Compatible (record f { protocol = p })
