-- ===== src/Printers/Tests.antt =====
-- Ages and selectors as they are printed.
use superkube.Base.{show_text, Map, String, ◌*◌, ◌^◌, ◌≡◌, refl, some, [], ◌∷◌}
use superkube.Printers.{format_age, age_str}
use superkube.Printers.Selectors.{selector_text}
use mathlib.Core.List.Perm
use superkube.Printers.Order.{selector_text-Perm}
use superkube.Printers.Nodes.{roles_in}

-- Up to 47 hours an age is in hours.
ages :
    (format_age (59 * 10 ^ 9) ≡ "59s")
    × (format_age (47 * 3600 * 10 ^ 9) ≡ "47h")
    × (format_age (48 * 3600 * 10 ^ 9) ≡ "2d")
unfolding format_age show_text
ages = (refl, refl, refl)

to_come : age_str 5 (some 7) ≡ "0s"
unfolding age_str show_text
to_come = refl

sorted : selector_text (some (("tier", "web") ∷ ("app", "shop") ∷ [])) ≡ "app=shop,tier=web"
unfolding selector_text
sorted = refl

roles :
    (roles_in (("zone", "west") ∷ ("node-role.kubernetes.io/worker", "") ∷ []) ≡ ("worker" ∷ []))
unfolding roles_in
roles = refl

abbrev tier_first : Map String
tier_first = ("tier", "web") ∷ ("app", "shop") ∷ []

abbrev app_first : Map String
app_first = ("app", "shop") ∷ ("tier", "web") ∷ []

selector_text-Perm_example : selector_text (some tier_first) ≡ selector_text (some app_first)
selector_text-Perm_example =
    selector_text-Perm tier_first app_first (Perm.swap ("app", "shop") ("tier", "web") [])
