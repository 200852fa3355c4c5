-- ===== src/CanvasFilter/Tests.antt =====
-- A slider that feeds a panel alone, and a number shared by the panel and a sum.
use hopper_pi.Prelude.{keep_where, not, ◌&&◌, ◌≡◌, List, [], ◌∷◌}
use hopper_pi.CanvasFilter.{
  Wire, Component, before_dot, has, expand_excluded_ids, apply_canvas_exclusions,
}
use hopper_pi.CanvasFilter.Exclusions.{exclusions_settle, is_to_exclude}
use hopper_pi.CanvasFilter.OnePass.{one_pass_suffices}

abbrev wires : List Wire
wires =
    record { from = "slider.0"; to = "panel.0" }
    ∷ record { from = "number.0"; to = "panel.0" }
    ∷ record { from = "number.0"; to = "sum.0" }
    ∷ []

one_pass_suffices_example :
    has (expand_excluded_ids wires (expand_excluded_ids wires ("panel" ∷ []))) "number"
    ≡ has (expand_excluded_ids wires ("panel" ∷ [])) "number"
one_pass_suffices_example = one_pass_suffices wires ("panel" ∷ []) "number"

abbrev components : List Component
components =
    record { id = "slider"; type_guid = "s" }
    ∷ record { id = "panel"; type_guid = "p" }
    ∷ record { id = "number"; type_guid = "n" }
    ∷ record { id = "sum"; type_guid = "a" }
    ∷ []

abbrev kept : List Component × List Wire
kept = apply_canvas_exclusions ("p" ∷ []) components wires

exclusions_settle_example :
    (kept.0 ≡ keep_where (λ c. not (is_to_exclude ("p" ∷ []) components wires c.id)) components)
    × (kept.1
        ≡ keep_where
            (λ w.
              not (is_to_exclude ("p" ∷ []) components wires (before_dot w.from))
              && not (is_to_exclude ("p" ∷ []) components wires (before_dot w.to)))
            wires)
    × (apply_canvas_exclusions ("p" ∷ []) kept.0 kept.1 ≡ kept)
exclusions_settle_example = exclusions_settle ("p" ∷ []) components wires
