-- ===== src/CanvasFilter/Exclusions.antt =====
-- The exclusions of the canvas (src/services/canvas-filter.ts, lines 94 to 113), made a second time.
use hopper_pi.Prelude.{
  any, ◌==◌, ◌&&◌, String, ◌≡◌, refl, ap, ◌∙◌, Bool, true, ◌||◌, not, List, [], ◌∷◌, ◌++◌, map,
  eq_refl, arith, all, keep_where, all_weaker,
}
use hopper_pi.CanvasFilter.{
  Wire, Component, before_dot, has, ends, neighbors, is_cut_off, expand_excluded_ids,
  initially_excluded, is_kept_wire, apply_canvas_exclusions,
}
use hopper_pi.CanvasFilter.OnePass.{has-expand}

module _ {A : Type 0} where
  keep_none : (p : A → Bool) (xs : List A) → all (λ x. not (p x)) xs ≡ true → keep_where p xs ≡ []
  keep_none p [] h = refl
  keep_none p (x ∷ xs) h = ground (arith, keep_none p xs)

  keep_all : (p : A → Bool) (xs : List A) → ((x : A) → p x ≡ true) → keep_where p xs ≡ xs
  keep_all p [] h = refl
  keep_all p (x ∷ xs) h = ground (arith, h x, keep_all p xs h)

abbrev has_type : List String → Component → Bool
has_type types c = has types c.type_guid

-- A component of an excluded type is excluded.
types-excluded :
    (types : List String) (cs : List Component)
    → all (λ c. not (has_type types c) || has (initially_excluded types cs) c.id) cs ≡ true
unfolding initially_excluded has
types-excluded types [] = refl
types-excluded types (x ∷ cs) = ground (
  arith,
  eq_refl x.id,
  types-excluded types cs,
  all_weaker (λ c. not (has_type types c) || has (initially_excluded types cs) c.id)
      (λ c. not (has_type types c) || has (initially_excluded types (x ∷ cs)) c.id) cs
      (λ c e. ground arith),
)

none_left :
    (types out : List String) (cs : List Component)
    → all (λ c. not (has_type types c) || has out c.id) cs ≡ true
    → all (λ c. not (has_type types c)) (keep_where (λ c. not (has out c.id)) cs) ≡ true
none_left types out [] h = refl
none_left types out (c ∷ cs) h = ground (arith, none_left types out cs)

cut_off-cons :
    (w : Wire) (ws : List Wire) (k : String)
    → is_cut_off (w ∷ ws) [] k ≡ true
    → is_cut_off ws [] k ≡ true
unfolding is_cut_off neighbors has
cut_off-cons w ws k h = ground arith

-- The end of a wire has a neighbour.
ends_joined : (ws : List Wire) → all (λ k. not (is_cut_off ws [] k)) (ends ws) ≡ true
unfolding is_cut_off neighbors has ends
ends_joined [] = refl
ends_joined (w ∷ ws) = ground (
  arith,
  eq_refl (before_dot w.from),
  eq_refl (before_dot w.to),
  ends_joined ws,
  all_weaker (λ k. not (is_cut_off ws [] k)) (λ k. not (is_cut_off (w ∷ ws) [] k)) (ends ws)
      (λ k e. ground (arith, cut_off-cons w ws k)),
)

nothing_excluded :
    (types : List String) (cs : List Component) (ws : List Wire)
    → initially_excluded types cs ≡ []
    → apply_canvas_exclusions types cs ws ≡ (cs, ws)
unfolding apply_canvas_exclusions expand_excluded_ids is_kept_wire has
nothing_excluded types cs ws h =
    ap
      (λ out. (
        keep_where (λ c. not (has (out ++ keep_where (is_cut_off ws out) (ends ws)) c.id)) cs,
        keep_where (is_kept_wire (out ++ keep_where (is_cut_off ws out) (ends ws))) ws,
      ))
      h
    ∙ ap (λ out. (keep_where (λ c. not (has out c.id)) cs, keep_where (is_kept_wire out) ws))
        (keep_none (is_cut_off ws []) (ends ws) (ends_joined ws))
    ∙ ap (λ rows. (rows, keep_where (is_kept_wire []) ws))
        (keep_all (λ c. not (has [] c.id)) cs (λ c. refl))
    ∙ ap (λ rest. (cs, rest)) (keep_all (is_kept_wire []) ws (λ w. refl))

types_gone :
    (types : List String) (cs : List Component) (ws : List Wire)
    → initially_excluded types (apply_canvas_exclusions types cs ws).0 ≡ []
unfolding apply_canvas_exclusions initially_excluded
types_gone types cs ws =
    let out = expand_excluded_ids ws (initially_excluded types cs) in
    ap (map (λ c. c.id)) (
      keep_none (has_type types) (keep_where (λ c. not (has out c.id)) cs) (
        none_left types out cs (
          all_weaker (λ c. not (has_type types c) || has (initially_excluded types cs) c.id)
            (λ c. not (has_type types c) || has out c.id) cs
            (λ c e. ground (arith, has-expand ws (initially_excluded types cs) c.id))
            (types-excluded types cs))))

-- What is to be excluded, told by the wires themselves: a component of an excluded type, and an end of a wire
-- of which every wire leads to such a component.
abbrev is_of_type : List String → List Component → String → Bool
is_of_type types cs k = any (λ c. c.id == k && any (λ x. x == c.type_guid) types) cs

abbrev leads_only : (String → Bool) → String → Wire → Bool
leads_only excluded k w =
    (not (before_dot w.from == k) || excluded (before_dot w.to))
    && (not (before_dot w.to == k) || excluded (before_dot w.from))

abbrev pub is_to_exclude : List String → List Component → List Wire → String → Bool
is_to_exclude types cs ws k =
    is_of_type types cs k
    || (any (λ w. before_dot w.from == k || before_dot w.to == k) ws
        && all (leads_only (is_of_type types cs) k) ws)

has-initially_excluded :
    (types : List String) (cs : List Component) (k : String)
    → has (initially_excluded types cs) k ≡ is_of_type types cs k
unfolding has initially_excluded
has-initially_excluded types [] k = refl
has-initially_excluded types (c ∷ cs) k = ground (arith, has-initially_excluded types cs k)

has-ends :
    (ws : List Wire) (k : String)
    → has (ends ws) k ≡ any (λ w. before_dot w.from == k || before_dot w.to == k) ws
unfolding has ends
has-ends [] k = refl
has-ends (w ∷ ws) k = ground (arith, has-ends ws k)

cut_off_leads :
    (xs : List String) (p : String → Bool) (ws : List Wire) (k : String)
    → ((j : String) → has xs j ≡ p j)
    → is_cut_off ws xs k ≡ all (leads_only p k) ws
unfolding is_cut_off neighbors
cut_off_leads xs p [] k h = refl
cut_off_leads xs p (w ∷ ws) k h =
    ground (arith, h (before_dot w.from), h (before_dot w.to), cut_off_leads xs p ws k h)

has-excluded :
    (types : List String) (cs : List Component) (ws : List Wire) (k : String)
    → has (expand_excluded_ids ws (initially_excluded types cs)) k ≡ is_to_exclude types cs ws k
has-excluded types cs ws k = ground (
  arith,
  has-expand ws (initially_excluded types cs) k,
  has-initially_excluded types cs k,
  has-ends ws k,
  cut_off_leads (initially_excluded types cs) (is_of_type types cs) ws k
      (has-initially_excluded types cs),
)

keep_same :
    {A : Type 0} (p q : A → Bool) (xs : List A)
    → ((x : A) → p x ≡ q x)
    → keep_where p xs ≡ keep_where q xs
keep_same p q [] h = refl
keep_same p q (x ∷ xs) h = ground (arith, h x, keep_same p q xs h)

excludes_exactly :
    (types : List String) (cs : List Component) (ws : List Wire)
    → apply_canvas_exclusions types cs ws ≡ (
      keep_where (λ c. not (is_to_exclude types cs ws c.id)) cs,
      keep_where
          (λ w.
            not (is_to_exclude types cs ws (before_dot w.from))
            && not (is_to_exclude types cs ws (before_dot w.to)))
          ws,
    )
unfolding apply_canvas_exclusions is_kept_wire
excludes_exactly types cs ws =
    let out = expand_excluded_ids ws (initially_excluded types cs) in
    ap (λ rows. (rows, keep_where (is_kept_wire out) ws))
      (keep_same (λ c. not (has out c.id)) (λ c. not (is_to_exclude types cs ws c.id)) cs
        (λ c. ground (arith, has-excluded types cs ws c.id)))
    ∙ ap (λ rest. (keep_where (λ c. not (is_to_exclude types cs ws c.id)) cs, rest))
        (keep_same (is_kept_wire out) _ ws (λ w. ground (
          arith,
          has-excluded types cs ws (before_dot w.from),
          has-excluded types cs ws (before_dot w.to),
        )))

-- The exclusions keep, in their order, exactly the components that are neither of an excluded type nor
-- joined by their wires, of which they have one, to components of excluded types alone, and exactly the wires
-- between ends that are not excluded in this sense; made again on what they left they change nothing.
pub exclusions_settle :
    (types : List String) (cs : List Component) (ws : List Wire)
    → let left = apply_canvas_exclusions types cs ws in
      (left.0 ≡ keep_where (λ c. not (is_to_exclude types cs ws c.id)) cs)
      × (left.1
          ≡ keep_where
              (λ w.
                not (is_to_exclude types cs ws (before_dot w.from))
                && not (is_to_exclude types cs ws (before_dot w.to)))
              ws)
      × (apply_canvas_exclusions types left.0 left.1 ≡ left)
exclusions_settle types cs ws = (
  ap (λ x. x.0) (excludes_exactly types cs ws),
  ap (λ x. x.1) (excludes_exactly types cs ws),
  nothing_excluded types (apply_canvas_exclusions types cs ws).0
      (apply_canvas_exclusions types cs ws).1 (types_gone types cs ws),
)
