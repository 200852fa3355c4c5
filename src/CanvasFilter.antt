-- ===== src/CanvasFilter.antt =====
-- src/services/canvas-filter.ts, lines 10 to 33 and 94 to 113: what is left out of the canvas that an
-- agent sees. A Set or the keys of a Map are lists, in which a repeated member makes no difference.
pub mod OnePass
pub mod Exclusions
mod Tests
use Prim.Native.Char.{code}
use Prim.Native.String.{◌∷◌}
use hopper_pi.Prelude.{
  String, Bool, true, false, ◌&&◌, ◌||◌, not, List, [], ◌∷◌, ◌++◌, map, ◌==◌, nat_eq, any, all,
  keep_where, if◌then◌else◌,
}

-- An end of a wire is the identifier of a component, a dot and a port.
pub record Wire : Type 0 where
  pub from : String
  pub to : String

-- An entry of `components`: its key, and the type of the component.
pub record Component : Type 0 where
  pub id : String
  pub type_guid : String

-- text.split(".")[0]
unfoldable pub before_dot : String → String
before_dot String.[] = String.[]
before_dot (c ∷ rest) =
    let tail = before_dot rest in if nat_eq (code c) b'.' then String.[] else c ∷ tail

unfoldable pub has : List String → String → Bool
has ids k = any (λ x. x == k) ids

-- The keys of `adjacency`.
unfoldable pub ends : List Wire → List String
ends [] = []
ends (w ∷ ws) = before_dot w.from ∷ before_dot w.to ∷ ends ws

-- The members of `adjacency` at `id`.
unfoldable pub neighbors : String → List Wire → List String
neighbors id [] = []
neighbors id (w ∷ ws) =
    (if before_dot w.from == id then before_dot w.to ∷ [] else [])
    ++ (if before_dot w.to == id then before_dot w.from ∷ [] else [])
    ++ neighbors id ws

unfoldable pub is_cut_off : List Wire → List String → String → Bool
is_cut_off wires excluded id = all (has excluded) (neighbors id wires)

unfoldable pub expand_excluded_ids : List Wire → List String → List String
expand_excluded_ids wires initial = initial ++ keep_where (is_cut_off wires initial) (ends wires)

unfoldable pub initially_excluded : List String → List Component → List String
initially_excluded type_guids components =
    map (λ c. c.id) (keep_where (λ c. has type_guids c.type_guid) components)

unfoldable pub is_kept_wire : List String → Wire → Bool
is_kept_wire excluded w =
    not (has excluded (before_dot w.from)) && not (has excluded (before_dot w.to))

-- `type_guids` is EXCLUDED_TYPE_GUIDS.
unfoldable pub apply_canvas_exclusions :
    List String → List Component → List Wire → List Component × List Wire
unfolding is_kept_wire
apply_canvas_exclusions type_guids components wires =
    let excluded = expand_excluded_ids wires (initially_excluded type_guids components) in
    (keep_where (λ c. not (has excluded c.id)) components, keep_where (is_kept_wire excluded) wires)
