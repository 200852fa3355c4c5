-- ===== src/ToolPolicy/Lost.antt =====
-- Settings that are lost or damaged (src/services/tool-policy-store.ts).
use hopper_pi.Prelude.{
  String, ◌≡◌, refl, ap, Bool, true, false, ◌&&◌, not, Option, none, some, List, [], ◌∷◌, arith,
  all, is_some,
}
use hopper_pi.ToolPolicy.{Tool, Plugin, Snapshot}
use hopper_pi.ToolPolicy.Updates.{Update, reset_tool_policy}
use hopper_pi.ToolPolicy.Changes.{change}
use hopper_pi.ToolPolicy.Store.{
  File, absent, unreadable, damaged, saved, Store, Faults, load_file, load, transition_from,
  transition, update_installed, update, reset,
}
use hopper_pi.ToolPolicy.Actions.{
  Operation, loads, updates, transitions, Action, calls, turns_to, loses, blocks, damages, perform,
  act, outcomes, settings_after,
}

abbrev pub is_saved : File → Bool
is_saved (saved p m) = true
is_saved _ = false

-- Settings that were initialized once, and are not there to be read.
abbrev pub is_lost : Store → Bool
is_lost s = s.has_marker && not (is_saved s.settings)

-- A file that is not there to be read stops `load`, and stays.
load_file-denied :
    (f : Faults) (e : String) (i : List Tool) (ps : List Plugin) (x : File) (s : Store)
    → s.settings ≡ x
    → is_lost s ≡ true
    → ((load_file f e i ps x s).0 ≡ none) × (is_lost (load_file f e i ps x s).1 ≡ true)
unfolding load_file
load_file-denied f e i ps absent s q h = (ground arith, ground arith)
load_file-denied f e i ps unreadable s q h = (refl, h)
load_file-denied f e i ps damaged s q h = (refl, h)
load_file-denied f e i ps (saved p m) s q h = ground (arith, ap is_saved q)

transition_from-denied :
    (f : Faults) (e : String) (i : List Tool) (ps : List Plugin) (g : Snapshot → Option Update)
    (o : Option Snapshot × Store)
    → (o.0 ≡ none) × (is_lost o.1 ≡ true)
    → (is_some (transition_from f e i ps g o).0 ≡ false)
      × (is_lost (transition_from f e i ps g o).1 ≡ true)
unfolding transition_from
transition_from-denied f e i ps g (none, s) (h, l) = (refl, l)
transition_from-denied f e i ps g (some p, s) (h, l) = ground arith

transition-denied :
    (f : Faults) (e : String) (i : List Tool) (ps : List Plugin) (g : Snapshot → Option Update)
    (s : Store)
    → is_lost s ≡ true
    → (is_some (transition f e i ps g s).0 ≡ false) × (is_lost (transition f e i ps g s).1 ≡ true)
unfolding transition load
transition-denied f e i ps g s l =
    transition_from-denied f e i ps g (load f e i ps s)
      (load_file-denied f e i ps s.settings s refl l)

perform-denied :
    (o : Operation) (f : Faults) (e : String) (i : List Tool) (ps : List Plugin) (s : Store)
    → is_lost s ≡ true
    → ((perform o f e i ps s).0 ≡ false) × (is_lost (perform o f e i ps s).1 ≡ true)
unfolding perform load update reset
perform-denied loads f e i ps s l =
    let (h, k) = load_file-denied f e i ps s.settings s refl l in (ground (arith, h), k)
perform-denied (updates v t id b) f e i ps s l =
    transition-denied f e i ps (update_installed f e i ps v t id b) s l
perform-denied (Operation.resets v) f e i ps s l =
    transition-denied f e i ps (λ policy. reset_tool_policy policy v i ps) s l
perform-denied (transitions c) f e i ps s l = transition-denied f e i ps (change c) s l

act-denied :
    (a : Action) (s : Store)
    → is_lost s ≡ true
    → ((act a s).0 ≡ false) × (is_lost (act a s).1 ≡ true)
unfolding act
act-denied (calls c) s l = perform-denied c.operation c.faults c.epoch c.inventory c.plugins s l
act-denied (turns_to b) s l = (refl, l)
act-denied loses s l = (refl, ground arith)
act-denied blocks s l = (refl, ground arith)
act-denied damages s l = (refl, ground arith)

-- Once settings were initialized and are then missing, unreadable or damaged, every load, update, reset and
-- other transition, of any process, fails until they are repaired, and none of them makes settings
-- anew.
pub lost_settings_deny :
    (todo : List Action) (s : Store)
    → is_lost s ≡ true
    → (all not (outcomes todo s) ≡ true) × (is_lost (settings_after todo s) ≡ true)
unfolding outcomes settings_after
lost_settings_deny [] s l = (refl, l)
lost_settings_deny (a ∷ todo) s l =
    let (h, k) = act-denied a s l in
    let (h2, k2) = lost_settings_deny todo (act a s).1 k in (ground (arith, h, h2), k2)
