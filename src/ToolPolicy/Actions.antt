-- ===== src/ToolPolicy/Actions.antt =====
-- What happens to the settings on disk (src/services/tool-policy-store.ts): operations of several
-- processes, one at a time under the lock, and what befalls the file from outside.
use hopper_pi.Prelude.{String, Bool, false, Option, List, [], ◌∷◌, is_some}
use hopper_pi.ToolPolicy.{Tool, Plugin, Version}
use hopper_pi.ToolPolicy.Updates.{Target}
use hopper_pi.ToolPolicy.Changes.{Change, change}
use hopper_pi.ToolPolicy.Store.{
  absent, unreadable, damaged, Store, Faults, load, update, reset, transition,
}

-- All but repair.
pub data Operation : Type 0 where
  loads : Operation
  updates : Version → Target → String → Bool → Operation
  resets : Version → Operation
  transitions : Change → Operation

-- A process calls with what is installed there; `epoch` is what randomUUID would give.
pub record Call : Type 0 where
  pub faults : Faults
  pub epoch : String
  pub inventory : List Tool
  pub plugins : List Plugin
  pub operation : Operation

-- `turns_to` is the turn of another process, or of one that was restarted, which has observed the
-- settings or not.
pub data Action : Type 0 where
  calls : Call → Action
  turns_to : Bool → Action
  loses blocks damages : Action

abbrev succeeds : {A : Type 0} → Option A × Store → Bool × Store
succeeds (o, s) = (is_some o, s)

unfoldable pub perform :
    Operation → Faults → String → List Tool → List Plugin → Store → Bool × Store
perform loads f e i ps s = succeeds (load f e i ps s)
perform (updates v t id b) f e i ps s = succeeds (update f e i ps v t id b s)
perform (resets v) f e i ps s = succeeds (reset f e i ps v s)
perform (transitions c) f e i ps s = succeeds (transition f e i ps (change c) s)

unfoldable pub act : Action → Store → Bool × Store
unfolding perform
act (calls c) s = perform c.operation c.faults c.epoch c.inventory c.plugins s
act (turns_to b) s = (false, record s { was_observed = b })
act loses s = (false, record s { settings = absent })
act blocks s = (false, record s { settings = unreadable })
act damages s = (false, record s { settings = damaged })

-- Which of the actions are operations that succeed, and the settings that remain.
unfoldable pub outcomes : List Action → Store → List Bool
outcomes [] s = []
outcomes (a ∷ todo) s = (act a s).0 ∷ outcomes todo (act a s).1

unfoldable pub settings_after : List Action → Store → Store
settings_after [] s = s
settings_after (a ∷ todo) s = settings_after todo (act a s).1
