-- ===== src/ToolPolicy/Store.antt =====
-- src/services/tool-policy-store.ts, lines 18 to 139: the settings on disk. A file is what reading and
-- decoding make of it. Work under the lock is one action; `Faults` tells what the
-- disk allows: to look for the marker, to write it, the settings, and a copy of damaged settings. `none`
-- is an error that is thrown.
use hopper_pi.Prelude.{
  suc, String, Bool, true, false, ◌||◌, not, Option, none, some, List, [], ◌∷◌, ◌==◌, nat_eq, any,
  is_none, keep_where, if◌then◌else◌,
}
use hopper_pi.Prelude.Table.{Keyed, get}
use hopper_pi.Prelude.Objects.{assign_all}
use hopper_pi.ToolPolicy.{
  Tool, Plugin, Snapshot, Version, gate_keyed, credential_keyed, max_revision, parent_defaults,
  tool_defaults, credential_defaults, create_policy_defaults,
}
use hopper_pi.ToolPolicy.Updates.{
  Target, parents, tools, Update, accepted, rejected, invalid_update, patch_policy,
  reset_tool_policy,
}

-- `saved` has the decoded settings and whether the decoder migrated them.
pub data File : Type 0 where
  absent unreadable damaged : File
  saved : Snapshot → Bool → File

pub record Store : Type 0 where
  pub settings : File
  pub has_marker : Bool
  pub was_observed : Bool

pub record Faults : Type 0 where
  pub can_look : Bool
  pub can_mark : Bool
  pub can_write : Bool
  pub can_copy : Bool

abbrev pub Act : Type 0 → Type 0
Act A = Store → Option A × Store

unfoldable pub mark : Faults → Store → Bool × Store
mark f s = if s.has_marker || f.can_mark then (true, record s { has_marker = true }) else (false, s)

-- A temporary file is renamed to the settings, or nothing is changed.
unfoldable pub write : Faults → Snapshot → Act Snapshot
write f policy s =
    if f.can_write then (some policy, record s { settings = saved policy false }) else (none, s)

observe : Option Snapshot × Store → Option Snapshot × Store
observe (none, s) = (none, s)
observe (some policy, s) = (some policy, record s { was_observed = true })

module _ {R : Type 0} ⦃t : Keyed R⦄ where
  -- The installed rows that the settings lack.
  unfoldable pub missing : List R → List R → List R
  missing defaults rows = keep_where (λ r. is_none (get (t.key r) rows)) defaults

  is_any : List R → Bool
  is_any [] = false
  is_any (r ∷ rows) = true

-- Settings saved by another version of the program, with what is installed since.
unfoldable pub supplement : List Tool → List Plugin → Snapshot → Snapshot
supplement inventory plugins s = record s {
  revision = suc s.revision;
  tools = assign_all s.tools (missing (tool_defaults (suc s.revision) inventory) s.tools);
  parents = assign_all s.parents (missing (parent_defaults (suc s.revision) plugins) s.parents);
  credentials = assign_all s.credentials (missing (credential_defaults plugins) s.credentials);
}

unfoldable pub is_outdated : List Tool → List Plugin → Snapshot → Bool
unfolding is_any
is_outdated inventory plugins s =
    is_any (missing (tool_defaults 0 inventory) s.tools)
    || is_any (missing (parent_defaults 0 plugins) s.parents)
    || is_any (missing (credential_defaults plugins) s.credentials)

-- `epoch` is the fresh identifier of new settings.
module _ (f : Faults) (epoch : String) (inventory : List Tool) (plugins : List Plugin) where
  unfoldable pub write_defaults : Act Snapshot
  unfolding observe
  write_defaults s = elim (create_policy_defaults epoch inventory plugins) [
    | none ↦ (none, s)
    | some d ↦ observe (write f d s)
  ]

  unfoldable pub initialize : Bool × Store → Option Snapshot × Store
  unfolding write_defaults
  initialize (false, s) = (none, s)
  initialize (true, s) = write_defaults s

  unfoldable pub bring_up : Snapshot → Bool → Bool × Store → Option Snapshot × Store
  bring_up policy migrated (false, s) = (none, s)
  bring_up policy migrated (true, s) =
      if not (migrated || is_outdated inventory plugins policy)
      then (some policy, s)
      else if nat_eq policy.revision max_revision
      then (none, s)
      else write f (supplement inventory plugins policy) s

  unfoldable pub load_file : File → Act Snapshot
  unfolding initialize bring_up
  load_file absent s =
      if s.was_observed || not f.can_look || s.has_marker then (none, s) else initialize (mark f s)
  load_file unreadable s = (none, s)
  load_file damaged s = (none, record s { was_observed = true })
  load_file (saved policy migrated) s =
      bring_up policy migrated (mark f (record s { was_observed = true }))

  unfoldable pub load : Act Snapshot
  unfolding load_file
  load s = load_file s.settings s

  unfoldable pub store_update : Option Update → Act Update
  store_update none s = (none, s)
  store_update (some (rejected c p)) s = (some (rejected c p), s)
  store_update (some (accepted p)) s =
      if f.can_write then (some (accepted p), (write f p s).1) else (none, s)

  unfoldable pub transition_from :
      (Snapshot → Option Update) → Option Snapshot × Store → Option Update × Store
  unfolding store_update
  transition_from change (none, s) = (none, s)
  transition_from change (some policy, s) = store_update (change policy) s

  unfoldable pub transition : (Snapshot → Option Update) → Act Update
  unfolding transition_from
  transition change s = transition_from change (load s)

  -- A toggle of something that is installed.
  unfoldable pub update_installed : Version → Target → String → Bool → Snapshot → Option Update
  update_installed expected parents id is_enabled policy = some (
      if any (λ g. g.id == id) (parent_defaults 0 plugins)
      then patch_policy policy expected parents id is_enabled
      else rejected invalid_update policy)
  update_installed expected tools id is_enabled policy = some (
      if any (λ t. t.id == id) inventory
      then patch_policy policy expected tools id is_enabled
      else rejected invalid_update policy)

  unfoldable pub update : Version → Target → String → Bool → Act Update
  unfolding update_installed
  update expected target id is_enabled = transition (update_installed expected target id is_enabled)

  unfoldable pub reset : Version → Act Update
  reset expected = transition (λ policy. reset_tool_policy policy expected inventory plugins)

  unfoldable pub repair_file : File → Act Snapshot
  unfolding initialize
  repair_file (saved policy migrated) s = (none, s)
  repair_file unreadable s = (none, s)
  repair_file absent s = initialize (mark f s)
  repair_file damaged s = if f.can_copy then initialize (mark f s) else (none, s)

  unfoldable pub repair : Act Snapshot
  unfolding repair_file
  repair s = repair_file s.settings s
