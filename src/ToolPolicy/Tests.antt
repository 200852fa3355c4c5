-- ===== src/ToolPolicy/Tests.antt =====
-- A policy of two plugins and two tools.
use hopper_pi.Prelude.{
  ℕ, ◌≤◌, String, ◌≡◌, ◌≢◌, refl, true, false, not, none, some, List, [], ◌∷◌, arith, all,
}
use hopper_pi.ToolPolicy.{
  backend, credential, Tool, Plugin, Snapshot, Version, create_policy_defaults, is_valid_inventory,
  tool_defaults, credential_defaults,
}
use hopper_pi.ToolPolicy.Updates.{tools, is_uuid, patch_policy, matches, publish_plugin_credential}
use hopper_pi.ToolPolicy.Changes.{Change, patches, publishes, run, change}
use hopper_pi.ToolPolicy.Access.{
  disabled_by_user, Runtime, configured, Session, permission, check_policy_preflight, is_exposed,
  permission_at, requirement,
}
use hopper_pi.ToolPolicy.Bounds.{IsBounded, run-IsBounded}
use hopper_pi.ToolPolicy.Revoked.{revoked_until_exposed}
use hopper_pi.ToolPolicy.Store.{
  absent, Store, Faults, load, update, reset, transition, mark, write, is_outdated, missing,
}
use hopper_pi.ToolPolicy.Actions.{
  Operation, loads, updates, Action, calls, turns_to, loses, damages, outcomes, settings_after, act,
}
use hopper_pi.ToolPolicy.Lost.{is_lost, lost_settings_deny}
use hopper_pi.ToolPolicy.Kept.{has_later, settings_never_start_over}
use hopper_pi.Prelude.Table.{get, put}
use hopper_pi.Prelude.Objects.{assign_all}

abbrev plugins : List Plugin
plugins =
    record { id = "brave"; default_enabled = false; has_credential = true }
    ∷ record { id = "clock"; default_enabled = true; has_credential = false }
    ∷ []

abbrev bake : Tool
bake = record {
  id = "rhino.bake";
  name = "Bake";
  owner = "hopper";
  parent = "hopper.rhino";
  default_active = true;
  requirements = backend ∷ [];
}

abbrev web : Tool
web = record {
  id = "brave.search";
  name = "Search";
  owner = "brave";
  parent = "brave";
  default_active = false;
  requirements = credential ∷ [];
}

abbrev inventory : List Tool
inventory = bake ∷ web ∷ []

abbrev uuid : String
uuid = "0f8fad5b-d9cb-469f-a165-70867728950e"

abbrev initial : Snapshot
initial = elim (create_policy_defaults "e" inventory plugins) [
  | some s ↦ s
  | none ↦ record { epoch = ""; revision = 0; parents = []; tools = []; credentials = [] }
]

abbrev at_version : ℕ → Version
at_version n = record { epoch = "e"; revision = n }

defaults_exist : create_policy_defaults "e" inventory plugins ≡ some initial
unfolding create_policy_defaults is_valid_inventory
defaults_exist = refl

uuid-is_uuid : is_uuid uuid ≡ true
unfolding is_uuid
uuid-is_uuid = refl

-- The user turns a tool off, publishes a key, and turns the tool on again.
abbrev toggled : List Change
toggled =
    patches (at_version 0) tools "rhino.bake" false
    ∷ publishes (at_version 1) 0 uuid true "brave"
    ∷ patches (at_version 2) tools "rhino.bake" true
    ∷ patches (at_version 2) tools "rhino.bake" false
    ∷ []

abbrev later : Snapshot
unfolding run
later = run toggled initial

toggled_revision : later.revision ≡ 3
unfolding create_policy_defaults run change patch_policy matches publish_plugin_credential get
    is_valid_inventory assign_all tool_defaults credential_defaults put
toggled_revision = refl

initial-IsBounded : IsBounded initial
unfolding create_policy_defaults is_valid_inventory assign_all get tool_defaults credential_defaults
initial-IsBounded = record {
  revision = omega arith;
  parents = refl;
  tools = refl;
  credentials = refl;
}

run-IsBounded_example : IsBounded later
unfolding later run
run-IsBounded_example = run-IsBounded toggled initial initial-IsBounded

abbrev off : Snapshot
off = run (patches (at_version 0) tools "rhino.bake" false ∷ []) initial

-- It was brought up to date at revision 1, when the tool was off.
abbrev old_session : Session
old_session = record { epoch = "e"; applied_revision = 1; active_ids = "rhino.bake" ∷ [] }

off-refuses : permission bake (some off) ≡ some disabled_by_user
unfolding create_policy_defaults run permission permission_at get change patch_policy matches
    is_valid_inventory assign_all tool_defaults put
off-refuses = refl

off_revision : 1 ≤ off.revision
unfolding create_policy_defaults run change patch_policy matches is_valid_inventory get assign_all
    tool_defaults
off_revision = omega arith

revoked_until_exposed_example :
    check_policy_preflight bake
      (some (run (patches (at_version 1) tools "rhino.bake" true ∷ []) off))
      old_session
    ≢ none
revoked_until_exposed_example =
    revoked_until_exposed bake off old_session disabled_by_user
      (patches (at_version 1) tools "rhino.bake" true ∷ []) off-refuses off_revision

abbrev runtime : Runtime
runtime = record {
  has_backend = true;
  has_images = true;
  has_ui = true;
  keys = record { id = "brave"; status = configured; generation = some 1 } ∷ [];
}

web-is_exposed : is_exposed later runtime true ("brave.search" ∷ []) web ≡ true
unfolding create_policy_defaults run is_exposed permission permission_at get change patch_policy
    matches publish_plugin_credential is_valid_inventory assign_all tool_defaults
    credential_defaults put requirement
web-is_exposed = refl

abbrev all_works : Faults
all_works = record { can_look = true; can_mark = true; can_write = true; can_copy = true }

abbrev calling : Operation → Action
calling o = calls (record {
  faults = all_works;
  epoch = "e2";
  inventory = inventory;
  plugins = plugins;
  operation = o;
})

abbrev empty : Store
empty = record { settings = absent; has_marker = false; was_observed = false }

abbrev misfortune : List Action
misfortune =
    calling (updates (at_version 0) tools "rhino.bake" false)
    ∷ loses
    ∷ turns_to false
    ∷ calling loads
    ∷ damages
    ∷ calling (Operation.resets (at_version 1))
    ∷ []

outcomes-misfortune :
    outcomes misfortune (load all_works "e" inventory plugins empty).1
    ≡ true ∷ false ∷ false ∷ false ∷ false ∷ false ∷ []
unfolding outcomes load create_policy_defaults act update reset transition mark is_valid_inventory
    write is_outdated missing tool_defaults get assign_all credential_defaults patch_policy matches
outcomes-misfortune = refl

lost_settings_deny_example :
    (all not (outcomes misfortune (record empty { has_marker = true })) ≡ true)
    × (is_lost (settings_after misfortune (record empty { has_marker = true })) ≡ true)
lost_settings_deny_example = lost_settings_deny misfortune (record empty { has_marker = true }) refl

first_load : (load all_works "e" inventory plugins empty).0 ≡ some initial
unfolding load create_policy_defaults mark is_valid_inventory write
first_load = refl

settings_never_start_over_example :
    has_later initial
      (settings_after misfortune (load all_works "e" inventory plugins empty).1).settings
    ≡ true
settings_never_start_over_example =
    settings_never_start_over all_works "e" inventory plugins empty initial misfortune first_load
