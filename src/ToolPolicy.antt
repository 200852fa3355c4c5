-- ===== src/ToolPolicy.antt =====
-- src/services/tool-policy.ts: which tools the user allows, as versioned snapshots, and what a session
-- may call. An object with identifiers as keys is a list of rows in the order of the keys' insertion;
-- `installed` stands for the plugins, whose list is the caller's.
pub mod Updates
pub mod Access
pub mod Changes
pub mod Store
pub mod Bounds
pub mod Revoked
pub mod Actions
pub mod Fresh
pub mod Lost
pub mod Kept
mod Tests
use Prim.Native.Char.{code}
use Prim.Native.String.{◌∷◌}
use hopper_pi.Prelude.{
  ℕ, String, Bool, true, false, ◌&&◌, ◌||◌, not, Option, none, some, List, [], ◌∷◌, ◌++◌, map, ◌==◌,
  leb, nat_eq, any, keep_where, is_some, if◌then◌else◌,
}
use hopper_pi.Prelude.Table.{Keyed}
use hopper_pi.Prelude.Objects.{assign_all}

pub data Requirement : Type 0 where
  backend images ui credential : Requirement

-- ToolPolicyDescriptor
pub record Tool : Type 0 where
  pub id : String
  pub name : String
  pub owner : String
  pub parent : String
  pub default_active : Bool
  pub requirements : List Requirement

-- What the policy reads of a ToolPlugin.
pub record Plugin : Type 0 where
  pub id : String
  pub default_enabled : Bool
  pub has_credential : Bool

pub record Gate : Type 0 where
  pub id : String
  pub is_enabled : Bool
  pub enabled_at : ℕ

pub record Credential : Type 0 where
  pub id : String
  pub generation : ℕ
  pub reference : Option String

pub record Snapshot : Type 0 where
  pub epoch : String
  pub revision : ℕ
  pub parents : List Gate
  pub tools : List Gate
  pub credentials : List Credential

pub record Version : Type 0 where
  pub epoch : String
  pub revision : ℕ

instance abbrev pub gate_keyed : Keyed Gate
gate_keyed = record { key = λ g. g.id }

instance abbrev pub credential_keyed : Keyed Credential
credential_keyed = record { key = λ c. c.id }

-- Number.MAX_SAFE_INTEGER
abbrev pub max_revision : ℕ
max_revision = 9007199254740991

abbrev pub builtin_groups : List Gate
builtin_groups =
    record { id = "hopper.rhino"; is_enabled = true; enabled_at = 0 }
    ∷ record { id = "hopper.grasshopper"; is_enabled = true; enabled_at = 0 }
    ∷ record { id = "hopper.interaction"; is_enabled = true; enabled_at = 0 }
    ∷ record { id = "hopper.skills"; is_enabled = true; enabled_at = 0 }
    ∷ []

abbrev pub at_revision : ℕ → Gate → Gate
at_revision at g = record g { enabled_at = at }

abbrev pub plugin_gate : Plugin → Gate
plugin_gate p = record { id = p.id; is_enabled = p.default_enabled; enabled_at = 0 }

abbrev pub tool_gate : Tool → Gate
tool_gate t = record { id = t.id; is_enabled = true; enabled_at = 0 }

abbrev new_credential : Plugin → Credential
new_credential p = record { id = p.id; generation = 0; reference = none }

-- parentDefaults, each with the revision it is enabled at.
unfoldable pub parent_defaults : ℕ → List Plugin → List Gate
parent_defaults at plugins = map (at_revision at) (builtin_groups ++ map plugin_gate plugins)

unfoldable pub tool_defaults : ℕ → List Tool → List Gate
tool_defaults at inventory = map (at_revision at) (map tool_gate inventory)

unfoldable pub credential_defaults : List Plugin → List Credential
credential_defaults plugins = map new_credential (keep_where (λ p. p.has_credential) plugins)

is_lower : ℕ → Bool
is_lower c = leb b'a' c && leb c b'z'

is_id_char : ℕ → Bool
unfolding is_lower
is_id_char c =
    is_lower c || (leb b'0' c && leb c b'9') || nat_eq c b'_' || nat_eq c b'.' || nat_eq c b'-'

all_id_chars : String → Bool
unfolding is_id_char
all_id_chars String.[] = true
all_id_chars (c ∷ rest) = is_id_char (code c) && all_id_chars rest

-- /^[a-z][a-z0-9_.-]*$/
unfoldable pub is_tool_id : String → Bool
unfolding is_lower all_id_chars
is_tool_id String.[] = false
is_tool_id (c ∷ rest) = is_lower (code c) && all_id_chars rest

is_registrable : List Plugin → Tool → Bool
unfolding is_tool_id parent_defaults
is_registrable plugins t =
    is_tool_id t.id
    && not (t.id == "constructor")
    && not (t.id == "prototype")
    && not (t.name == "")
    && not (t.owner == "")
    && any (λ g. g.id == t.parent) (parent_defaults 0 plugins)

-- Whether assertPolicyInventory returns; the tools seen before come first.
unfoldable pub is_distinct : List Tool → List Tool → Bool
is_distinct seen [] = true
is_distinct seen (t ∷ rest) =
    not (any (λ x. x.id == t.id || x.name == t.name) seen) && is_distinct (t ∷ seen) rest

unfoldable pub is_valid_inventory : List Tool → List Plugin → Bool
unfolding is_registrable is_distinct
is_valid_inventory inventory plugins =
    not (any (λ t. not (is_registrable plugins t)) inventory) && is_distinct [] inventory

-- `none` where createPolicyDefaults throws.
unfoldable pub create_policy_defaults : String → List Tool → List Plugin → Option Snapshot
create_policy_defaults epoch inventory plugins =
    if not (epoch == "") && is_valid_inventory inventory plugins
    then some (record {
      epoch = epoch;
      revision = 0;
      parents = assign_all [] (parent_defaults 0 plugins);
      tools = assign_all [] (tool_defaults 0 inventory);
      credentials = assign_all [] (credential_defaults plugins);
    })
    else none
