-- ===== src/ToolPolicy/Updates.antt =====
-- src/services/tool-policy.ts, lines 62 to 135: the transitions of a policy.
use Prim.Native.Char.{code}
use Prim.Native.String.{◌∷◌}
use hopper_pi.Prelude.{
  ℕ, zero, suc, String, Bool, true, false, ◌&&◌, ◌||◌, not, Option, none, some, List, [], ◌∷◌, map,
  ◌==◌, leb, nat_eq, any, is_none, if◌then◌else◌,
}
use hopper_pi.Prelude.Table.{get, put}
use hopper_pi.Prelude.Objects.{assign_all}
use hopper_pi.ToolPolicy.{
  Tool, Plugin, Gate, Credential, Snapshot, Version, gate_keyed, credential_keyed, max_revision,
  parent_defaults, tool_defaults, credential_defaults, create_policy_defaults,
}

pub data Target : Type 0 where
  parents tools : Target

pub data Code : Type 0 where
  conflict invalid_update : Code

pub data Update : Type 0 where
  accepted : Snapshot → Update
  rejected : Code → Snapshot → Update

abbrev pub snapshot_of : Update → Snapshot
snapshot_of (accepted s) = s
snapshot_of (rejected c s) = s

unfoldable pub matches : Snapshot → Version → Bool
matches current expected =
    current.epoch == expected.epoch && nat_eq current.revision expected.revision

abbrev pub gates_of : Target → Snapshot → List Gate
gates_of parents s = s.parents
gates_of tools s = s.tools

abbrev pub set_gates : Target → (List Gate → List Gate) → Snapshot → Snapshot
set_gates parents f s = record s { parents = f s.parents }
set_gates tools f s = record s { tools = f s.tools }

abbrev pub switch : ℕ → Bool → Gate → Gate
switch revision is_enabled g = record g {
  enabled_at = if is_enabled && not g.is_enabled then revision else g.enabled_at;
  is_enabled = is_enabled;
}

unfoldable pub patch_policy : Snapshot → Version → Target → String → Bool → Update
patch_policy current expected target id is_enabled =
    if not (matches current expected)
    then rejected conflict current
    else if is_none (get id (gates_of target current)) || nat_eq current.revision max_revision
    then rejected invalid_update current
    else accepted (
        set_gates target (put id (switch (suc current.revision) is_enabled))
          (record current { revision = suc current.revision }))

is_hex : ℕ → Bool
is_hex c = (leb b'0' c && leb c b'9') || (leb b'a' c && leb c b'f') || (leb b'A' c && leb c b'F')

-- `n` hexadecimal digits, then, for each further group, a dash and its digits.
hex_groups : ℕ → List ℕ → String → Bool
unfolding is_hex
hex_groups zero [] String.[] = true
hex_groups zero [] (c ∷ rest) = false
hex_groups zero (n ∷ ns) String.[] = false
hex_groups zero (n ∷ ns) (c ∷ rest) = nat_eq (code c) b'-' && hex_groups n ns rest
hex_groups (suc n) ns String.[] = false
hex_groups (suc n) ns (c ∷ rest) = is_hex (code c) && hex_groups n ns rest

-- /^[0-9a-f]{8}-[0-9a-f]{4}-[0-9a-f]{4}-[0-9a-f]{4}-[0-9a-f]{12}$/i
unfoldable pub is_uuid : String → Bool
unfolding hex_groups
is_uuid text = hex_groups 8 (4 ∷ 4 ∷ 4 ∷ 12 ∷ []) text

is_reference : String → Option String → Bool
is_reference text none = false
is_reference text (some r) = r == text

abbrev pub enable_at : ℕ → Gate → Gate
enable_at revision g =
    if g.is_enabled then g else record g { is_enabled = true; enabled_at = revision }

abbrev pub with_credential : ℕ → Option String → Credential → Credential
with_credential generation reference c = record c { generation = generation; reference = reference }

-- The credential and the gate of the plugin, where the policy has them.
unfoldable pub publish_at :
    Option Credential → Option Gate → Snapshot → Version → ℕ → String → Bool → String → Update
unfolding is_uuid is_reference
publish_at none gate current expected generation reference enable plugin_id =
    rejected invalid_update current
publish_at (some c) none current expected generation reference enable plugin_id =
    rejected invalid_update current
publish_at (some c) (some g) current expected generation reference enable plugin_id =
    if not (matches current expected) || not (nat_eq c.generation generation)
    then rejected conflict current
    else if not (is_uuid reference)
        || is_reference reference c.reference
        || nat_eq current.revision max_revision
        || nat_eq generation max_revision
    then rejected invalid_update current
    else accepted (record current {
      revision = suc current.revision;
      credentials =
          put plugin_id (with_credential (suc generation) (some reference)) current.credentials;
      parents =
          if enable
          then put plugin_id (enable_at (suc current.revision)) current.parents
          else current.parents;
    })

unfoldable pub publish_plugin_credential : Snapshot → Version → ℕ → String → Bool → String → Update
unfolding publish_at
publish_plugin_credential current expected generation reference enable plugin_id =
    publish_at (get plugin_id current.credentials) (get plugin_id current.parents) current expected
      generation reference enable plugin_id

unfoldable pub remove_at : Option Credential → Snapshot → Version → String → Update
remove_at none current expected plugin_id = rejected invalid_update current
remove_at (some c) current expected plugin_id =
    if not (matches current expected)
    then rejected conflict current
    else if nat_eq current.revision max_revision || nat_eq c.generation max_revision
    then rejected invalid_update current
    else accepted (record current {
      revision = suc current.revision;
      credentials = put plugin_id (with_credential (suc c.generation) none) current.credentials;
    })

unfoldable pub remove_plugin_credential : Snapshot → Version → String → Update
unfolding remove_at
remove_plugin_credential current expected plugin_id =
    remove_at (get plugin_id current.credentials) current expected plugin_id

abbrev pub tombstone : Credential → Credential
tombstone c = record c { generation = suc c.generation; reference = none }

unfoldable pub reset_from : Snapshot → List Tool → List Plugin → Snapshot
reset_from current inventory plugins = record {
  epoch = current.epoch;
  revision = suc current.revision;
  parents = assign_all current.parents (parent_defaults (suc current.revision) plugins);
  tools = assign_all current.tools (tool_defaults (suc current.revision) inventory);
  credentials =
      assign_all (assign_all [] (credential_defaults plugins)) (map tombstone current.credentials);
}

-- `none` where the defaults throw.
unfoldable pub reset_tool_policy : Snapshot → Version → List Tool → List Plugin → Option Update
reset_tool_policy current expected inventory plugins =
    if not (matches current expected)
    then some (rejected conflict current)
    else if nat_eq current.revision max_revision
        || any (λ c. nat_eq c.generation max_revision) current.credentials
    then some (rejected invalid_update current)
    else elim (create_policy_defaults current.epoch inventory plugins) [
      | none ↦ none
      | some d ↦ some (accepted (reset_from current inventory plugins))
    ]
