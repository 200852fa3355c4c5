-- ===== src/ToolPolicy/Access.antt =====
-- src/services/tool-policy.ts, lines 137 to 213: what a session may call under a policy.
use hopper_pi.Prelude.{
  ℕ, String, Bool, true, false, ◌&&◌, ◌||◌, not, Option, none, some, List, [], ◌∷◌, map, ◌==◌, ltb,
  nat_eq, any, is_some, is_none, keep_where, if◌then◌else◌,
}
use hopper_pi.Prelude.Table.{Keyed, get}
use hopper_pi.ToolPolicy.{
  Requirement, backend, images, ui, credential, Tool, Gate, Credential, Snapshot, gate_keyed,
  credential_keyed,
}

pub data Status : Type 0 where
  disabled_by_user parent_disabled api_key_required images_required backend_unavailable : Status
  ui_unavailable settings_unavailable credential_store_unavailable available_on_demand : Status
  activation_required active pending_exposure : Status

pub data KeyStatus : Type 0 where
  configured missing unavailable : KeyStatus

pub record Key : Type 0 where
  pub id : String
  pub status : KeyStatus
  pub generation : Option ℕ

instance abbrev pub key_keyed : Keyed Key
key_keyed = record { key = λ k. k.id }

-- PolicyRuntime
pub record Runtime : Type 0 where
  pub has_backend : Bool
  pub has_images : Bool
  pub has_ui : Bool
  pub keys : List Key

-- PolicySession
pub record Session : Type 0 where
  pub epoch : String
  pub applied_revision : ℕ
  pub active_ids : List String

abbrev pub is_active : String → Session → Bool
is_active id s = any (λ k. k == id) s.active_ids

unfoldable pub permission_at : Option Gate → Option Gate → Option Status
permission_at none parent = some settings_unavailable
permission_at (some g) none = some settings_unavailable
permission_at (some g) (some p) =
    if not g.is_enabled
    then some disabled_by_user
    else if not p.is_enabled
    then some parent_disabled
    else none

unfoldable pub permission : Tool → Option Snapshot → Option Status
permission tool none = some settings_unavailable
permission tool (some policy) =
    permission_at (get tool.id policy.tools) (get tool.parent policy.parents)

has_reference : Option Credential → Bool
has_reference none = false
has_reference (some c) = elim c.reference [ none ↦ false | some r ↦ not (r == "") ]

is_missing : Option Key → Bool
is_missing none = false
is_missing (some k) = elim k.status [ missing ↦ true | _ ↦ false ]

same_generation : Option ℕ → ℕ → Bool
same_generation none n = false
same_generation (some m) n = nat_eq m n

is_usable : Option Key → Option Credential → Bool
unfolding same_generation
is_usable none c = false
is_usable (some k) none = false
is_usable (some k) (some c) =
    elim k.status [ configured ↦ true | _ ↦ false ] && same_generation k.generation c.generation

unfoldable pub key_gate : Option Credential → Option Key → Option Status
unfolding has_reference is_missing is_usable
key_gate saved key =
    if not (has_reference saved) || is_missing key
    then some api_key_required
    else if not (is_usable key saved)
    then some credential_store_unavailable
    else none

unfoldable pub gate_status : Requirement → Tool → Snapshot → Runtime → Option Status
unfolding key_gate
gate_status backend tool policy runtime =
    if runtime.has_backend then none else some backend_unavailable
gate_status images tool policy runtime = if runtime.has_images then none else some images_required
gate_status ui tool policy runtime = if runtime.has_ui then none else some ui_unavailable
gate_status credential tool policy runtime =
    key_gate (get tool.owner policy.credentials) (get tool.owner runtime.keys)

-- The first gate that is not met.
unfoldable pub first_unmet : List Requirement → Tool → Snapshot → Runtime → Option Status
unfolding gate_status
first_unmet [] tool policy runtime = none
first_unmet (gate ∷ rest) tool policy runtime = elim (gate_status gate tool policy runtime) [
  | some status ↦ some status
  | none ↦ first_unmet rest tool policy runtime
]

unfoldable pub requirement : Tool → Snapshot → Runtime → Option Status
unfolding first_unmet
requirement tool policy runtime = first_unmet tool.requirements tool policy runtime

-- The revision a gate is enabled at, which the permission has found.
abbrev pub enabled_at_of : Option Gate → ℕ
enabled_at_of none = 0
enabled_at_of (some g) = g.enabled_at

unfoldable pub exposure : Tool → Snapshot → Session → Option Status
exposure tool policy session =
    if not (session.epoch == policy.epoch) || ltb policy.revision session.applied_revision
    then some settings_unavailable
    else if ltb session.applied_revision (enabled_at_of (get tool.id policy.tools))
        || ltb session.applied_revision (enabled_at_of (get tool.parent policy.parents))
    then some pending_exposure
    else if not (is_active tool.id session)
    then some activation_required
    else none

unfoldable pub check_policy_preflight : Tool → Option Snapshot → Session → Option Status
unfolding exposure
check_policy_preflight tool none session = some settings_unavailable
check_policy_preflight tool (some policy) session = elim (permission tool (some policy)) [
  | some denied ↦ some denied
  | none ↦ exposure tool policy session
]

pub record ToolState : Type 0 where
  pub enabled : Bool
  pub available : Bool
  pub active : Bool
  pub callable : Bool
  pub status : Status

unfoldable pub on_demand : Bool → Status → Status
on_demand discovery activation_required =
    if discovery then available_on_demand else activation_required
on_demand discovery status = status

unfoldable pub is_active_status : Status → Bool
is_active_status active = true
is_active_status _ = false

is_unavailable : Option Status → Bool
is_unavailable (some settings_unavailable) = true
is_unavailable _ = false

-- denied ?? missing ?? exposure ?? "active"
unfoldable pub status_of : Option Status → Option Status → Option Status → Bool → Status
unfolding on_demand
status_of (some denied) unmet exposed discovery = denied
status_of none (some status) exposed discovery = status
status_of none none (some status) discovery = on_demand discovery status
status_of none none none discovery = active

abbrev unmet_of : Tool → Option Snapshot → Runtime → Option Status
unmet_of tool none runtime = none
unmet_of tool (some policy) runtime = requirement tool policy runtime

unfoldable pub resolve_tool_policy : Tool → Option Snapshot → Runtime → Session → Bool → ToolState
unfolding status_of is_active_status is_unavailable
resolve_tool_policy tool policy runtime session discovery =
    let denied = permission tool policy in
    let status =
      status_of denied (unmet_of tool policy runtime) (check_policy_preflight tool policy session)
        discovery in
    record {
      enabled = is_none denied;
      available =
          is_some policy && not (is_unavailable denied) && is_none (unmet_of tool policy runtime);
      active = is_active tool.id session;
      callable = is_active_status status;
      status = status;
    }

unfoldable pub is_exposed : Snapshot → Runtime → Bool → List String → Tool → Bool
is_exposed policy runtime progressive manual tool =
    is_none (permission tool (some policy))
    && is_none (requirement tool policy runtime)
    && (not progressive || tool.default_active || any (λ k. k == tool.id) manual)

unfoldable pub reconcile_policy_session :
    List Tool → Snapshot → Runtime → Bool → List String → Session
reconcile_policy_session inventory policy runtime progressive manual = record {
  epoch = policy.epoch;
  applied_revision = policy.revision;
  active_ids =
      map (λ t. t.id) (keep_where (is_exposed policy runtime progressive manual) inventory);
}
