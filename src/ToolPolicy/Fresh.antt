-- ===== src/ToolPolicy/Fresh.antt =====
-- A session that was just brought up to date (src/services/tool-policy.ts, lines 137 to 213).
use hopper_pi.Prelude.{String, Bool, true, ◌||◌, not, Option, none, some, List, ◌==◌}
use hopper_pi.ToolPolicy.{Tool, gate_keyed, credential_keyed}
use hopper_pi.ToolPolicy.Access.{Status, key_keyed, is_active_status}

abbrev has_id : String → Tool → Bool
has_id k t = t.id == k

abbrev clashes : Tool → Tool → Bool
clashes t x = x.id == t.id || x.name == t.name

-- A status that is not "active".
abbrev is_refusal : Option Status → Bool
is_refusal none = true
is_refusal (some d) = not (is_active_status d)
