-- ===== src/ToolPolicy/Changes.antt =====
-- The transitions of src/services/tool-policy.ts as one type of changes, and runs of them; a change
-- that throws leaves the policy.
use hopper_pi.Prelude.{ℕ, String, Bool, Option, none, some, List, [], ◌∷◌}
use hopper_pi.ToolPolicy.{Tool, Plugin, Snapshot, Version}
use hopper_pi.ToolPolicy.Updates.{
  Target, Update, snapshot_of, patch_policy, publish_plugin_credential, remove_plugin_credential,
  reset_tool_policy,
}

pub data Change : Type 0 where
  patches : Version → Target → String → Bool → Change
  publishes : Version → ℕ → String → Bool → String → Change
  removes : Version → String → Change
  resets : Version → List Tool → List Plugin → Change

unfoldable pub change : Change → Snapshot → Option Update
change (patches v t id e) s = some (patch_policy s v t id e)
change (publishes v n r e id) s = some (publish_plugin_credential s v n r e id)
change (removes v id) s = some (remove_plugin_credential s v id)
change (resets v inventory plugins) s = reset_tool_policy s v inventory plugins

abbrev pub result_of : Snapshot → Option Update → Snapshot
result_of s none = s
result_of s (some u) = snapshot_of u

unfoldable pub run : List Change → Snapshot → Snapshot
run [] s = s
run (c ∷ cs) s = run cs (result_of s (change c s))
