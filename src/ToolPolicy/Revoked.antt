-- ===== src/ToolPolicy/Revoked.antt =====
-- A tool that was refused stays refused for the sessions of that time (src/services/tool-policy.ts,
-- lines 67 to 184): its gates are shut for them, whatever happens to the policy.
use hopper_pi.Prelude.{
  ℕ, suc, ◌≤◌, String, ◌≡◌, ◌≢◌, refl, inl, inr, Bool, true, ◌||◌, not, Option, none, some, List,
  [], ◌∷◌, ◌++◌, map, ◌==◌, eq_iff, eq_refl, arith, ltb, all, Option-cases,
}
use hopper_pi.Prelude.Table.{get, put}
use hopper_pi.Prelude.Objects.{assign, assign_all}
use hopper_pi.ToolPolicy.{
  Tool, Plugin, Gate, Credential, Snapshot, Version, gate_keyed, credential_keyed, at_revision,
  builtin_groups, plugin_gate, tool_gate, parent_defaults, tool_defaults,
}
use hopper_pi.ToolPolicy.Updates.{
  Target, parents, tools, snapshot_of, switch, enable_at, patch_policy, publish_at,
  publish_plugin_credential, remove_at, remove_plugin_credential, reset_from,
}
use hopper_pi.ToolPolicy.Changes.{
  Change, patches, publishes, removes, resets, change, result_of, run,
}
use hopper_pi.ToolPolicy.Access.{
  Status, Session, permission_at, permission, exposure, check_policy_preflight,
}
use hopper_pi.ToolPolicy.Bounds.{reset_cases}

-- A gate that is missing, disabled, or enabled after the revision.
abbrev is_shut : ℕ → Option Gate → Bool
is_shut applied none = true
is_shut applied (some g) = not g.is_enabled || ltb applied g.enabled_at

module _ (applied : ℕ) where
  shut-put :
      (j k : String) (f : Gate → Gate) (gs : List Gate)
      → ((g : Gate) → (g.id == k) ≡ true → ((f g).id == k) ≡ true)
      → ((g : Gate) → is_shut applied (some g) ≡ true → is_shut applied (some (f g)) ≡ true)
      → is_shut applied (get j gs) ≡ true
      → is_shut applied (get j (put k f gs)) ≡ true
  unfolding get put
  shut-put j k f [] same keeps h = refl
  shut-put j k f (g ∷ gs) same keeps h = ground (
    arith,
    same g,
    keeps g,
    eq_iff g.id j,
    eq_iff g.id k,
    eq_iff (f g).id j,
    eq_iff (f g).id k,
    shut-put j k f gs same keeps,
  )

  shut-append :
      (j : String) (gs : List Gate) (r : Gate)
      → is_shut applied (some r) ≡ true
      → is_shut applied (get j gs) ≡ true
      → is_shut applied (get j (gs ++ r ∷ [])) ≡ true
  unfolding get
  shut-append j [] r k h = ground arith
  shut-append j (g ∷ gs) r k h = ground (arith, shut-append j gs r)

  shut-assign :
      (j : String) (r : Gate) (gs : List Gate)
      → is_shut applied (some r) ≡ true
      → is_shut applied (get j gs) ≡ true
      → is_shut applied (get j (assign r gs)) ≡ true
  unfolding assign
  shut-assign j r gs k h = ground (
    arith,
    eq_refl r.id,
    shut-append j gs r k h,
    shut-put j r.id (λ x. r) gs (λ g e. eq_refl r.id) (λ g e. k) h,
  )

  shut-assign_all :
      (j : String) (gs news : List Gate)
      → all (λ r. is_shut applied (some r)) news ≡ true
      → is_shut applied (get j gs) ≡ true
      → is_shut applied (get j (assign_all gs news)) ≡ true
  unfolding assign_all
  shut-assign_all j gs [] k h = h
  shut-assign_all j gs (r ∷ news) k h =
      shut-assign_all j (assign r gs) news (ground arith) (shut-assign j r gs (ground arith) h)

  shut-at_revision :
      (n : ℕ) (gs : List Gate)
      → applied ≤ n
      → all (λ r. is_shut applied (some r)) (map (at_revision (suc n)) gs) ≡ true
  shut-at_revision n [] h = refl
  shut-at_revision n (g ∷ gs) h = ground (arith, shut-at_revision n gs h)

  -- The revision, and the gates that are shut for it.
  abbrev IsKept : Snapshot → Snapshot → Type 0
  IsKept s q =
      (s.revision ≤ q.revision)
      × ((j : String)
          → is_shut applied (get j s.tools) ≡ true
          → is_shut applied (get j q.tools) ≡ true)
      × ((j : String)
          → is_shut applied (get j s.parents) ≡ true
          → is_shut applied (get j q.parents) ≡ true)

  kept : (s : Snapshot) → IsKept s s
  kept s = (omega arith, λ j h. h, λ j h. h)

  patch_policy-keeps :
      (s : Snapshot) (v : Version) (t : Target) (id : String) (b : Bool)
      → applied ≤ s.revision
      → IsKept s (snapshot_of (patch_policy s v t id b))
  unfolding patch_policy
  patch_policy-keeps s v parents id b l = (
    ground arith,
    λ j h. ground arith,
    λ j h. ground (
      arith,
      shut-put j id (switch (suc s.revision) b) s.parents (λ g e. e) (λ g e. ground arith) h,
    ),
  )
  patch_policy-keeps s v tools id b l = (
    ground arith,
    λ j h. ground (
      arith,
      shut-put j id (switch (suc s.revision) b) s.tools (λ g e. e) (λ g e. ground arith) h,
    ),
    λ j h. ground arith,
  )

  publish_at-keeps :
      (x : Option Credential) (g : Option Gate) (s : Snapshot) (v : Version) (n : ℕ) (r : String)
      (b : Bool) (id : String)
      → applied ≤ s.revision
      → IsKept s (snapshot_of (publish_at x g s v n r b id))
  unfolding publish_at
  publish_at-keeps none g s v n r b id l = kept s
  publish_at-keeps (some c) none s v n r b id l = kept s
  publish_at-keeps (some c) (some g) s v n r b id l = (
    ground arith,
    λ j h. ground arith,
    λ j h. ground (
      arith,
      shut-put j id (enable_at (suc s.revision)) s.parents (λ g e. ground arith)
          (λ g e. ground arith) h,
    ),
  )

  remove_at-keeps :
      (x : Option Credential) (s : Snapshot) (v : Version) (id : String)
      → IsKept s (snapshot_of (remove_at x s v id))
  unfolding remove_at
  remove_at-keeps none s v id = kept s
  remove_at-keeps (some c) s v id = (ground arith, λ j h. ground arith, λ j h. ground arith)

  reset_from-keeps :
      (s : Snapshot) (inventory : List Tool) (plugins : List Plugin)
      → applied ≤ s.revision
      → IsKept s (reset_from s inventory plugins)
  unfolding reset_from parent_defaults tool_defaults
  reset_from-keeps s inventory plugins l = (
    omega arith,
    λ j h.
        shut-assign_all j s.tools (map (at_revision (suc s.revision)) (map tool_gate inventory))
          (shut-at_revision s.revision (map tool_gate inventory) l) h,
    λ j h.
        shut-assign_all j s.parents
          (map (at_revision (suc s.revision)) (builtin_groups ++ map plugin_gate plugins))
          (shut-at_revision s.revision (builtin_groups ++ map plugin_gate plugins) l) h,
  )

  change-keeps :
      (c : Change) (s : Snapshot) → applied ≤ s.revision → IsKept s (result_of s (change c s))
  unfolding change publish_plugin_credential remove_plugin_credential
  change-keeps (patches v t id b) s l = patch_policy-keeps s v t id b l
  change-keeps (publishes v n r b id) s l =
      publish_at-keeps (get id s.credentials) (get id s.parents) s v n r b id l
  change-keeps (removes v id) s l = remove_at-keeps (get id s.credentials) s v id
  change-keeps (resets v inventory plugins) s l = elim (reset_cases s v inventory plugins) [
    | inl e ↦ rw e (kept s)
    | inr (e, n, c) ↦ rw e (reset_from-keeps s inventory plugins l)
  ]

  run-keeps : (cs : List Change) (s : Snapshot) → applied ≤ s.revision → IsKept s (run cs s)
  unfolding run
  run-keeps [] s l = kept s
  run-keeps (c ∷ cs) s l =
      let (m, k1, k2) = change-keeps c s l in
      let (n, k3, k4) = run-keeps cs (result_of s (change c s)) (omega (arith, m)) in
      (omega (arith, m, n), λ j h. k3 j (k1 j h), λ j h. k4 j (k2 j h))

-- A tool without permission has a gate that is shut, and a shut gate stops a call.
denied_is_shut :
    (applied : ℕ) (tool : Tool) (s : Snapshot) (d : Status)
    → permission tool (some s) ≡ some d
    → (is_shut applied (get tool.id s.tools) || is_shut applied (get tool.parent s.parents)) ≡ true
unfolding permission permission_at
denied_is_shut applied tool s d h = elim (Option-cases (get tool.id s.tools)) [
  | inl e ↦ ground arith
  | inr (g, e) ↦ elim (Option-cases (get tool.parent s.parents)) [
    | inl e2 ↦ ground arith
    | inr (p, e2) ↦ ground arith
  ]
]

shut_is_denied :
    (tool : Tool) (s : Snapshot) (session : Session)
    → (is_shut session.applied_revision (get tool.id s.tools)
        || is_shut session.applied_revision (get tool.parent s.parents))
      ≡ true
    → check_policy_preflight tool (some s) session ≢ none
unfolding check_policy_preflight permission permission_at exposure
shut_is_denied tool s session h = elim (Option-cases (get tool.id s.tools)) [
  | inl e ↦ ground arith
  | inr (g, e) ↦ elim (Option-cases (get tool.parent s.parents)) [
    | inl e2 ↦ ground arith
    | inr (p, e2) ↦ ground arith
  ]
]

-- A session that was last brought up to date when the policy refused a tool, or earlier, cannot call that tool
-- after any changes of the policy, accepted or not, even if they enable the tool and its parent again.
pub revoked_until_exposed :
    (tool : Tool) (p : Snapshot) (session : Session) (d : Status) (cs : List Change)
    → permission tool (some p) ≡ some d
    → session.applied_revision ≤ p.revision
    → check_policy_preflight tool (some (run cs p)) session ≢ none
revoked_until_exposed tool p session d cs h l =
    let (m, k1, k2) = run-keeps session.applied_revision cs p l in
    shut_is_denied tool (run cs p) session (
      ground
        (arith, denied_is_shut session.applied_revision tool p d h, k1 tool.id, k2 tool.parent))
