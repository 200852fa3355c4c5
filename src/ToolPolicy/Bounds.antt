-- ===== src/ToolPolicy/Bounds.antt =====
-- Revisions and generations (src/services/tool-policy.ts) stay numbers that JavaScript counts with
-- exactly, and no gate is enabled at a revision that is still to come.
use hopper_pi.Prelude.{
  ℕ, suc, ◌≤◌, String, ◌≡◌, refl, inl, inr, ◌⊎◌, Bool, true, false, ◌||◌, Option, none, some, List,
  [], ◌∷◌, ◌++◌, map, arith, leb, nat_eq, any, all, all-append, all_weaker, if◌then◌else◌,
  Option-cases, Bool-cases,
}
use hopper_pi.Prelude.Table.{Keyed, get, put, all-put, all-get}
use hopper_pi.Prelude.Objects.{assign, assign_all}
use hopper_pi.ToolPolicy.{
  Tool, Plugin, Gate, Credential, Snapshot, Version, gate_keyed, credential_keyed, max_revision,
  at_revision, builtin_groups, plugin_gate, tool_gate, parent_defaults, tool_defaults,
  credential_defaults, create_policy_defaults,
}
use hopper_pi.ToolPolicy.Updates.{
  Target, parents, tools, snapshot_of, matches, switch, enable_at, with_credential, tombstone,
  patch_policy, publish_at, publish_plugin_credential, remove_at, remove_plugin_credential,
  reset_from, reset_tool_policy,
}
use hopper_pi.ToolPolicy.Changes.{
  Change, patches, publishes, removes, resets, change, result_of, run,
}

abbrev pub is_past : ℕ → Gate → Bool
is_past revision g = leb g.enabled_at revision

abbrev pub is_countable : Credential → Bool
is_countable c = leb c.generation max_revision

pub record IsBounded (s : Snapshot) : Type 0 where
  pub revision : s.revision ≤ max_revision
  pub parents : all (is_past s.revision) s.parents ≡ true
  pub tools : all (is_past s.revision) s.tools ≡ true
  pub credentials : all is_countable s.credentials ≡ true

module _ {R : Type 0} ⦃t : Keyed R⦄ where
  all-assign :
      (p : R → Bool) (r : R) (rows : List R)
      → all p rows ≡ true
      → p r ≡ true
      → all p (assign r rows) ≡ true
  unfolding assign
  all-assign p r rows h k =
      ground (arith, all-put p (t.key r) (λ x. r) rows (λ x e q. k) h, all-append p rows (r ∷ []))

  pub all-assign_all :
      (p : R → Bool) (rows news : List R)
      → all p rows ≡ true
      → all p news ≡ true
      → all p (assign_all rows news) ≡ true
  unfolding assign_all
  all-assign_all p rows [] h k = h
  all-assign_all p rows (r ∷ news) h k =
      all-assign_all p (assign r rows) news (all-assign p r rows h (ground arith)) (ground arith)

later : (n : ℕ) (gs : List Gate) → all (is_past n) gs ≡ true → all (is_past (suc n)) gs ≡ true
later n gs h = all_weaker (is_past n) (is_past (suc n)) gs (λ g e. ground arith) h

all-at_revision : (n : ℕ) (gs : List Gate) → all (is_past n) (map (at_revision n) gs) ≡ true
all-at_revision n [] = refl
all-at_revision n (g ∷ gs) = ground (arith, all-at_revision n gs)

all-tombstone :
    (cs : List Credential)
    → all is_countable cs ≡ true
    → any (λ c. nat_eq c.generation max_revision) cs ≡ false
    → all is_countable (map tombstone cs) ≡ true
all-tombstone [] h n = refl
all-tombstone (c ∷ cs) h n = ground (arith, all-tombstone cs)

defaults_countable : (ps : List Plugin) → all is_countable (credential_defaults ps) ≡ true
unfolding credential_defaults
defaults_countable [] = refl
defaults_countable (p ∷ ps) = ground (arith, defaults_countable ps)

switched :
    (n : ℕ) (b : Bool) (id : String) (gs : List Gate)
    → all (is_past n) gs ≡ true
    → all (is_past (suc n)) (put id (switch (suc n) b) gs) ≡ true
switched n b id gs h =
    all-put (is_past (suc n)) id (switch (suc n) b) gs (λ g e q. ground arith) (later n gs h)

patch_policy-IsBounded :
    (s : Snapshot) (v : Version) (t : Target) (id : String) (b : Bool)
    → IsBounded s
    → IsBounded (snapshot_of (patch_policy s v t id b))
unfolding patch_policy
patch_policy-IsBounded s v parents id b h = record {
  revision = ground (arith, h.revision);
  parents = ground (arith, h.parents, switched s.revision b id s.parents h.parents);
  tools = ground (arith, h.tools, later s.revision s.tools h.tools);
  credentials = ground (arith, h.credentials);
}
patch_policy-IsBounded s v tools id b h = record {
  revision = ground (arith, h.revision);
  parents = ground (arith, h.parents, later s.revision s.parents h.parents);
  tools = ground (arith, h.tools, switched s.revision b id s.tools h.tools);
  credentials = ground (arith, h.credentials);
}

enabled :
    (n : ℕ) (b : Bool) (id : String) (gs : List Gate)
    → all (is_past n) gs ≡ true
    → all (is_past (suc n)) (if b then put id (enable_at (suc n)) gs else gs) ≡ true
enabled n true id gs h =
    all-put (is_past (suc n)) id (enable_at (suc n)) gs (λ g e q. ground arith) (later n gs h)
enabled n false id gs h = later n gs h

publish_at-IsBounded :
    (x : Option Credential) (g : Option Gate) (s : Snapshot) (v : Version) (n : ℕ) (r : String)
    (b : Bool) (id : String)
    → get id s.credentials ≡ x
    → IsBounded s
    → IsBounded (snapshot_of (publish_at x g s v n r b id))
unfolding publish_at
publish_at-IsBounded none g s v n r b id e h = h
publish_at-IsBounded (some c) none s v n r b id e h = h
publish_at-IsBounded (some c) (some g) s v n r b id e h = record {
  revision = ground (arith, h.revision);
  parents = ground (arith, h.parents, enabled s.revision b id s.parents h.parents);
  tools = ground (arith, h.tools, later s.revision s.tools h.tools);
  credentials = ground (
    arith,
    h.credentials,
    all-get is_countable id s.credentials c h.credentials e,
    all-put is_countable id (with_credential (suc n) (some r)) s.credentials,
  );
}

remove_at-IsBounded :
    (x : Option Credential) (s : Snapshot) (v : Version) (id : String)
    → get id s.credentials ≡ x
    → IsBounded s
    → IsBounded (snapshot_of (remove_at x s v id))
unfolding remove_at
remove_at-IsBounded none s v id e h = h
remove_at-IsBounded (some c) s v id e h = record {
  revision = ground (arith, h.revision);
  parents = ground (arith, h.parents, later s.revision s.parents h.parents);
  tools = ground (arith, h.tools, later s.revision s.tools h.tools);
  credentials = ground (
    arith,
    h.credentials,
    all-get is_countable id s.credentials c h.credentials e,
    all-put is_countable id (with_credential (suc c.generation) none) s.credentials,
  );
}

reset_from-IsBounded :
    (s : Snapshot) (inventory : List Tool) (plugins : List Plugin)
    → IsBounded s
    → nat_eq s.revision max_revision ≡ false
    → any (λ c. nat_eq c.generation max_revision) s.credentials ≡ false
    → IsBounded (reset_from s inventory plugins)
unfolding reset_from parent_defaults tool_defaults
reset_from-IsBounded s inventory plugins h n c = record {
  revision = ground (arith, h.revision);
  parents =
      all-assign_all (is_past (suc s.revision)) s.parents _ (later s.revision s.parents h.parents)
        (all-at_revision (suc s.revision) (builtin_groups ++ map plugin_gate plugins));
  tools =
      all-assign_all (is_past (suc s.revision)) s.tools _ (later s.revision s.tools h.tools)
        (all-at_revision (suc s.revision) (map tool_gate inventory));
  credentials =
      all-assign_all is_countable _ _
        (all-assign_all is_countable [] _ refl (defaults_countable plugins))
        (all-tombstone s.credentials h.credentials c);
}

-- What a reset comes to.
pub reset_cases :
    (s : Snapshot) (v : Version) (inventory : List Tool) (plugins : List Plugin)
    → (result_of s (reset_tool_policy s v inventory plugins) ≡ s)
      ⊎ ((result_of s (reset_tool_policy s v inventory plugins) ≡ reset_from s inventory plugins)
          × (nat_eq s.revision max_revision ≡ false)
          × (any (λ c. nat_eq c.generation max_revision) s.credentials ≡ false))
unfolding reset_tool_policy
reset_cases s v inventory plugins = elim (Bool-cases (matches s v)) [
  | inr m ↦ inl (ground arith)
  | inl m ↦
      elim (Bool-cases (
        nat_eq s.revision max_revision
        || any (λ c. nat_eq c.generation max_revision) s.credentials)) [
          | inl b ↦ inl (ground arith)
          | inr b ↦ elim (Option-cases (create_policy_defaults s.epoch inventory plugins)) [
            | inl e ↦ inl (ground arith)
            | inr (d, e) ↦ inr (ground arith, ground arith, ground arith)
          ]
        ]
]

change-IsBounded : (c : Change) (s : Snapshot) → IsBounded s → IsBounded (result_of s (change c s))
unfolding change publish_plugin_credential remove_plugin_credential
change-IsBounded (patches v t id b) s h = patch_policy-IsBounded s v t id b h
change-IsBounded (publishes v n r b id) s h =
    publish_at-IsBounded (get id s.credentials) (get id s.parents) s v n r b id refl h
change-IsBounded (removes v id) s h = remove_at-IsBounded (get id s.credentials) s v id refl h
change-IsBounded (resets v inventory plugins) s h = elim (reset_cases s v inventory plugins) [
  | inl e ↦ rw e h
  | inr (e, n, c) ↦ rw e (reset_from-IsBounded s inventory plugins h n c)
]

-- After any changes of a policy, accepted or not: its revision and its credentials' generations are at
-- most the largest integer that JavaScript counts with exactly, and no gate is enabled at a revision
-- that is still to come, if so it was before.
pub run-IsBounded : (cs : List Change) (s : Snapshot) → IsBounded s → IsBounded (run cs s)
unfolding run
run-IsBounded [] s h = h
run-IsBounded (c ∷ cs) s h = run-IsBounded cs (result_of s (change c s)) (change-IsBounded c s h)
