-- ===== src/ToolPolicy/Kept.antt =====
-- What becomes of settings that were read once (src/services/tool-policy-store.ts, with the transitions
-- of src/services/tool-policy.ts).
use hopper_pi.Prelude.{
  ℕ, String, ◌≡◌, refl, inl, inr, ap, Bool, true, ◌&&◌, Option, none, some, List, [], ◌∷◌, ◌==◌,
  eq_refl, arith, leb, Option-cases,
}
use hopper_pi.ToolPolicy.{Tool, Plugin, Gate, Credential, Snapshot, Version, create_policy_defaults}
use hopper_pi.ToolPolicy.Updates.{
  Target, parents, tools, Update, accepted, rejected, snapshot_of, patch_policy, publish_at,
  publish_plugin_credential, remove_at, remove_plugin_credential, reset_from, reset_tool_policy,
}
use hopper_pi.ToolPolicy.Changes.{Change, patches, publishes, removes, resets, change, result_of}
use hopper_pi.ToolPolicy.Bounds.{reset_cases}
use hopper_pi.ToolPolicy.Store.{
  File, absent, unreadable, damaged, saved, Store, Faults, mark, write, supplement, bring_up,
  initialize, write_defaults, load_file, load, store_update, transition_from, transition,
  update_installed, update, reset,
}
use hopper_pi.ToolPolicy.Actions.{
  Operation, loads, updates, transitions, Action, calls, turns_to, loses, blocks, damages, perform,
  act, settings_after,
}

-- A policy of the same epoch that is not older.
abbrev is_later : Snapshot → Snapshot → Bool
is_later p q = q.epoch == p.epoch && leb p.revision q.revision

-- A file has no policy, or one that is not older.
abbrev pub has_later : Snapshot → File → Bool
has_later p (saved q m) = is_later p q
has_later p _ = true

module _ (p : Snapshot) where
  patch_policy-later :
      (s : Snapshot) (v : Version) (t : Target) (id : String) (b : Bool)
      → is_later p s ≡ true
      → is_later p (snapshot_of (patch_policy s v t id b)) ≡ true
  unfolding patch_policy
  patch_policy-later s v parents id b h = ground arith
  patch_policy-later s v tools id b h = ground arith

  publish_at-later :
      (x : Option Credential) (g : Option Gate) (s : Snapshot) (v : Version) (n : ℕ) (r : String)
      (b : Bool) (id : String)
      → is_later p s ≡ true
      → is_later p (snapshot_of (publish_at x g s v n r b id)) ≡ true
  unfolding publish_at
  publish_at-later none g s v n r b id h = h
  publish_at-later (some c) none s v n r b id h = h
  publish_at-later (some c) (some g) s v n r b id h = ground arith

  remove_at-later :
      (x : Option Credential) (s : Snapshot) (v : Version) (id : String)
      → is_later p s ≡ true
      → is_later p (snapshot_of (remove_at x s v id)) ≡ true
  unfolding remove_at
  remove_at-later none s v id h = h
  remove_at-later (some c) s v id h = ground arith

  reset-later :
      (s : Snapshot) (v : Version) (i : List Tool) (ps : List Plugin)
      → is_later p s ≡ true
      → is_later p (result_of s (reset_tool_policy s v i ps)) ≡ true
  unfolding reset_from
  reset-later s v i ps h = elim (reset_cases s v i ps) [
    | inl e ↦ rw e h
    | inr (e, n, c) ↦ rw e (ground arith)
  ]

  change-later :
      (c : Change) (s : Snapshot)
      → is_later p s ≡ true
      → is_later p (result_of s (change c s)) ≡ true
  unfolding change publish_plugin_credential remove_plugin_credential
  change-later (patches v t id b) s h = patch_policy-later s v t id b h
  change-later (publishes v n r b id) s h = publish_at-later _ _ s v n r b id h
  change-later (removes v id) s h = remove_at-later _ s v id h
  change-later (resets v i ps) s h = reset-later s v i ps h

  -- Settings that were initialized, where a policy is not older.
  abbrev is_kept : Store → Bool
  is_kept s = s.has_marker && has_later p s.settings

  -- And the policy that was read, where one was.
  abbrev keeps : Option Snapshot × Store → Bool
  keeps (none, s) = is_kept s
  keeps (some q, s) = is_kept s && is_later p q

  module _ (f : Faults) (e : String) (i : List Tool) (ps : List Plugin) where
    load_file-keeps :
        (x : File) (s : Store)
        → s.settings ≡ x
        → is_kept s ≡ true
        → keeps (load_file f e i ps x s) ≡ true
    unfolding load_file bring_up mark write supplement
    load_file-keeps absent s q h = ground arith
    load_file-keeps unreadable s q h = h
    load_file-keeps damaged s q h = h
    load_file-keeps (saved y m) s q h = ground (arith, ap (has_later p) q)

    store_update-keeps :
        (o : Option Update) (q : Snapshot) (s : Store)
        → is_later p (result_of q o) ≡ true
        → is_kept s ≡ true
        → is_kept (store_update f e i ps o s).1 ≡ true
    unfolding store_update write
    store_update-keeps none q s l h = h
    store_update-keeps (some (accepted r)) q s l h = ground arith
    store_update-keeps (some (rejected c r)) q s l h = h

    transition_from-keeps :
        (g : Snapshot → Option Update) (o : Option Snapshot × Store)
        → ((q : Snapshot) → is_later p q ≡ true → is_later p (result_of q (g q)) ≡ true)
        → keeps o ≡ true
        → is_kept (transition_from f e i ps g o).1 ≡ true
    unfolding transition_from
    transition_from-keeps g (none, s) k h = h
    transition_from-keeps g (some q, s) k h =
        store_update-keeps (g q) q s (k q (ground arith)) (ground arith)

    transition-keeps :
        (g : Snapshot → Option Update) (s : Store)
        → ((q : Snapshot) → is_later p q ≡ true → is_later p (result_of q (g q)) ≡ true)
        → is_kept s ≡ true
        → is_kept (transition f e i ps g s).1 ≡ true
    unfolding transition load
    transition-keeps g s k h =
        transition_from-keeps g (load f e i ps s) k (load_file-keeps s.settings s refl h)

    installed-later :
        (v : Version) (t : Target) (id : String) (b : Bool) (q : Snapshot)
        → is_later p q ≡ true
        → is_later p (result_of q (update_installed f e i ps v t id b q)) ≡ true
    unfolding update_installed
    installed-later v parents id b q h = ground (arith, patch_policy-later q v parents id b h)
    installed-later v tools id b q h = ground (arith, patch_policy-later q v tools id b h)

    kept_of_keeps : (o : Option Snapshot × Store) → keeps o ≡ true → is_kept o.1 ≡ true
    kept_of_keeps (none, s) h = h
    kept_of_keeps (some q, s) h = ground arith

    perform-keeps :
        (o : Operation) (s : Store) → is_kept s ≡ true → is_kept (perform o f e i ps s).1 ≡ true
    unfolding perform load update reset
    perform-keeps loads s h = kept_of_keeps (load f e i ps s) (load_file-keeps s.settings s refl h)
    perform-keeps (updates v t id b) s h =
        transition-keeps (update_installed f e i ps v t id b) s (installed-later v t id b) h
    perform-keeps (Operation.resets v) s h =
        transition-keeps (λ q. reset_tool_policy q v i ps) s (λ q. reset-later q v i ps) h
    perform-keeps (transitions c) s h = transition-keeps (change c) s (change-later c) h

  act-keeps : (a : Action) (s : Store) → is_kept s ≡ true → is_kept (act a s).1 ≡ true
  unfolding act
  act-keeps (calls c) s h = perform-keeps c.faults c.epoch c.inventory c.plugins c.operation s h
  act-keeps (turns_to b) s h = h
  act-keeps loses s h = ground arith
  act-keeps blocks s h = ground arith
  act-keeps damages s h = ground arith

  settings_after-keeps :
      (todo : List Action) (s : Store) → is_kept s ≡ true → is_kept (settings_after todo s) ≡ true
  unfolding settings_after
  settings_after-keeps [] s h = h
  settings_after-keeps (a ∷ todo) s h = settings_after-keeps todo (act a s).1 (act-keeps a s h)

-- The policy that a load returns is the one that it leaves on disk, with the marker.
module _ (f : Faults) (e : String) (i : List Tool) (ps : List Plugin) (p : Snapshot) where
  load_file-reads :
      (x : File) (s : Store)
      → s.settings ≡ x
      → (load_file f e i ps x s).0 ≡ some p
      → is_kept p (load_file f e i ps x s).1 ≡ true
  unfolding load_file initialize write_defaults bring_up mark write
  load_file-reads absent s q h = elim (Option-cases (create_policy_defaults e i ps)) [
    | inl d ↦ ground arith
    | inr (w, d) ↦ ground (arith, eq_refl p.epoch)
  ]
  load_file-reads unreadable s q h = ground arith
  load_file-reads damaged s q h = ground arith
  load_file-reads (saved y m) s q h = ground (arith, ap (has_later p) q, eq_refl p.epoch)

-- From the time that a load returned a policy, whatever any processes do but repair, and though the file is
-- lost, unreadable or damaged at any time: the settings on disk, where there are any, are of that
-- policy's epoch and not older.
pub settings_never_start_over :
    (f : Faults) (e : String) (i : List Tool) (ps : List Plugin) (s : Store) (p : Snapshot)
    (todo : List Action)
    → (load f e i ps s).0 ≡ some p
    → has_later p (settings_after todo (load f e i ps s).1).settings ≡ true
unfolding load
settings_never_start_over f e i ps s p todo h = ground (
  arith,
  settings_after-keeps p todo (load f e i ps s).1 (load_file-reads f e i ps p s.settings s refl h),
)
