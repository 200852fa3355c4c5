-- ===== src/Registry/Steps.antt =====
-- The calls of src/host/shared/registry.ts in any order; one that throws changes nothing.
use hopper_pi.Prelude.{ℕ, String, Bool, false, ◌==◌, Option, none, some, List, [], ◌∷◌}
use hopper_pi.SharedExecution.{TargetBinding}
use hopper_pi.Registry.{
  SharedAttachment, Registry, Evidence, register, mark_ready, update_documents, detach,
}

pub data Call : Type 0 where
  registers : SharedAttachment → Call
  readies : String → Evidence → Call
  updates : String → List TargetBinding → Option (List (String × String)) → Call
  detaches : String → Call

abbrev pub or_same : Registry → Option Registry → Registry
or_same r none = r
or_same r (some r') = r'

abbrev pub is_readying : String → Call → Bool
is_readying id (readies k e) = k == id
is_readying id _ = false

abbrev pub is_registering : String → Call → Bool
is_registering id (registers a) = a.lifecycle_instance_id == id
is_registering id _ = false

module _ (decimal : ℕ → String) where
  unfoldable pub perform : Call → Registry → Registry
  perform (registers a) r = or_same r (register decimal a r)
  perform (readies id e) r = or_same r (mark_ready decimal id e r)
  perform (updates id documents labels) r =
      or_same r (update_documents decimal id documents labels r)
  perform (detaches id) r = or_same r (detach decimal id r)

  unfoldable pub history : List Call → Registry → Registry
  history [] r = r
  history (c ∷ cs) r = history cs (perform c r)
