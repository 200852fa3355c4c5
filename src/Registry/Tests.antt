-- ===== src/Registry/Tests.antt =====
-- An instance registers, is marked ready, registers again and detaches.
use hopper_pi.Registry.Steps.{Call, updates, readies, detaches, or_same, history}
use hopper_pi.Prelude.{List, ℕ, String, ◌≡◌, ◌≢◌, refl, true, false, none, [], ◌∷◌}
use hopper_pi.Prelude.Table.{get}
use hopper_pi.SharedExecution.{
  TargetBinding, rhino, ExecutionOwner, validate_target_binding, identifier, binding_eq,
}
use hopper_pi.Journal.Database.{empty, transaction, required}
use hopper_pi.Journal.Records.{attachment}
use hopper_pi.TaskService.{target}
use hopper_pi.Registry.{
  SharedAttachment, shared_keyed, Registry, recovering, Evidence, is_identified, are_documents_of,
  same_process, is_rival, key, save, register, mark_ready, detach, is_detached, resolve_in,
  resolve_binding, validate_binding,
}
use hopper_pi.Registry.Fencing.{resolved_validates, register_fences, detach_fences}

abbrev decimal : ℕ → String
decimal n = "100"

abbrev document : TargetBinding
document = rhino "l1" "d1"

abbrev instance_of : String → SharedAttachment
instance_of generation = record {
  lifecycle_instance_id = "l1";
  process_id = 100;
  process_start_time = "t";
  host_epoch = "e";
  attachment_generation = generation;
  documents = document ∷ [];
  document_labels = [];
  admission = recovering;
}

abbrev owner : ExecutionOwner
owner = record { task_id = "t1"; turn_id = "u1"; binding = document; attachment_generation = "g1" }

abbrev confirmed : Evidence
confirmed = record {
  is_authenticated = true;
  generation = "g1";
  are_operations_idle = true;
  is_rhino_scope_idle = true;
  is_grasshopper_scope_idle = true;
}

abbrev registered : Registry
registered =
    or_same (record { db = empty; attachments = [] })
      (register decimal (instance_of "g1") (record { db = empty; attachments = [] }))

abbrev is_up : Registry
is_up = or_same registered (mark_ready decimal "l1" confirmed registered)

abbrev again : Registry
again = or_same is_up (register decimal (instance_of "g2") is_up)

abbrev away : Registry
away = or_same is_up (detach decimal "l1" is_up)

resolved_validates_example : validate_binding is_up owner ≡ true
unfolding register mark_ready save attachment required transaction get is_identified
    are_documents_of same_process is_rival key is_detached resolve_binding resolve_in
    validate_target_binding identifier binding_eq
resolved_validates_example = resolved_validates decimal is_up document "100:t" "g1" "t1" "u1" refl

-- The new process opens documents, and is marked ready; or it opens documents only.
abbrev opens_first : List Call
opens_first =
    updates "l1" (document ∷ []) none ∷ readies "l1" (record confirmed { generation = "g2" }) ∷ []

abbrev opens_only : List Call
opens_only = updates "l1" (document ∷ []) none ∷ detaches "l9" ∷ []

register_fences_example :
    (validate_binding (history decimal opens_first again) owner ≡ false)
    × ((p g : String)
        → resolve_binding decimal (history decimal opens_only again) document ≢ target p g)
unfolding register mark_ready save attachment required transaction get is_identified
    are_documents_of same_process is_rival key is_detached resolve_binding resolve_in
    validate_target_binding identifier binding_eq
register_fences_example =
    register_fences decimal (instance_of "g2") is_up again owner opens_first opens_only refl refl
      refl refl refl

detach_fences_example :
    (validate_binding away owner ≡ false)
    × ((p g : String) → resolve_binding decimal away document ≢ target p g)
unfolding register mark_ready save attachment required transaction get is_identified
    are_documents_of same_process is_rival key is_detached detach validate_target_binding identifier
detach_fences_example = detach_fences decimal "l1" is_up away owner refl refl
