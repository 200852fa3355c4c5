-- ===== src/Registry.antt =====
-- src/host/shared/registry.ts: the Rhino instances that are attached, and which document an owner may
-- work on. `attachments` is the map of the source in insertion order; each change is saved in the
-- journal first. `decimal` is the text of a number.
pub mod Steps
pub mod Kept
pub mod Fencing
mod Tests
use Prim.Native.String.{◌++◌}
use hopper_pi.Prelude.{
  ℕ, String, Bool, true, false, ◌&&◌, ◌||◌, not, Option, none, some, List, [], ◌∷◌, ◌==◌, leb, any,
  all, is_some, if◌then◌else◌,
}
use hopper_pi.Prelude.Table.{Keyed, get, put}
use hopper_pi.SharedExecution.{
  TargetBinding, ExecutionOwner, validate_target_binding, lifecycle_instance_id, binding_eq,
}
use hopper_pi.Journal.Database.{Db, transaction}
use hopper_pi.Journal.Database
use hopper_pi.Journal.Rows
use hopper_pi.Journal.Records.{attachment}
use hopper_pi.TaskService.{Resolution, target, unavailable}

pub data Admission : Type 0 where
  recovering ready detached : Admission

pub record SharedAttachment : Type 0 where
  pub lifecycle_instance_id : String
  pub process_id : ℕ
  pub process_start_time : String
  pub host_epoch : String
  pub attachment_generation : String
  pub documents : List TargetBinding
  pub document_labels : List (String × String)
  pub admission : Admission

instance abbrev pub shared_keyed : Keyed SharedAttachment
shared_keyed = record { key = λ a. a.lifecycle_instance_id }

pub record Registry : Type 0 where
  pub db : Db
  pub attachments : List SharedAttachment

pub record Evidence : Type 0 where
  pub is_authenticated : Bool
  pub generation : String
  pub are_operations_idle : Bool
  pub is_rhino_scope_idle : Bool
  pub is_grasshopper_scope_idle : Bool

unfoldable pub is_detached : Admission → Bool
is_detached detached = true
is_detached _ = false

unfoldable pub is_identified : SharedAttachment → Bool
is_identified a =
    leb 1 a.process_id
    && leb a.process_id 9007199254740991
    && not (a.process_start_time == "")
    && not (a.attachment_generation == "")
    && not (a.host_epoch == "")

unfoldable pub are_documents_of : String → List TargetBinding → Bool
are_documents_of lifecycle documents =
    all (λ b. validate_target_binding b && lifecycle_instance_id b == lifecycle) documents

abbrev pub upsert : SharedAttachment → List SharedAttachment → List SharedAttachment
upsert a [] = a ∷ []
upsert a (x ∷ xs) =
    if x.lifecycle_instance_id == a.lifecycle_instance_id then a ∷ xs else x ∷ upsert a xs

abbrev on_saved : SharedAttachment → Registry → Database.Result (Unit {0}) × Db → Option Registry
on_saved a r (Database.ok u, d) = some (record { db = d; attachments = upsert a r.attachments })
on_saved a r (Database.err e, d) = none

-- An operation that throws is `none`, and changes nothing.
module _ (decimal : ℕ → String) where
  unfoldable pub key : SharedAttachment → String
  key a = decimal a.process_id ++ ":" ++ a.process_start_time

  unfoldable pub save : SharedAttachment → Registry → Option Registry
  save a r = on_saved a r (
      transaction
        (attachment (record {
          lifecycle_id = a.lifecycle_instance_id;
          process_key = key a;
          document_labels = a.document_labels;
        }))
        r.db)

  unfoldable pub same_process : SharedAttachment → Option SharedAttachment → Bool
  same_process a none = true
  same_process a (some prior) = key prior == key a

  -- Another lifecycle of the process that is not detached.
  unfoldable pub is_rival : SharedAttachment → SharedAttachment → Bool
  is_rival a x =
      not (x.lifecycle_instance_id == a.lifecycle_instance_id)
      && key x == key a
      && not (is_detached x.admission)

  unfoldable pub register : SharedAttachment → Registry → Option Registry
  unfolding same_process is_rival
  register a r =
      if is_identified a
        && are_documents_of a.lifecycle_instance_id a.documents
        && same_process a (get a.lifecycle_instance_id r.attachments)
        && not (any (is_rival a) r.attachments)
      then save (record a { admission = recovering }) r
      else none

  is_confirmed : Evidence → SharedAttachment → Bool
  is_confirmed e a =
      e.is_authenticated
      && e.generation == a.attachment_generation
      && e.are_operations_idle
      && e.is_rhino_scope_idle
      && e.is_grasshopper_scope_idle

  unfoldable pub mark_ready : String → Evidence → Registry → Option Registry
  unfolding is_confirmed
  mark_ready id e r = elim (get id r.attachments) [
    | none ↦ none
    | some a ↦ if is_confirmed e a then save (record a { admission = ready }) r else none
  ]

  unfoldable pub update_documents :
      String → List TargetBinding → Option (List (String × String)) → Registry → Option Registry
  update_documents id documents labels r = elim (get id r.attachments) [
    | none ↦ none
    | some a ↦
        if are_documents_of id documents
        then save
            (record a {
              documents = documents;
              document_labels = elim labels [ none ↦ a.document_labels | some l ↦ l ];
            })
            r
        else none
  ]

  unfoldable pub detach : String → Registry → Option Registry
  detach id r = elim (get id r.attachments) [
    | none ↦ none
    | some a ↦ save (record a { admission = detached }) r
  ]

abbrev not_attached : Resolution
not_attached = unavailable "Rhino lifecycle is not attached; waiting for registration" false

abbrev document_closed : Resolution
document_closed =
    unavailable
      "Selected document closed or its association changed; submit a fresh target selection" true

unfoldable pub resolve_in : (ℕ → String) → TargetBinding → SharedAttachment → Resolution
resolve_in decimal binding a = elim a.admission [
  | ready ↦
      if any (λ b. binding_eq b binding) a.documents
      then target (key decimal a) a.attachment_generation
      else document_closed
  | recovering ↦
      unavailable "Rhino attachment is recovering; waiting for authenticated recovery" false
  | detached ↦ unavailable "Rhino attachment is detached; waiting for authenticated recovery" false
]

unfoldable pub resolve_binding : (ℕ → String) → Registry → TargetBinding → Resolution
resolve_binding decimal r binding = elim (get (lifecycle_instance_id binding) r.attachments) [
  | none ↦ not_attached
  | some a ↦ resolve_in decimal binding a
]

-- Whether `validateBinding` returns.
unfoldable pub validate_binding : Registry → ExecutionOwner → Bool
validate_binding r owner = elim (get (lifecycle_instance_id owner.binding) r.attachments) [
  | none ↦ false
  | some a ↦
      a.attachment_generation == owner.attachment_generation
      && not (is_detached a.admission)
      && any (λ b. binding_eq b owner.binding) a.documents
]
