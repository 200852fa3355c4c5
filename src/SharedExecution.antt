-- ===== src/SharedExecution.antt =====
-- src/protocol/shared-execution.ts: the document a turn is bound to, and who owns an execution.
-- Texts that name things are identifiers; a value of these types has exactly the keys that the
-- source's `exact` asks for, so its validators come down to their tests on identifiers.
use Prim.Native.Char.{code}
use Prim.Native.String.{◌∷◌}
use hopper_pi.Prelude.{
  ℕ, zero, suc, String, Bool, true, false, ◌&&◌, ◌||◌, Option, none, some, ◌==◌, leb, nat_eq,
}

pub data TargetBinding : Type 0 where
  rhino : String → String → TargetBinding
  grasshopper : String → String → Option String → TargetBinding

abbrev pub lifecycle_instance_id : TargetBinding → String
lifecycle_instance_id (rhino lifecycle document) = lifecycle
lifecycle_instance_id (grasshopper lifecycle document association) = lifecycle

-- The document that `documentLabels` is indexed by.
abbrev pub document_id : TargetBinding → String
document_id (rhino lifecycle document) = document
document_id (grasshopper lifecycle document association) = document

pub record ExecutionOwner : Type 0 where
  pub task_id : String
  pub turn_id : String
  pub binding : TargetBinding
  pub attachment_generation : String

pub record DocumentActionOwner : Type 0 where
  pub task_id : String
  pub turn_id : String
  pub action_id : String
  pub grant_id : String
  pub lifecycle_instance_id : String
  pub attachment_generation : String

is_alphanumeric : ℕ → Bool
is_alphanumeric c =
    (leb b'0' c && leb c b'9') || (leb b'A' c && leb c b'Z') || (leb b'a' c && leb c b'z')

is_identifier_char : ℕ → Bool
unfolding is_alphanumeric
is_identifier_char c =
    is_alphanumeric c || nat_eq c b'.' || nat_eq c b'_' || nat_eq c b':' || nat_eq c b'-'

-- At most `room` more characters, each one of [A-Za-z0-9._:-].
identifier_rest : ℕ → String → Bool
identifier_rest room String.[] = true
identifier_rest zero (c ∷ rest) = false
identifier_rest (suc room) (c ∷ rest) = is_identifier_char (code c) && identifier_rest room rest

-- /^[A-Za-z0-9][A-Za-z0-9._:-]{0,127}$/; no character of the class is white space, so the text is
-- its own trim.
unfoldable pub identifier : String → Bool
unfolding is_identifier_char identifier_rest
identifier String.[] = false
identifier (c ∷ rest) = is_alphanumeric (code c) && identifier_rest 127 rest

optional_identifier : Option String → Bool
optional_identifier none = true
optional_identifier (some text) = identifier text

unfoldable pub validate_target_binding : TargetBinding → Bool
unfolding identifier optional_identifier
validate_target_binding (rhino lifecycle document) = identifier lifecycle && identifier document
validate_target_binding (grasshopper lifecycle document association) =
    identifier lifecycle && identifier document && optional_identifier association

unfoldable pub validate_execution_owner : ExecutionOwner → Bool
unfolding identifier validate_target_binding
validate_execution_owner o =
    identifier o.task_id
    && identifier o.turn_id
    && identifier o.attachment_generation
    && validate_target_binding o.binding

unfoldable pub validate_document_action_owner : DocumentActionOwner → Bool
unfolding identifier
validate_document_action_owner o =
    identifier o.task_id
    && identifier o.turn_id
    && identifier o.action_id
    && identifier o.grant_id
    && identifier o.lifecycle_instance_id
    && identifier o.attachment_generation

optional_eq : Option String → Option String → Bool
optional_eq none none = true
optional_eq (some a) (some b) = a == b
optional_eq _ _ = false

-- canonical(a) === canonical(b): the same kind and the same texts.
unfoldable pub binding_eq : TargetBinding → TargetBinding → Bool
unfolding optional_eq
binding_eq (rhino l d) (rhino l' d') = l == l' && d == d'
binding_eq (grasshopper l d a) (grasshopper l' d' a') = l == l' && d == d' && optional_eq a a'
binding_eq _ _ = false

unfoldable pub owner_eq : ExecutionOwner → ExecutionOwner → Bool
unfolding binding_eq
owner_eq a b =
    a.task_id == b.task_id
    && a.turn_id == b.turn_id
    && binding_eq a.binding b.binding
    && a.attachment_generation == b.attachment_generation
