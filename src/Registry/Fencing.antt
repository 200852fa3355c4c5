-- ===== src/Registry/Fencing.antt =====
-- Which owners the registry (src/host/shared/registry.ts) lets work, and how an attachment that
-- changes shuts out the owners of the one before.
use hopper_pi.Prelude.{
  ℕ, String, ◌≡◌, ◌≢◌, refl, sym, ap, ◌∙◌, inl, inr, Bool, true, false, some, List, ◌==◌, eq_refl,
  eq_iff, arith, Option-cases, not, all,
}
use hopper_pi.Prelude.Table.{get}
use hopper_pi.SharedExecution.{TargetBinding, ExecutionOwner, lifecycle_instance_id}
use hopper_pi.TaskService.{target}
use hopper_pi.Registry.Kept.{
  get-saved, register-save, detach-save, is_ready, key-id, passes, IsKept, history-holds,
}
use hopper_pi.Registry.Steps.{Call, is_readying, is_registering, history}
use hopper_pi.Registry.{
  SharedAttachment, shared_keyed, Registry, recovering, detached, is_detached, register, detach,
  resolve_in, resolve_binding, validate_binding,
}

-- An owner made from what a binding resolves to is valid, as long as the registry stays as it is.
pub resolved_validates :
    (decimal : ℕ → String) (r : Registry) (b : TargetBinding) (p g k u : String)
    → resolve_binding decimal r b ≡ target p g
    → validate_binding r
        (record { task_id = k; turn_id = u; binding = b; attachment_generation = g })
      ≡ true
unfolding resolve_binding validate_binding resolve_in is_detached
resolved_validates decimal r b p g k u h =
    elim (Option-cases (get (lifecycle_instance_id b) r.attachments)) [
      | inl e ↦ ground arith
      | inr (a, e) ↦ ground (arith, eq_refl g)
    ]

-- Where the row of a lifecycle is not ready, nothing resolves to it.
not_ready :
    (decimal : ℕ → String) (r : Registry) (b : TargetBinding) (a : SharedAttachment) (p g : String)
    → get (lifecycle_instance_id b) r.attachments ≡ some a
    → is_ready a.admission ≡ false
    → resolve_binding decimal r b ≢ target p g
unfolding resolve_binding resolve_in
not_ready decimal r b a p g e n h = ground arith

abbrev is_fenced : SharedAttachment → Bool
is_fenced a = not (is_ready a.admission)

abbrev is_of : String → SharedAttachment → Bool
is_of generation a = a.attachment_generation == generation

fenced_kept :
    (decimal : ℕ → String) (id : String) → IsKept decimal id is_fenced (λ c. not (is_readying id c))
fenced_kept decimal id = record {
  registered = λ a w e. refl;
  readied = λ k e a w same h. ground arith;
  documented = λ a documents labels h. h;
  detached = λ a h. refl;
}

generation_kept :
    (decimal : ℕ → String) (id generation : String)
    → IsKept decimal id (is_of generation) (λ c. not (is_registering id c))
generation_kept decimal id generation = record {
  registered = λ a w e. ground arith;
  readied = λ k e a w same h. h;
  documented = λ a documents labels h. h;
  detached = λ a h. h;
}

fenced_unresolved :
    (decimal : ℕ → String) (r : Registry) (b : TargetBinding) (p g : String)
    → passes is_fenced (get (lifecycle_instance_id b) r.attachments) ≡ true
    → resolve_binding decimal r b ≢ target p g
fenced_unresolved decimal r b p g h =
    elim (Option-cases (get (lifecycle_instance_id b) r.attachments)) [
      | inl e ↦ absurd (ground arith)
      | inr (a, e) ↦ not_ready decimal r b a p g e (ground arith)
    ]

other_generation_invalid :
    (r : Registry) (o : ExecutionOwner) (generation : String)
    → passes (is_of generation) (get (lifecycle_instance_id o.binding) r.attachments) ≡ true
    → (generation == o.attachment_generation) ≡ false
    → validate_binding r o ≡ false
unfolding validate_binding
other_generation_invalid r o generation h n =
    elim (Option-cases (get (lifecycle_instance_id o.binding) r.attachments)) [
      | inl e ↦ ground arith
      | inr (a, e) ↦ ground (arith, eq_iff a.attachment_generation generation)
    ]

-- Registering an instance fences its lifecycle. After any calls among which none marks the lifecycle ready,
-- no binding of it resolves; and after any calls among which none registers it again, an owner with
-- another attachment generation is not valid, even if the lifecycle is ready by then.
pub register_fences :
    (decimal : ℕ → String) (a : SharedAttachment) (r r' : Registry) (o : ExecutionOwner)
    (cs ds : List Call)
    → register decimal a r ≡ some r'
    → lifecycle_instance_id o.binding ≡ a.lifecycle_instance_id
    → (a.attachment_generation == o.attachment_generation) ≡ false
    → all (λ c. not (is_registering a.lifecycle_instance_id c)) cs ≡ true
    → all (λ c. not (is_readying a.lifecycle_instance_id c)) ds ≡ true
    → (validate_binding (history decimal cs r') o ≡ false)
      × ((p g : String) → resolve_binding decimal (history decimal ds r') o.binding ≢ target p g)
register_fences decimal a r r' o cs ds h same other w v =
    let id = a.lifecycle_instance_id in
    let row =
      get-saved decimal (record a { admission = recovering }) r r'
        (register-save decimal a r r' h) in
    (
      other_generation_invalid (history decimal cs r') o a.attachment_generation
          (rw same (
            history-holds decimal id (is_of a.attachment_generation)
              (λ c. not (is_registering id c)) (generation_kept decimal id a.attachment_generation)
              cs r' w (ground (arith, row, eq_refl a.attachment_generation))))
          other,
      λ p g. fenced_unresolved decimal (history decimal ds r') o.binding p g (
          rw same (
            history-holds decimal id is_fenced (λ c. not (is_readying id c))
              (fenced_kept decimal id) ds r' v (ground (arith, row)))),
    )

-- Detaching an instance fences its lifecycle: no owner on it is valid any more, and no binding of it
-- resolves.
pub detach_fences :
    (decimal : ℕ → String) (id : String) (r r' : Registry) (o : ExecutionOwner)
    → detach decimal id r ≡ some r'
    → lifecycle_instance_id o.binding ≡ id
    → (validate_binding r' o ≡ false)
      × ((p g : String) → resolve_binding decimal r' o.binding ≢ target p g)
unfolding validate_binding is_detached
detach_fences decimal id r r' o h same =
    let (a, found, saved) = detach-save decimal id r r' h in
    let row =
      ap (λ k. get k r'.attachments) (same ∙ sym (key-id id r.attachments a found))
      ∙ get-saved decimal (record a { admission = detached }) r r' saved in
    (ground (arith, row), λ p g. not_ready decimal r' o.binding _ p g row refl)
