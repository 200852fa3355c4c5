-- ===== src/Registry/Kept.antt =====
-- What stays true of the row of a lifecycle under the calls of src/host/shared/registry.ts.
use hopper_pi.Prelude.{
  ℕ, String, ◌≡◌, refl, ap, ◌∙◌, inl, inr, Bool, true, false, some, List, [], ◌∷◌, ◌==◌, eq_refl,
  eq_iff, arith, Option-cases, Option, none, if◌then◌else◌, all,
}
use hopper_pi.Prelude.Table.{get}
use hopper_pi.SharedExecution.{TargetBinding}
use hopper_pi.Journal.Database.{Db}
use hopper_pi.Journal.Database
use hopper_pi.Registry.Steps.{
  Call, registers, readies, updates, detaches, or_same, perform, history,
}
use hopper_pi.Registry.{
  SharedAttachment, shared_keyed, Registry, Admission, Evidence, mark_ready, update_documents,
  recovering, ready, detached, upsert, on_saved, save, register, detach,
}

get-upsert :
    (a : SharedAttachment) (xs : List SharedAttachment)
    → get a.lifecycle_instance_id (upsert a xs) ≡ some a
unfolding get
get-upsert a [] = ground (arith, eq_refl a.lifecycle_instance_id)
get-upsert a (x ∷ xs) = ground (arith, eq_refl a.lifecycle_instance_id, get-upsert a xs)

on_saved-attachments :
    (a : SharedAttachment) (r r' : Registry) (x : Database.Result (Unit {0}) × Db)
    → on_saved a r x ≡ some r'
    → r'.attachments ≡ upsert a r.attachments
on_saved-attachments a r r' (Database.ok u, d) h = ground arith
on_saved-attachments a r r' (Database.err e, d) h = ground arith

pub get-saved :
    (decimal : ℕ → String) (a : SharedAttachment) (r r' : Registry)
    → save decimal a r ≡ some r'
    → get a.lifecycle_instance_id r'.attachments ≡ some a
unfolding save
get-saved decimal a r r' h =
    ap (get a.lifecycle_instance_id) (on_saved-attachments a r r' _ h) ∙ get-upsert a r.attachments

pub register-save :
    (decimal : ℕ → String) (a : SharedAttachment) (r r' : Registry)
    → register decimal a r ≡ some r'
    → save decimal (record a { admission = recovering }) r ≡ some r'
unfolding register
register-save decimal a r r' h = ground arith

pub detach-save :
    (decimal : ℕ → String) (id : String) (r r' : Registry)
    → detach decimal id r ≡ some r'
    → (a : SharedAttachment) × (get id r.attachments ≡ some a)
      × (save decimal (record a { admission = detached }) r ≡ some r')
unfolding detach
detach-save decimal id r r' h = elim (Option-cases (get id r.attachments)) [
  | inl e ↦ absurd (ground arith)
  | inr (a, e) ↦ (a, e, ground arith)
]

abbrev pub is_ready : Admission → Bool
is_ready ready = true
is_ready _ = false

pub key-id :
    (id : String) (xs : List SharedAttachment) (a : SharedAttachment)
    → get id xs ≡ some a
    → a.lifecycle_instance_id ≡ id
unfolding get
key-id id [] a h = ground arith
key-id id (x ∷ xs) a h = ground (arith, eq_iff x.lifecycle_instance_id id, key-id id xs a)

get-upsert_any :
    (id : String) (a : SharedAttachment) (xs : List SharedAttachment)
    → get id (upsert a xs) ≡ (if a.lifecycle_instance_id == id then some a else get id xs)
unfolding get
get-upsert_any id a [] = refl
get-upsert_any id a (x ∷ xs) = ground (
  arith,
  get-upsert_any id a xs,
  eq_iff a.lifecycle_instance_id id,
  eq_iff x.lifecycle_instance_id id,
  eq_iff x.lifecycle_instance_id a.lifecycle_instance_id,
  eq_refl a.lifecycle_instance_id,
)

-- A test that the row of a lifecycle passes.
abbrev pub passes : (SharedAttachment → Bool) → Option SharedAttachment → Bool
passes p none = false
passes p (some a) = p a

module _ (decimal : ℕ → String) (id : String) (p : SharedAttachment → Bool) where
  abbrev holds : Registry → Bool
  holds r = passes p (get id r.attachments)

  save-holds :
      (a : SharedAttachment) (r : Registry) (o : Option Registry)
      → save decimal a r ≡ o
      → ((a.lifecycle_instance_id == id) ≡ true → p a ≡ true)
      → holds r ≡ true
      → holds (or_same r o) ≡ true
  unfolding save
  save-holds a r none e k h = h
  save-holds a r (some r') e k h =
      ground
        (arith, ap (get id) (on_saved-attachments a r r' _ e), get-upsert_any id a r.attachments)

  -- A change of the row that is found under another key, or that keeps the test.
  Keeps : String → (SharedAttachment → SharedAttachment) → Type 0
  Keeps k f =
      (a : SharedAttachment)
      → a.lifecycle_instance_id ≡ k
      → ((f a).lifecycle_instance_id ≡ k) × ((k == id) ≡ true → p a ≡ true → p (f a) ≡ true)

  saved-holds :
      (k : String) (f : SharedAttachment → SharedAttachment) (a : SharedAttachment) (r : Registry)
      → Keeps k f
      → get k r.attachments ≡ some a
      → holds r ≡ true
      → holds (or_same r (save decimal (f a) r)) ≡ true
  unfolding Keeps
  saved-holds k f a r keeps g h =
      let (same, kept) = keeps a (key-id k r.attachments a g) in
      save-holds (f a) r (save decimal (f a) r) refl
        (λ e. kept (ground (arith, same)) (ground (arith, same, g, eq_iff k id))) h

  -- What keeps the test under the calls that are allowed.
  pub record IsKept (allowed : Call → Bool) : Type 0 where
    pub registered :
        (a : SharedAttachment)
        → allowed (registers a) ≡ true
        → (a.lifecycle_instance_id == id) ≡ true
        → p (record a { admission = recovering }) ≡ true
    pub readied :
        (k : String) (e : Evidence) (a : SharedAttachment)
        → allowed (readies k e) ≡ true
        → (k == id) ≡ true
        → p a ≡ true
        → p (record a { admission = ready }) ≡ true
    pub documented :
        (a : SharedAttachment) (documents : List TargetBinding) (labels : List (String × String))
        → p a ≡ true
        → p (record a { documents = documents; document_labels = labels }) ≡ true
    pub detached :
        (a : SharedAttachment) → p a ≡ true → p (record a { admission = detached }) ≡ true

  module _ (allowed : Call → Bool) (kept : IsKept allowed) where
    perform-holds :
        (c : Call) (r : Registry)
        → allowed c ≡ true
        → holds r ≡ true
        → holds (perform decimal c r) ≡ true
    unfolding perform register mark_ready update_documents detach Keeps
    perform-holds (registers a) r w h =
        ground
          (arith, save-holds (record a { admission = recovering }) r _ refl (kept.registered a w) h)
    perform-holds (readies k e) r w h = elim (Option-cases (get k r.attachments)) [
      | inl n ↦ ground arith
      | inr (a, g) ↦ ground (
        arith,
        saved-holds k (λ x. record x { admission = ready }) a r
            (λ x same. (same, kept.readied k e x w)) g h,
      )
    ]
    perform-holds (updates k documents labels) r w h = elim (Option-cases (get k r.attachments)) [
      | inl n ↦ ground arith
      | inr (a, g) ↦ ground (
        arith,
        saved-holds k
            (λ x. record x {
              documents = documents;
              document_labels = elim labels [ none ↦ x.document_labels | some l ↦ l ];
            })
            a r (λ x same. (same, λ e. kept.documented x documents _)) g h,
      )
    ]
    perform-holds (detaches k) r w h = elim (Option-cases (get k r.attachments)) [
      | inl n ↦ ground arith
      | inr (a, g) ↦ ground (
        arith,
        saved-holds k (λ x. record x { admission = detached }) a r
            (λ x same. (same, λ e. kept.detached x)) g h,
      )
    ]

    pub history-holds :
        (cs : List Call) (r : Registry)
        → all allowed cs ≡ true
        → holds r ≡ true
        → holds (history decimal cs r) ≡ true
    unfolding history
    history-holds [] r w h = h
    history-holds (c ∷ cs) r w h =
        history-holds cs (perform decimal c r) (ground arith) (perform-holds c r (ground arith) h)
