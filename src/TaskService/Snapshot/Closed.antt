-- ===== src/TaskService/Snapshot/Closed.antt =====
-- The rounds of the scheduling snapshot's query, which end with a set that no round adds to
-- (src/host/shared/journal-reads.ts, lines 54 to 62).
use hopper_pi.Prelude.{
  any, ◌==◌, eq_iff, ◌&&◌, Option, none, some, ℕ, zero, suc, ◌+◌, ◌≤◌, ◌<◌, String, ◌≡◌, refl, sym,
  ap, ◌∙◌, ◌⊎◌, inl, inr, Bool, true, ◌||◌, not, eq_refl, List, [], ◌∷◌, map, arith, all,
  all_weaker, count, keep_where, length, Bool-cases,
}
use hopper_pi.Journal.Rows.{
  Task, State, queued, running, suspending, awaiting_user, suspended, completed, cancelled, failed,
  uncertain, interrupted, state_eq,
}
use hopper_pi.Journal.Database.{Db}
use hopper_pi.TaskService.Snapshot.{
  is_live, root_within, is_root_of, is_disposed, member, is_seed, is_linked, grow, rounds, relevant,
}

-- The identifiers of the tasks that pass a test.
abbrev selected : (Task → Bool) → List Task → List String
selected p ts = map (λ t. t.id) (keep_where p ts)

abbrev pub implies : Bool → Bool → Bool
implies a b = not a || b

module _ (p q : Task → Bool) where
  count_covered :
      (ts : List Task) → all (λ t. implies (p t) (q t)) ts ≡ true → count p ts ≤ count q ts
  count_covered [] h = omega arith
  count_covered (t ∷ ts) h = ground (arith, count_covered ts)

  -- A test that covers another one passes the same tasks, or more of them.
  selected_or_more :
      (ts : List Task)
      → all (λ t. implies (p t) (q t)) ts ≡ true
      → (selected p ts ≡ selected q ts) ⊎ (count p ts < count q ts)
  selected_or_more [] h = inl refl
  selected_or_more (t ∷ ts) h = elim (selected_or_more ts (ground arith)) [
    | inl e ↦ elim (Bool-cases (p t)) [
      | inl a ↦ inl (ground arith)
      | inr a ↦ elim (Bool-cases (q t)) [
        | inl b ↦ inr (ground (arith, count_covered ts))
        | inr b ↦ inl (ground arith)
      ]
    ]
    | inr l ↦ inr (ground arith)
  ]

count-le-length : (p : Task → Bool) (ts : List Task) → count p ts ≤ length ts
count-le-length p [] = omega arith
count-le-length p (t ∷ ts) = ground (arith, count-le-length p ts)

all_two :
    (p q r : Task → Bool) (ts : List Task)
    → ((t : Task) → p t ≡ true → q t ≡ true → r t ≡ true)
    → all p ts ≡ true
    → all q ts ≡ true
    → all r ts ≡ true
all_two p q r [] k h g = refl
all_two p q r (t ∷ ts) k h g = ground (arith, k t, all_two p q r ts k)

-- A task that passes is among the selected.
member-selected :
    (p : Task → Bool) (ts : List Task)
    → all (λ t. implies (p t) (member t.id (selected p ts))) ts ≡ true
unfolding member
member-selected p [] = refl
member-selected p (x ∷ ts) = ground (
  arith,
  eq_refl x.id,
  member-selected p ts,
  all_weaker (λ t. implies (p t) (member t.id (selected p ts)))
      (λ t. implies (p t) (member t.id (selected p (x ∷ ts)))) ts (λ t e. ground arith),
)

module _ (d : Db) where
  abbrev next : List String → Task → Bool
  next ids t = member t.id ids || is_linked d ids t

  covered :
      (p : Task → Bool) → all (λ t. implies (p t) (next (selected p d.tasks) t)) d.tasks ≡ true
  covered p =
      all_weaker (λ t. implies (p t) (member t.id (selected p d.tasks)))
        (λ t. implies (p t) (next (selected p d.tasks) t)) d.tasks (λ t e. ground arith)
        (member-selected p d.tasks)

  rounds_stay : (n : ℕ) (ids : List String) → grow d ids ≡ ids → rounds n d ids ≡ ids
  unfolding rounds
  rounds_stay zero ids h = refl
  rounds_stay (suc n) ids h = ap (rounds n d) h ∙ rounds_stay n ids h

  rounds_closed :
      (n : ℕ) (p : Task → Bool)
      → length d.tasks ≤ count p d.tasks + n
      → grow d (rounds n d (selected p d.tasks)) ≡ rounds n d (selected p d.tasks)
  unfolding rounds grow
  rounds_closed zero p h =
      elim (selected_or_more p (next (selected p d.tasks)) d.tasks (covered p)) [
        | inl e ↦ sym e
        | inr l ↦ absurd (omega (arith, h, l, count-le-length (next (selected p d.tasks)) d.tasks))
      ]
  rounds_closed (suc n) p h =
      elim (selected_or_more p (next (selected p d.tasks)) d.tasks (covered p)) [
        | inl e ↦
            let stays = ap (grow d) (sym e) in
            ap (grow d) (rounds_stay n (selected (next (selected p d.tasks)) d.tasks) stays)
            ∙ stays
            ∙ sym (rounds_stay n (selected (next (selected p d.tasks)) d.tasks) stays)
        | inr l ↦ rounds_closed n (next (selected p d.tasks)) (omega (arith, h, l))
      ]

  links_within :
      (ids : List String)
      → grow d ids ≡ ids
      → all (λ t. implies (is_linked d ids t) (member t.id ids)) d.tasks ≡ true
  unfolding grow
  links_within ids h =
      all_weaker (λ t. implies (next ids t) (member t.id (selected (next ids) d.tasks)))
        (λ t. implies (is_linked d ids t) (member t.id ids)) d.tasks
        (λ t e. ground (arith, ap (member t.id) h)) (member-selected (next ids) d.tasks)

  -- Every round keeps what is found.
  rounds-keep :
      (n : ℕ) (p q : Task → Bool)
      → all (λ t. implies (q t) (member t.id (selected p d.tasks))) d.tasks ≡ true
      → all (λ t. implies (q t) (member t.id (rounds n d (selected p d.tasks)))) d.tasks ≡ true
  unfolding rounds grow
  rounds-keep zero p q h = h
  rounds-keep (suc n) p q h = rounds-keep n (next (selected p d.tasks)) q (
      all_two (λ t. implies (q t) (member t.id (selected p d.tasks)))
        (λ t.
          implies (next (selected p d.tasks) t)
            (member t.id (selected (next (selected p d.tasks)) d.tasks)))
        (λ t. implies (q t) (member t.id (selected (next (selected p d.tasks)) d.tasks))) d.tasks
        (λ t a b. ground arith) h (member-selected (next (selected p d.tasks)) d.tasks))

all_within :
    {A : Type 0} (p : A → Bool) (b : Bool) (xs : List A)
    → implies (any p xs) b ≡ true
    → all (λ x. implies (p x) b) xs ≡ true
all_within p b [] h = refl
all_within p b (x ∷ xs) h = ground (arith, all_within p b xs)

-- The tasks of a root that is found.
all_children :
    (found : List String) (root : Option String) (b : Bool) (us : List Task)
    → implies (root_within found root) b ≡ true
    → all (λ u. implies (any (λ k. k == u.id) found && is_root_of u.id root) b) us ≡ true
unfolding member
all_children found root b [] h = refl
all_children found none b (u ∷ us) h = ground (arith, all_children found none b us h)
all_children found (some r) b (u ∷ us) h =
    ground (arith, eq_iff r u.id, all_children found (some r) b us h)

abbrev pub is_in : String → List String → Bool
is_in id found = any (λ k. k == id) found

-- Queued, running, suspending or awaiting its user; in doubt, and no recovery disposed of it; or asked for.
abbrev pub must_be_read : Db → List String → Task → Bool
must_be_read d ids t =
    state_eq t.state queued
    || state_eq t.state running
    || state_eq t.state suspending
    || state_eq t.state awaiting_user
    || (state_eq t.state uncertain && not (any (λ r. r.task_id == t.id) d.dispositions))
    || is_in t.id ids

live_states :
    (s : State)
    → is_live s ≡ (
        state_eq s queued
        || state_eq s running
        || state_eq s suspending
        || state_eq s awaiting_user)
unfolding state_eq
live_states queued = refl
live_states running = refl
live_states suspending = refl
live_states suspended = refl
live_states awaiting_user = refl
live_states completed = refl
live_states cancelled = refl
live_states interrupted = refl
live_states failed = refl
live_states uncertain = refl

must_be_seed :
    (d : Db) (ids : List String) (t : Task) → must_be_read d ids t ≡ true → is_seed d ids t ≡ true
unfolding is_seed is_disposed member
must_be_seed d ids t h = ground (arith, live_states t.state)

-- The number of rounds is enough for the scheduling snapshot. It has every task that is queued, running,
-- suspending or awaiting its user, every one in doubt that no recovery disposed of, and every one asked
-- for; and with a task also the tasks whose root it is, its root, and what it depends on.
pub relevant_closed :
    (d : Db) (ids : List String)
    → let found = relevant d ids in
      (all (λ t. implies (must_be_read d ids t) (is_in t.id found)) d.tasks ≡ true)
      × (all
            (λ t.
              all
                (λ u.
                  implies (is_in u.id found && is_root_of u.id t.root_task_id) (is_in t.id found))
                d.tasks)
            d.tasks
          ≡ true)
      × (all
            (λ t.
              all
                (λ u.
                  implies (is_in u.id found && is_root_of t.id u.root_task_id) (is_in t.id found))
                d.tasks)
            d.tasks
          ≡ true)
      × (all
            (λ t.
              all
                (λ x. implies (is_in x.task_id found && x.dependency_id == t.id) (is_in t.id found))
                d.dependencies)
            d.tasks
          ≡ true)
unfolding relevant member is_linked
relevant_closed d ids =
    let found = rounds (length d.tasks) d (selected (is_seed d ids) d.tasks) in
    let closed = rounds_closed d (length d.tasks) (is_seed d ids) (omega arith) in
    let seeds =
      rounds-keep d (length d.tasks) (is_seed d ids) (is_seed d ids)
        (member-selected (is_seed d ids) d.tasks) in
    let links = links_within d found closed in
    (
      all_weaker (λ t. implies (is_seed d ids t) (member t.id found)) _ d.tasks
          (λ t h. ground (arith, must_be_seed d ids t)) seeds,
      all_weaker (λ t. implies (is_linked d found t) (member t.id found)) _ d.tasks
          (λ t h. all_children found t.root_task_id (is_in t.id found) d.tasks (ground arith))
          links,
      all_weaker (λ t. implies (is_linked d found t) (member t.id found)) _ d.tasks
          (λ t h.
            all_within (λ u. is_in u.id found && is_root_of t.id u.root_task_id) (is_in t.id found)
              d.tasks (ground arith))
          links,
      all_weaker (λ t. implies (is_linked d found t) (member t.id found)) _ d.tasks
          (λ t h.
            all_within (λ x. is_in x.task_id found && x.dependency_id == t.id) (is_in t.id found)
              d.dependencies (ground arith))
          links,
    )
