-- ===== src/TaskService/Sound/Queues.antt =====
-- The queues of tickets for Rhino processes (src/host/shared/task-service.ts, lines 325 to 448).
use hopper_pi.Prelude.{
  ℕ, suc, ◌≡◌, refl, inl, inr, Bool, true, false, not, ◌==◌, eq_iff, nat_eq, ltb, some, List, [],
  ◌∷◌, ◌++◌, arith, all, all-append, find, update_first, delete_where, Bool-cases,
}
use hopper_pi.TaskService.{Ticket}
use hopper_pi.TaskService.Leases.{is_first}
use hopper_pi.TaskService.Sound.{is_conflict, is_orderly}

-- The queues stay orderly: tickets leave, a new one is drawn, one is reported or acquired.
pub all-delete_where :
    (p q : Ticket → Bool) (ts : List Ticket) → all p ts ≡ true → all p (delete_where q ts) ≡ true
all-delete_where p q [] h = refl
all-delete_where p q (t ∷ ts) h = ground (arith, all-delete_where p q ts)

pub is_orderly-delete_where :
    (q : Ticket → Bool) (ts : List Ticket)
    → is_orderly ts ≡ true
    → is_orderly (delete_where q ts) ≡ true
is_orderly-delete_where q [] h = refl
is_orderly-delete_where q (t ∷ ts) h =
    ground (arith, is_orderly-delete_where q ts, all-delete_where (λ x. not (is_conflict t x)) q ts)

pub is_orderly-draw :
    (n : ℕ) (ts : List Ticket) (x : Ticket)
    → all (λ t. ltb t.id n) ts ≡ true
    → is_orderly ts ≡ true
    → x.id ≡ n
    → x.is_acquired ≡ false
    → is_orderly (ts ++ x ∷ []) ≡ true
is_orderly-draw n [] x d h e a = refl
is_orderly-draw n (t ∷ ts) x d h e a =
    ground (arith, is_orderly-draw n ts x, all-append (λ y. not (is_conflict t y)) ts (x ∷ []))

-- A write to the ticket `n` keeps a test that it keeps there.
pub all-update_first :
    (p : Ticket → Bool) (n : ℕ) (f : Ticket → Ticket) (ts : List Ticket)
    → ((t : Ticket) → find (λ x. nat_eq x.id n) ts ≡ some t → p t ≡ true → p (f t) ≡ true)
    → all p ts ≡ true
    → all p (update_first (λ t. nat_eq t.id n) f ts) ≡ true
all-update_first p n f [] k h = refl
all-update_first p n f (t ∷ ts) k h = elim (Bool-cases (nat_eq t.id n)) [
  | inl e ↦ ground (arith, k t)
  | inr e ↦ ground (arith, all-update_first p n f ts (λ x g. k x (ground arith)))
]

abbrev pub reported : Ticket → Ticket
reported t = record t { is_reported = true }

abbrev pub acquired : Ticket → Ticket
acquired t = record t { is_acquired = true }

pub is_orderly-reported :
    (n : ℕ) (ts : List Ticket)
    → is_orderly ts ≡ true
    → is_orderly (update_first (λ t. nat_eq t.id n) reported ts) ≡ true
is_orderly-reported n [] h = refl
is_orderly-reported n (t ∷ ts) h = ground (
  arith,
  is_orderly-reported n ts,
  all-update_first (λ x. not (is_conflict t x)) n reported ts (λ x g q. ground arith),
)

pub draw_drawn :
    (n : ℕ) (ts : List Ticket) (x : Ticket)
    → all (λ t. ltb t.id n) ts ≡ true
    → x.id ≡ n
    → all (λ t. ltb t.id (suc n)) (ts ++ x ∷ []) ≡ true
draw_drawn n [] x h e = ground arith
draw_drawn n (t ∷ ts) x h e = ground (arith, draw_drawn n ts x)

-- A ticket behind the head of its queue is not its first.
head_apart :
    (t x : Ticket) (ts : List Ticket)
    → is_first t (x ∷ ts) ≡ true
    → nat_eq x.id t.id ≡ false
    → (t.process_key == x.process_key) ≡ false
unfolding is_first
head_apart t x ts f e =
    ground (arith, eq_iff x.process_key t.process_key, eq_iff t.process_key x.process_key)

-- The head of a queue may be acquired.
pub is_orderly-acquired :
    (t : Ticket) (ts : List Ticket)
    → is_orderly ts ≡ true
    → find (λ x. nat_eq x.id t.id) ts ≡ some t
    → is_first t ts ≡ true
    → is_orderly (update_first (λ x. nat_eq x.id t.id) acquired ts) ≡ true
unfolding is_first
is_orderly-acquired t [] h g f = refl
is_orderly-acquired t (x ∷ ts) h g f = elim (Bool-cases (nat_eq x.id t.id)) [
  | inl e ↦ ground arith
  | inr e ↦ ground (
    arith,
    is_orderly-acquired t ts,
    all-update_first (λ y. not (is_conflict x y)) t.id acquired ts
        (λ y r q. ground (arith, head_apart t x ts f e)),
  )
]
