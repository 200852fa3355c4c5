-- ===== src/TaskService/Sound/Leases.antt =====
-- Leases of Rhino processes (src/host/shared/task-service.ts, lines 325 to 448).
use hopper_pi.Prelude.{
  ℕ, String, ◌≡◌, refl, ap, ◌∙◌, inl, inr, Bool, true, false, ◌&&◌, not, ltb, Option, none, some,
  List, [], ◌∷◌, arith, if◌then◌else◌, is_some, Bool-cases,
}
use hopper_pi.Journal.Rows.{Task}
use hopper_pi.TaskService.{
  Options, Active, Service, Host, Failure, Resolution, target, unavailable, broken, Sought, Ticket,
  Act, set_active, modify, pure, throw, proceed, catch, ◌>>◌,
}
use hopper_pi.TaskService.Pump.{scheduling_snapshot}
use hopper_pi.TaskService.Leases.{
  draw, draw_for, enter_queue, request_as, request_lease, give_up, acquire, set_ticket, drop_ticket,
  release, report_wait, take_turn, attempt, try_lease, release_drawn, release_now, round_of,
  lease_round, end_of, end_lease, is_unconfirmed, is_first, ticket_of,
}
use hopper_pi.TaskService.Sound.{
  IsSound, Keeps, Keeps-pure, Keeps-throw, Keeps-bind, Keeps-if, Keeps-read, rescue-IsSound,
  set_active-IsSound,
}
use hopper_pi.TaskService.Sound.Passes.{pump-Keeps, set_block-Keeps}
use hopper_pi.TaskService.Sound.Queues.{
  all-delete_where, is_orderly-delete_where, is_orderly-draw, all-update_first, reported, acquired,
  is_orderly-reported, draw_drawn, is_orderly-acquired,
}

module _ (o : Options) (host : Host) where
  draw_for-Keeps : (a : Active) (x : Sought) (r : Resolution) → Keeps o (draw_for o host a x r)
  unfolding draw_for draw
  draw_for-Keeps a x (target p g) = record {
    at = λ ts s h. record {
      moves = h.moves;
      form = record {
        workers = h.form.workers;
        coordinators = h.form.coordinators;
        orderly = is_orderly-draw s.next_serial s.tickets _ h.form.drawn h.form.orderly refl refl;
        drawn = draw_drawn s.next_serial s.tickets _ h.form.drawn refl;
      };
    };
  }
  draw_for-Keeps a x (unavailable m p) = Keeps-throw _
  draw_for-Keeps a x (broken m) = Keeps-throw _

  enter_queue-Keeps :
      (a : Active) (x : Sought) (e : Option Failure) → Keeps o (enter_queue o host a x e)
  unfolding enter_queue
  enter_queue-Keeps a x (some e) = Keeps-throw e
  enter_queue-Keeps a x none = Keeps-if a.is_aborted (Keeps-throw _) (draw_for-Keeps a x _)

  request_as-Keeps : (a : Option Active) (x : Sought) → Keeps o (request_as o host a x)
  unfolding request_as
  request_as-Keeps none x = Keeps-throw _
  request_as-Keeps (some a) x = Keeps-read _ (enter_queue-Keeps a x)

  pub request_lease-Keeps : (k : String) (x : Sought) → Keeps o (request_lease o host k x)
  unfolding request_lease
  request_lease-Keeps k x = Keeps-read _ (λ a. request_as-Keeps a x)

  give_up-IsSound :
      (t : Ticket) (b c : Bool) (ts : List Task) (s : Service)
      → IsSound o ts s
      → IsSound o ts (if c then give_up t b s else s)
  unfolding give_up
  give_up-IsSound t b true ts s h =
      set_active-IsSound t.serial _ ts _ (λ a. omega arith) (λ a. omega arith)
        (record {
          moves = h.moves;
          form = record {
            workers = h.form.workers;
            coordinators = h.form.coordinators;
            orderly = h.form.orderly;
            drawn = h.form.drawn;
          };
        })
  give_up-IsSound t b false ts s h = h

  drop-Keeps : (n : ℕ) → Keeps o (modify (drop_ticket n))
  unfolding drop_ticket
  drop-Keeps n = record {
    at = λ ts s h. record {
      moves = h.moves;
      form = record {
        workers = h.form.workers;
        coordinators = h.form.coordinators;
        orderly = is_orderly-delete_where _ s.tickets h.form.orderly;
        drawn = all-delete_where _ _ s.tickets h.form.drawn;
      };
    };
  }

  release-Keeps : (t : Ticket) → Keeps o (release o host t)
  unfolding release
  release-Keeps t = Keeps-bind (drop-Keeps t.id) (λ u. Keeps-read (scheduling_snapshot _) (λ d.
      Keeps-bind
        (record { at = λ ts s h. give_up-IsSound t (is_unconfirmed t d) t.is_acquired ts s h })
        (λ v. Keeps-bind (set_block-Keeps o host t.task_id _ _) (λ w. pump-Keeps o host))))

  report-Keeps : (n : ℕ) → Keeps o (modify (set_ticket n reported))
  unfolding set_ticket
  report-Keeps n = record {
    at = λ ts s h. record {
      moves = h.moves;
      form = record {
        workers = h.form.workers;
        coordinators = h.form.coordinators;
        orderly = is_orderly-reported n s.tickets h.form.orderly;
        drawn =
            all-update_first (λ t. ltb t.id s.next_serial) n reported s.tickets (λ t g q. q)
              h.form.drawn;
      };
    };
  }

  report_wait-Keeps : (t : Ticket) (x : Option String) → Keeps o (report_wait o host t x)
  unfolding report_wait
  report_wait-Keeps t x =
      Keeps-if t.is_reported (Keeps-pure tt)
        (Keeps-bind (set_block-Keeps o host t.task_id _ _) (λ u. report-Keeps t.id))

  acquire-IsSound :
      (t : Ticket) (ts : List Task) (s : Service)
      → ticket_of t.id s.tickets ≡ some t
      → is_first t s.tickets ≡ true
      → IsSound o ts s
      → IsSound o ts (acquire t s)
  unfolding acquire set_ticket ticket_of set_active
  acquire-IsSound t ts s g f h =
      let v =
        set_active-IsSound t.serial (λ a. record a { process_key = some t.process_key }) ts s
          (λ a. omega arith) (λ a. omega arith) h in
      record {
        moves = v.moves;
        form = record {
          workers = v.form.workers;
          coordinators = v.form.coordinators;
          orderly = is_orderly-acquired t s.tickets h.form.orderly g f;
          drawn =
              all-update_first (λ x. ltb x.id s.next_serial) t.id acquired s.tickets (λ x g q. q)
                h.form.drawn;
        };
      }

  take_turn-IsSound :
      (t : Ticket) (b : Option String) (x : Option String) (ts : List Task) (s : Service)
      → ticket_of t.id s.tickets ≡ some t
      → IsSound o ts s
      → IsSound o ts (take_turn o host t b (is_first t s.tickets) x s).1
  unfolding take_turn proceed
  take_turn-IsSound t (some id) x ts s g h = h
  take_turn-IsSound t none x ts s g h =
      elim (Bool-cases (is_first t s.tickets && not (is_some x))) [
        | inl e ↦ rw e (
            (set_block-Keeps o host t.task_id none none).at ts _
              (acquire-IsSound t ts s g (ground arith) h))
        | inr e ↦ rw e ((report_wait-Keeps t x).at ts s h)
      ]

  attempt-IsSound :
      (t : Ticket) (c d : Bool) (b x : Option String) (ts : List Task) (s : Service)
      → ticket_of t.id s.tickets ≡ some t
      → IsSound o ts s
      → IsSound o ts (attempt o host t c d b (is_first t s.tickets) x s).1
  unfolding attempt
  attempt-IsSound t false d b x ts s g h = h
  attempt-IsSound t true false b x ts s g h = h
  attempt-IsSound t true true b x ts s g h = take_turn-IsSound t b x ts s g h

  try_lease-IsSound :
      (t : Ticket) (ts : List Task) (s : Service)
      → ticket_of t.id s.tickets ≡ some t
      → IsSound o ts s
      → IsSound o ts (try_lease o host t s).1
  unfolding try_lease proceed
  try_lease-IsSound t ts s g h = attempt-IsSound t _ _ _ _ ts s g h

  release_drawn-Keeps : (t : Option Ticket) → Keeps o (release_drawn o host t)
  unfolding release_drawn
  release_drawn-Keeps none = Keeps-pure tt
  release_drawn-Keeps (some t) = release-Keeps t

  release_now-Keeps : (n : ℕ) → Keeps o (release_now o host n)
  unfolding release_now
  release_now-Keeps n = Keeps-read _ release_drawn-Keeps

  id-ticket_of : (n : ℕ) (xs : List Ticket) (t : Ticket) → ticket_of n xs ≡ some t → t.id ≡ n
  unfolding ticket_of
  id-ticket_of n [] t h = ground arith
  id-ticket_of n (x ∷ xs) t h = ground (arith, id-ticket_of n xs t)

  if-IsSound :
      (b : Bool) (m n : Act (Unit {0})) (ts : List Task) (s : Service)
      → IsSound o ts (m s).1
      → IsSound o ts (n s).1
      → IsSound o ts ((if b then m else n) s).1
  if-IsSound true m n ts s h k = h
  if-IsSound false m n ts s h k = k

  round_of-IsSound :
      (n : ℕ) (x : Option Ticket) (ts : List Task) (s : Service)
      → ticket_of n s.tickets ≡ x
      → IsSound o ts s
      → IsSound o ts (round_of o host x s).1
  unfolding round_of
  round_of-IsSound n none ts s g h = h
  round_of-IsSound n (some t) ts s g h =
      let last = (λ (f : Failure). release_now o host t.id >> throw f) in
      if-IsSound t.is_acquired (pure tt) (catch (try_lease o host t) last) ts s h (
        rescue-IsSound ts (try_lease o host t s) last
          (try_lease-IsSound t ts s
            (ap (λ m. ticket_of m s.tickets) (id-ticket_of n s.tickets t g) ∙ g) h)
          (λ f. Keeps-bind (release_now-Keeps t.id) (λ u. Keeps-throw f)))

  pub lease_round-Keeps : (n : ℕ) → Keeps o (lease_round o host n)
  unfolding lease_round proceed
  lease_round-Keeps n = record {
    at = λ ts s h. round_of-IsSound n (ticket_of n s.tickets) ts s refl h;
  }

  end_of-Keeps : (t : Option Ticket) → Keeps o (end_of o host t)
  unfolding end_of
  end_of-Keeps none = Keeps-pure tt
  end_of-Keeps (some t) = Keeps-if t.is_acquired (release-Keeps t) (Keeps-pure tt)

  pub end_lease-Keeps : (n : ℕ) → Keeps o (end_lease o host n)
  unfolding end_lease
  end_lease-Keeps n = Keeps-read _ end_of-Keeps
