-- ===== src/Shutdown/Promises.antt =====
-- What the shutdown of the host (src/host/lifecycle.ts) keeps in every order of events.
use hopper_pi.Prelude.{
  ℕ, ◌≤◌, ◌<◌, ◌≡◌, refl, Bool, true, false, ◌&&◌, ◌||◌, not, none, some, List, [], ◌∷◌, is_some,
  leb, one, length, any, arith, ◌∙◌,
}
use hopper_pi.Shutdown.{
  normal, parent_gone, Coordinator, create, exit_now, mark_parent_gone, arm_normal_force_exit,
  request, settle_normal, finish, Happening, requested, resolves, rejects, normal_fires,
  parent_fires, step, run,
}

pub record IsSound (c : Coordinator) : Type 0 where
  exits_once : length c.exits ≡ one c.has_exited
  cleans_once : c.cleanups ≡ one c.has_cleanup
  errs_once : c.errors ≤ one c.is_settled
  started : (c.is_settled || c.is_parent_gone || c.normal_force_exit) ≡ true → c.has_cleanup ≡ true
  parent_forces :
      (c.is_parent_gone && not c.is_settled && not c.has_exited) ≡ true
      → c.parent_live ≡ some c.parent_gone_force_exit_ms
  parent_exits : (c.is_parent_gone && c.is_settled) ≡ true → c.has_exited ≡ true
  normal_forces :
      (c.has_cleanup && not c.is_parent_gone && not c.is_settled && not c.has_exited) ≡ true
      → c.normal_live ≡ some c.normal_force_exit_ms
  holds_normal : is_some c.normal_live ≡ true → c.normal_force_exit ≡ true
  holds_parent : is_some c.parent_live ≡ true → c.parent_gone_force_exit ≡ true
  marks_parent : c.parent_gone_force_exit ≡ true → c.is_parent_gone ≡ true
  failed_forces :
      (c.is_settled && not c.has_exited) ≡ true
      → leb 1 c.errors ≡ true
      → c.normal_live ≡ some c.normal_force_exit_ms
  clean_rests : (c.is_settled && not c.has_exited) ≡ true → c.errors ≡ 0 → c.normal_live ≡ none

normal_request-IsSound : (c : Coordinator) → IsSound c → IsSound (step (requested normal) c)
unfolding step request mark_parent_gone arm_normal_force_exit finish settle_normal exit_now
normal_request-IsSound c s = record {
  exits_once = ground arith;
  cleans_once = ground arith;
  errs_once = ground arith;
  started = ground arith;
  parent_forces = ground arith;
  parent_exits = ground arith;
  normal_forces = ground arith;
  holds_normal = ground arith;
  holds_parent = ground arith;
  marks_parent = ground arith;
  failed_forces = ground arith;
  clean_rests = ground arith;
}

parent_request-IsSound : (c : Coordinator) → IsSound c → IsSound (step (requested parent_gone) c)
unfolding step request mark_parent_gone arm_normal_force_exit finish settle_normal exit_now
parent_request-IsSound c s = record {
  exits_once = ground arith;
  cleans_once = ground arith;
  errs_once = ground arith;
  started = ground arith;
  parent_forces = ground arith;
  parent_exits = ground arith;
  normal_forces = ground arith;
  holds_normal = ground arith;
  holds_parent = ground arith;
  marks_parent = ground arith;
  failed_forces = ground arith;
  clean_rests = ground arith;
}

resolved-IsSound : (c : Coordinator) → IsSound c → IsSound (step (resolves) c)
unfolding step request mark_parent_gone arm_normal_force_exit finish settle_normal exit_now
resolved-IsSound c s = record {
  exits_once = ground arith;
  cleans_once = ground arith;
  errs_once = ground arith;
  started = ground arith;
  parent_forces = ground arith;
  parent_exits = ground arith;
  normal_forces = ground arith;
  holds_normal = ground arith;
  holds_parent = ground arith;
  marks_parent = ground arith;
  failed_forces = ground arith;
  clean_rests = ground arith;
}

rejected-IsSound : (c : Coordinator) → IsSound c → IsSound (step (rejects) c)
unfolding step request mark_parent_gone arm_normal_force_exit finish settle_normal exit_now
rejected-IsSound c s = record {
  exits_once = ground arith;
  cleans_once = ground arith;
  errs_once = ground arith;
  started = ground arith;
  parent_forces = ground arith;
  parent_exits = ground arith;
  normal_forces = ground arith;
  holds_normal = ground arith;
  holds_parent = ground arith;
  marks_parent = ground arith;
  failed_forces = ground arith;
  clean_rests = ground arith;
}

normal_fired-IsSound : (c : Coordinator) → IsSound c → IsSound (step (normal_fires) c)
unfolding step request mark_parent_gone arm_normal_force_exit finish settle_normal exit_now
normal_fired-IsSound c s = record {
  exits_once = ground arith;
  cleans_once = ground arith;
  errs_once = ground arith;
  started = ground arith;
  parent_forces = ground arith;
  parent_exits = ground arith;
  normal_forces = ground arith;
  holds_normal = ground arith;
  holds_parent = ground arith;
  marks_parent = ground arith;
  failed_forces = ground arith;
  clean_rests = ground arith;
}

parent_fired-IsSound : (c : Coordinator) → IsSound c → IsSound (step (parent_fires) c)
unfolding step request mark_parent_gone arm_normal_force_exit finish settle_normal exit_now
parent_fired-IsSound c s = record {
  exits_once = ground arith;
  cleans_once = ground arith;
  errs_once = ground arith;
  started = ground arith;
  parent_forces = ground arith;
  parent_exits = ground arith;
  normal_forces = ground arith;
  holds_normal = ground arith;
  holds_parent = ground arith;
  marks_parent = ground arith;
  failed_forces = ground arith;
  clean_rests = ground arith;
}

step-IsSound : (h : Happening) (c : Coordinator) → IsSound c → IsSound (step h c)
step-IsSound (requested normal) c s = normal_request-IsSound c s
step-IsSound (requested parent_gone) c s = parent_request-IsSound c s
step-IsSound (resolves) c s = resolved-IsSound c s
step-IsSound (rejects) c s = rejected-IsSound c s
step-IsSound (normal_fires) c s = normal_fired-IsSound c s
step-IsSound (parent_fires) c s = parent_fired-IsSound c s

run-IsSound : (hs : List Happening) (c : Coordinator) → IsSound c → IsSound (run hs c)
unfolding run
run-IsSound [] c s = s
run-IsSound (h ∷ hs) c s = run-IsSound hs (step h c) (step-IsSound h c s)

create-IsSound : (n p : ℕ) (c : Coordinator) → create n p ≡ some c → IsSound c
unfolding create
create-IsSound n p c h = record {
  exits_once = ground arith;
  cleans_once = ground arith;
  errs_once = ground arith;
  started = ground arith;
  parent_forces = ground arith;
  parent_exits = ground arith;
  normal_forces = ground arith;
  holds_normal = ground arith;
  holds_parent = ground arith;
  marks_parent = ground arith;
  failed_forces = ground arith;
  clean_rests = ground arith;
}

abbrev pub is_request : Happening → Bool
is_request (requested cause) = true
is_request _ = false

step_keeps :
    (h : Happening) (c : Coordinator)
    → ((step h c).has_cleanup ≡ (is_request h || c.has_cleanup))
      × ((step h c).normal_force_exit_ms ≡ c.normal_force_exit_ms)
      × ((step h c).parent_gone_force_exit_ms ≡ c.parent_gone_force_exit_ms)
unfolding step request mark_parent_gone arm_normal_force_exit finish settle_normal exit_now
step_keeps (requested normal) c = (ground arith, ground arith, ground arith)
step_keeps (requested parent_gone) c = (ground arith, ground arith, ground arith)
step_keeps resolves c = (ground arith, ground arith, ground arith)
step_keeps rejects c = (ground arith, ground arith, ground arith)
step_keeps normal_fires c = (ground arith, ground arith, ground arith)
step_keeps parent_fires c = (ground arith, ground arith, ground arith)

run_keeps :
    (hs : List Happening) (c : Coordinator)
    → ((run hs c).has_cleanup ≡ (any is_request hs || c.has_cleanup))
      × ((run hs c).normal_force_exit_ms ≡ c.normal_force_exit_ms)
      × ((run hs c).parent_gone_force_exit_ms ≡ c.parent_gone_force_exit_ms)
unfolding run
run_keeps [] c = (refl, refl, refl)
run_keeps (h ∷ hs) c =
    let (a, n, p) = run_keeps hs (step h c) in
    let (b, m, q) = step_keeps h c in (ground arith, n ∙ m, p ∙ q)

-- Whatever is requested and whenever timers fire or the cleanup ends, the cleanup is started at most
-- once and the process is told to exit at most once.
pub exits_at_most_once :
    (n p : ℕ) (c : Coordinator) (hs : List Happening)
    → create n p ≡ some c
    → (length (run hs c).exits ≤ 1) × ((run hs c).cleanups ≤ 1)
exits_at_most_once n p c hs h =
    let s = run-IsSound hs c (create-IsSound n p c h) in
    (ground (arith, s.exits_once), ground (arith, s.cleans_once))

-- After a request, while the process has not been told to exit: as long as the cleanup is pending, a
-- forced exit is armed, with the delay for a gone parent, below a second, if the parent is gone, and
-- the normal delay otherwise; once the cleanup has ended the parent is not gone, and the normal forced
-- exit stays armed if the cleanup failed and is cleared if not.
pub exit_is_forced :
    (n p : ℕ) (c : Coordinator) (hs : List Happening)
    → create n p ≡ some c
    → any is_request hs ≡ true
    → (run hs c).has_exited ≡ false
    → ((run hs c).is_settled ≡ false
        → ((run hs c).is_parent_gone ≡ true → ((run hs c).parent_live ≡ some p) × (p < 1000))
          × ((run hs c).is_parent_gone ≡ false → (run hs c).normal_live ≡ some n))
      × ((run hs c).is_settled ≡ true
          → ((run hs c).is_parent_gone ≡ false)
            × (1 ≤ (run hs c).errors → (run hs c).normal_live ≡ some n)
            × ((run hs c).errors ≡ 0 → (run hs c).normal_live ≡ none))
unfolding create
exit_is_forced n p c hs h r x =
    let s = run-IsSound hs c (create-IsSound n p c h) in
    let (a, m, q) = run_keeps hs c in
    (
      λ pending. (
        λ g. (ground (arith, s.parent_forces), ground arith),
        λ g. ground (arith, s.normal_forces),
      ),
      λ ended. (
        ground (arith, s.parent_exits),
        λ e. ground (arith, s.failed_forces),
        λ e. ground (arith, s.clean_rests),
      ),
    )
