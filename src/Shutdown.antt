-- ===== src/Shutdown.antt =====
-- src/host/lifecycle.ts, lines 53 to 152: the coordinator of the host's shutdown. Timers and the
-- cleanup's promise are events of the loop; a timer is live from its arming until it fires or is
-- cleared. The callbacks `exit`, `reportError` and `setExitCode` are taken to return; `exits` lists the
-- codes that `exit` was called with, latest first. Delays are whole milliseconds.
pub mod Promises
mod Tests
use hopper_pi.Prelude.{
  ℕ, suc, ◌+◌, Bool, true, false, ◌&&◌, ◌||◌, not, Option, none, some, List, [], ◌∷◌, is_some, leb,
  if◌then◌else◌,
}

pub data ShutdownCause : Type 0 where
  normal parent_gone : ShutdownCause

pub record Coordinator : Type 0 where
  pub normal_force_exit_ms : ℕ
  pub parent_gone_force_exit_ms : ℕ
  pub has_cleanup : Bool
  -- The field `normalForceExit`, and whether its timer is still live.
  pub normal_force_exit : Bool
  pub normal_live : Option ℕ
  pub parent_gone_force_exit : Bool
  pub parent_live : Option ℕ
  pub is_parent_gone : Bool
  pub is_settled : Bool
  pub has_exited : Bool
  -- What the callbacks saw.
  pub cleanups : ℕ
  pub errors : ℕ
  pub exit_code : ℕ
  pub exits : List ℕ

-- The constructor refuses delays that are not positive, and a parent-gone delay of a second or more.
unfoldable pub create : ℕ → ℕ → Option Coordinator
create normal_ms parent_ms =
    if leb normal_ms 0 || leb parent_ms 0 || leb 1000 parent_ms
    then none
    else some (record {
      normal_force_exit_ms = normal_ms;
      parent_gone_force_exit_ms = parent_ms;
      has_cleanup = false;
      normal_force_exit = false;
      normal_live = none;
      parent_gone_force_exit = false;
      parent_live = none;
      is_parent_gone = false;
      is_settled = false;
      has_exited = false;
      cleanups = 0;
      errors = 0;
      exit_code = 0;
      exits = [];
    })

unfoldable pub exit_now : Coordinator → Coordinator
exit_now c = if c.has_exited then c else record c {
  has_exited = true;
  normal_live = if c.normal_force_exit then none else c.normal_live;
  parent_live = if c.parent_gone_force_exit then none else c.parent_live;
  exits = c.exit_code ∷ c.exits;
}

unfoldable pub mark_parent_gone : Coordinator → Coordinator
mark_parent_gone c =
    if c.is_parent_gone
    then c
    else if c.is_settled
    then exit_now (record c { is_parent_gone = true })
    else record c {
      is_parent_gone = true;
      parent_gone_force_exit = true;
      parent_live = some c.parent_gone_force_exit_ms;
    }

unfoldable pub arm_normal_force_exit : Coordinator → Coordinator
arm_normal_force_exit c =
    if c.is_parent_gone || c.normal_force_exit || c.is_settled
    then c
    else record c { normal_force_exit = true; normal_live = some c.normal_force_exit_ms }

start_cleanup : Coordinator → Coordinator
start_cleanup c =
    if c.has_cleanup then c else record c { has_cleanup = true; cleanups = suc c.cleanups }

exit_if_done : Coordinator → Coordinator
exit_if_done c = if c.is_parent_gone && c.is_settled then exit_now c else c

mark : ShutdownCause → Coordinator → Coordinator
mark normal c = arm_normal_force_exit c
mark parent_gone c = mark_parent_gone c

unfoldable pub request : ShutdownCause → Coordinator → Coordinator
unfolding start_cleanup exit_if_done mark
request cause c = exit_if_done (start_cleanup (mark cause c))

unfoldable pub settle_normal : Bool → Coordinator → Coordinator
settle_normal clean c =
    if clean && c.normal_force_exit
    then record c { normal_force_exit = false; normal_live = none }
    else c

unfoldable pub finish : Bool → Coordinator → Coordinator
finish clean c =
    let settled = settle_normal clean (record c { is_settled = true }) in
    if settled.is_parent_gone then exit_now settled else settled

pub data Happening : Type 0 where
  requested : ShutdownCause → Happening
  resolves rejects normal_fires parent_fires : Happening

-- The promise of the cleanup settles once; a timer fires only while it is live.
is_pending : Coordinator → Bool
is_pending c = c.has_cleanup && not c.is_settled

unfoldable pub step : Happening → Coordinator → Coordinator
unfolding is_pending
step (requested cause) c = request cause c
step resolves c = if is_pending c then finish true c else c
step rejects c =
    if is_pending c then finish false (record c { errors = suc c.errors; exit_code = 1 }) else c
step normal_fires c =
    if is_some c.normal_live then exit_now (record c { normal_live = none }) else c
step parent_fires c =
    if is_some c.parent_live then exit_now (record c { parent_live = none }) else c

unfoldable pub run : List Happening → Coordinator → Coordinator
run [] c = c
run (h ∷ hs) c = run hs (step h c)
