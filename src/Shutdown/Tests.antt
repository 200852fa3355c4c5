-- ===== src/Shutdown/Tests.antt =====
-- Shutdowns of a host.
use hopper_pi.Prelude.{◌≤◌, ◌<◌, ◌≡◌, refl, true, false, some, none, List, [], ◌∷◌, length}
use hopper_pi.Shutdown.{
  normal, parent_gone, Coordinator, create, arm_normal_force_exit, request, settle_normal, finish,
  Happening, requested, rejects, normal_fires, parent_fires, step, run,
}
use hopper_pi.Shutdown.Promises.{exits_at_most_once, exit_is_forced}

abbrev fresh : Coordinator
fresh = record {
  normal_force_exit_ms = 5000;
  parent_gone_force_exit_ms = 750;
  has_cleanup = false;
  normal_force_exit = false;
  normal_live = none;
  parent_gone_force_exit = false;
  parent_live = none;
  is_parent_gone = false;
  is_settled = false;
  has_exited = false;
  cleanups = 0;
  errors = 0;
  exit_code = 0;
  exits = [];
}

abbrev crowded : List Happening
crowded =
    requested normal
    ∷ requested parent_gone
    ∷ parent_fires
    ∷ normal_fires
    ∷ rejects
    ∷ requested normal
    ∷ []

exits_at_most_once_example :
    (length (run crowded fresh).exits ≤ 1) × ((run crowded fresh).cleanups ≤ 1)
unfolding create
exits_at_most_once_example = exits_at_most_once 5000 750 fresh crowded refl

abbrev failed : List Happening
failed = requested normal ∷ rejects ∷ requested normal ∷ []

exit_is_forced_example :
    ((run failed fresh).is_settled ≡ false
      → ((run failed fresh).is_parent_gone ≡ true
          → ((run failed fresh).parent_live ≡ some 750) × (750 < 1000))
        × ((run failed fresh).is_parent_gone ≡ false → (run failed fresh).normal_live ≡ some 5000))
    × ((run failed fresh).is_settled ≡ true
        → ((run failed fresh).is_parent_gone ≡ false)
          × (1 ≤ (run failed fresh).errors → (run failed fresh).normal_live ≡ some 5000)
          × ((run failed fresh).errors ≡ 0 → (run failed fresh).normal_live ≡ none))
unfolding create run step request arm_normal_force_exit finish settle_normal
exit_is_forced_example = exit_is_forced 5000 750 fresh failed refl refl refl
