-- ===== src/Control/Tests.antt =====
-- Blocks of a machine and of a user over a restart.
use inter_fire.Prelude.{◌≡◌, true, List, [], ◌∷◌, lit}
use inter_fire.Traffic.{out, all, active}
use inter_fire.Nft.{Runs, exited, not_started, apply_modes}
use inter_fire.Control.{Calls, new_modes, reapply, of_machine, of_user}
use inter_fire.Control.Agreement.{apply_modes-reapply}
use inter_fire.Control.Persistence.{
  Operation, to_block, to_pause, to_bind, to_resume, run_all, restart_lem,
}

abbrev runs : Runs
runs = record { delete = exited true []; load = exited true [] }

abbrev fine : Calls
fine = record { stored = true; runs = runs }

abbrev unlucky : Calls
unlucky = record { stored = true; runs = record { delete = not_started; load = not_started } }

abbrev steps : List (Calls × Operation)
steps =
    (fine, to_bind (lit "nfqueue"))
    ∷ (fine, to_resume)
    ∷ (fine, to_block of_machine out 0)
    ∷ (unlucky, to_block of_user all 1000)
    ∷ (unlucky, to_pause)
    ∷ []

apply_modes-reapply_example :
    apply_modes runs out [] active true [] ≡ (reapply runs out [] active true []).1
apply_modes-reapply_example = apply_modes-reapply runs out [] active true []

restart_example :
    ((new_modes (run_all steps (new_modes [] [])).directory []).paused
      ≡ (run_all steps (new_modes [] [])).paused)
    × ((new_modes (run_all steps (new_modes [] [])).directory []).machine
        ≡ (run_all steps (new_modes [] [])).machine)
restart_example = restart_lem [] steps [] []
