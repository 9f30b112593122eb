-- ===== src/Sim/Buffer/Tests.antt =====
-- Tests of the command buffer, and its theorems at concrete inputs.
use mine_and_die.Prelude.{ℕ, ◌≡◌, refl, true, false, List, [], ◌∷◌, none, ℕ_discrete}
use mine_and_die.Prelude.Int.{pos}
use mine_and_die.Sim.Buffer.{
  Call, pushes, drains, lens, pushed, drained, sized, new_buffer, push, drain, len, run, read_ring,
}
use mine_and_die.Sim.Buffer.Queue
use mine_and_die.Sim.Buffer.Refine.{run_refines}

abbrev script : List (Call ℕ)
script =
    pushes 1
    ∷ pushes 2
    ∷ pushes 3
    ∷ lens
    ∷ drains
    ∷ pushes 4
    ∷ pushes 5
    ∷ pushes 6
    ∷ drains
    ∷ drains
    ∷ []

run_test :
    run 0 (new_buffer 0 (pos 2) none) script
    ≡ pushed true
      ∷ pushed true
      ∷ pushed false
      ∷ sized 2
      ∷ drained (1 ∷ 2 ∷ [])
      ∷ pushed true
      ∷ pushed true
      ∷ pushed false
      ∷ drained (4 ∷ 5 ∷ [])
      ∷ drained []
      ∷ []
unfolding run new_buffer push drain len read_ring ℕ_discrete
run_test = refl

run_refines_example : run 0 (new_buffer 0 (pos 2) none) script ≡ Queue.run 2 [] script
run_refines_example = run_refines 0 (pos 2) none script
