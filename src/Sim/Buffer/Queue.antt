-- ===== src/Sim/Buffer/Queue.antt =====
-- The contract of the command buffer: a first-in first-out queue of bounded length.
use mine_and_die.Prelude.{ℕ, Bool, true, false, List, [], ◌∷◌, ◌++◌, ite, length, ℕ_discrete}
use mine_and_die.Sim.Buffer.{Call, pushes, drains, lens, Reply, pushed, drained, sized}

module _ {A : Type 0} (cap : ℕ) where
  unfoldable pub push : A → List A → List A × Bool
  push x q = ite (ℕ_discrete (length q) cap) (q, false) (q ++ (x ∷ []), true)

  unfoldable pub run : List A → List (Call A) → List (Reply A)
  run q [] = []
  run q (pushes x ∷ calls) = let (q', r) = push x q in pushed r ∷ run q' calls
  run q (drains ∷ calls) = drained q ∷ run [] calls
  run q (lens ∷ calls) = sized (length q) ∷ run q calls
