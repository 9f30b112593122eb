-- ===== src/Effects/Registry/Tests.antt =====
-- The laws of the registry and of the spatial index at concrete inputs.
use mine_and_die.Prelude.{ℕ, List, [], ◌∷◌, none, ◌≡◌, String, if◌then◌else◌}
use mine_and_die.Prelude.Int.{ℤ, pos, negsuc}
use mine_and_die.Prelude.Float.{whole_numbers}
use mine_and_die.Effects.{State}
use mine_and_die.Effects.Grid.{SpatialIndex, new_spatial_index}
use mine_and_die.Effects.Registry.{Registry, new_registry, find_by_id, prune_expired}
use mine_and_die.Effects.Registry.Prune.{over, living, some_over, prune_expired_lem}
use mine_and_die.Effects.Registry.Aligned.{
  IsAligned, registers, unregisters, prunes, Call, run, run-IsAligned,
}

abbrev effect : String → ℤ → ℤ → State ℤ ℕ
effect id at expires = record {
  id = id;
  type = "fire";
  x = at;
  y = negsuc 1;
  width = pos 2;
  height = pos 1;
  expires_at = expires;
  rest = 0;
}

abbrev fresh : SpatialIndex ℤ
fresh = new_spatial_index whole_numbers (pos 1) (pos 2)

abbrev calls : List (Call ℤ ℕ)
calls =
    registers (effect "a" (pos 0) (pos 9))
    ∷ registers (effect "b" (pos 1) (pos 5))
    ∷ registers (effect "c" (pos 2) (pos 7))
    ∷ prunes (pos 6)
    ∷ unregisters (effect "a" (pos 0) (pos 9))
    ∷ []

run-IsAligned_example : IsAligned (run whole_numbers calls (new_registry fresh))
run-IsAligned_example = run-IsAligned whole_numbers (pos 1) (pos 2) calls

abbrev two : Registry ℤ ℕ
two =
    run whole_numbers
      (registers (effect "a" (pos 0) (pos 9)) ∷ registers (effect "b" (pos 1) (pos 5)) ∷ [])
      (new_registry fresh)

prune_expired_lem_example :
    let r = prune_expired (pos 6) two in
    (r.0 ≡ over (pos 6) two.effects)
    × (r.1.effects ≡ living (pos 6) two.effects)
    × ((id : String)
        → find_by_id r.1 id
          ≡ (if some_over (pos 6) id two.effects then none else find_by_id two id))
prune_expired_lem_example = prune_expired_lem (pos 6) two
