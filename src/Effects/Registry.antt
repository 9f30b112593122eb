-- ===== src/Effects/Registry.antt =====
-- server/internal/effects/runtime/registry.go: the effects by number and by id, with their places in
-- the spatial index. A registry has all of its parts. No operation here writes to an effect, so an
-- effect is its value.
pub mod Prune
pub mod Aligned
mod Tests
use mine_and_die.Prelude.{
  Bool, true, false, List, [], ◌∷◌, ◌++◌, Option, none, String, str_dec, ite, if◌then◌else◌, insert,
  delete, lookup,
}
use mine_and_die.Prelude.Int.{ℤ, ltb_ℤ}
use mine_and_die.Prelude.Float.{Float64}
use mine_and_die.Effects.{State}
use mine_and_die.Effects.Grid.{SpatialIndex, upsert, remove, new_spatial_index}

-- `overflows` are the calls of `RecordSpatialOverflow`.
pub record Registry (F R : Type 0) : Type 0 where
  pub effects : List (State F R)
  pub by_id : List (String × State F R)
  pub index : SpatialIndex F
  pub overflows : List String

module _ {F R : Type 0} where
  -- `RegisterEffect` once the index has answered.
  pub registered : State F R → Bool × SpatialIndex F → Registry F R → Bool × Registry F R
  registered effect answer reg =
      if answer.0
      then (
        true,
        record reg {
          effects = reg.effects ++ (effect ∷ []);
          by_id = insert str_dec effect.id effect reg.by_id;
          index = answer.1;
        },
      )
      else (false, record reg { index = answer.1; overflows = reg.overflows ++ (effect.type ∷ []) })

  pub register_effect : Float64 F → State F R → Registry F R → Bool × Registry F R
  unfolding registered
  register_effect fl effect reg =
      ite (str_dec effect.id "") (false, reg) (registered effect (upsert fl effect reg.index) reg)

  pub unregister_effect : State F R → Registry F R → Registry F R
  unregister_effect effect reg = ite (str_dec effect.id "") reg (record reg {
    by_id = delete str_dec effect.id reg.by_id;
    index = remove effect.id reg.index;
  })

  pub find_by_id : Registry F R → String → Option (State F R)
  find_by_id reg id = ite (str_dec id "") none (lookup str_dec id reg.by_id)

  -- The effect is there after `now`.
  abbrev pub alive : ℤ → State F R → Bool
  alive now effect = ltb_ℤ now effect.expires_at

  -- The loop of `PruneExpired`: the effects that are kept, those that are not, and the registry.
  pub prune :
      ℤ → List (State F R) → Registry F R → List (State F R) × (List (State F R) × Registry F R)
  unfolding unregister_effect
  prune now [] reg = ([], ([], reg))
  prune now (e ∷ rest) reg =
      if alive now e
      then (let r = prune now rest reg in (e ∷ r.0, r.1))
      else (let r = prune now rest (unregister_effect e reg) in (r.0, (e ∷ r.1.0, r.1.1)))

  pub prune_expired : ℤ → Registry F R → List (State F R) × Registry F R
  unfolding prune
  prune_expired now reg =
      let r = prune now reg.effects reg in (r.1.0, record r.1.1 { effects = r.0 })

  pub new_registry : SpatialIndex F → Registry F R
  new_registry index = record { effects = []; by_id = []; index = index; overflows = [] }
