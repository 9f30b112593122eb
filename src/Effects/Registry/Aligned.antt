-- ===== src/Effects/Registry/Aligned.antt =====
-- server/internal/effects/runtime/registry.go: the ids that are registered are those in the index.
use mine_and_die.Prelude.{
  ◌<◌, ◌≡◌, ◌≢◌, Bool, true, false, List, [], ◌∷◌, none, some, String, str_dec, ite, arith,
  if◌then◌else◌, if_cases, ite_cases, delete, lookup, lookup-insert, lookup-delete,
}
use mine_and_die.Prelude.Int.{ℤ}
use mine_and_die.Prelude.Float.{Float64}
use mine_and_die.Effects.{State}
use mine_and_die.Effects.Grid.{SpatialIndex, upsert, remove, new_spatial_index}
use mine_and_die.Effects.Grid.Capacity.{
  IsSound, KeepsLimit, has_entry, has_entry-remove, has_entry-upsert, upsert-IsSound,
  remove-IsSound, remove-KeepsLimit, new_entries, new_spatial_index-IsSound,
  new_spatial_index-positive,
}
use mine_and_die.Effects.Registry.{
  Registry, registered, register_effect, unregister_effect, alive, prune, prune_expired,
  new_registry,
}

module _ {F R : Type 0} where
  abbrev pub is_known : String → Registry F R → Bool
  is_known id reg = elim (lookup str_dec id reg.by_id) [ none ↦ false | some e ↦ true ]

  -- The spatial index is sound, and an id is registered where it has an entry in the index.
  pub IsAligned : Registry F R → Type 0
  IsAligned reg =
      IsSound reg.index
      × (0 < reg.index.max_per_cell)
      × ((id : String) → is_known id reg ≡ has_entry id reg.index)

  layout_of : (reg : Registry F R) → IsAligned reg → IsSound reg.index
  unfolding IsAligned
  layout_of reg h = h.0

  limit_of : (reg : Registry F R) → IsAligned reg → 0 < reg.index.max_per_cell
  unfolding IsAligned
  limit_of reg h = h.1

  removed :
      (effect : State F R) (reg : Registry F R)
      → effect.id ≢ ""
      → IsAligned reg
      → IsAligned (record reg {
        by_id = delete str_dec effect.id reg.by_id;
        index = remove effect.id reg.index;
      })
  unfolding IsAligned
  removed effect reg n h = (
    remove-IsSound effect.id reg.index h.0,
    omega (arith, remove-KeepsLimit effect.id reg.index, h.1),
    λ j. ground (
      arith,
      n,
      h.2 j,
      has_entry-remove j effect.id reg.index,
      lookup-delete str_dec effect.id j reg.by_id,
    ),
  )

  registered-IsAligned :
      (effect : State F R) (answer : Bool × SpatialIndex F) (reg : Registry F R)
      → IsAligned reg
      → IsSound answer.1 × KeepsLimit reg.index answer.1
      → ((j : String)
          → has_entry j answer.1 ≡ (
              if answer.0
              then ite (str_dec j effect.id) true (has_entry j reg.index)
              else has_entry j reg.index))
      → let r = registered effect answer reg in IsAligned r.1
  unfolding registered IsAligned
  registered-IsAligned effect (true, idx) reg h s same = (
    s.0,
    omega (arith, s.1, h.1),
    λ j. ground (arith, same j, h.2 j, lookup-insert str_dec effect.id j effect reg.by_id),
  )
  registered-IsAligned effect (false, idx) reg h s same =
      (s.0, omega (arith, s.1, h.1), λ j. ground (arith, same j, h.2 j))

  register_effect-IsAligned :
      (fl : Float64 F) (effect : State F R) (reg : Registry F R)
      → IsAligned reg
      → let r = register_effect fl effect reg in IsAligned r.1
  unfolding register_effect
  register_effect-IsAligned fl effect reg h =
      ite_cases (λ (r : Bool × Registry F R). IsAligned r.1) (str_dec effect.id "") (false, reg)
        (registered effect (upsert fl effect reg.index) reg) (λ e. h)
        (λ n.
          registered-IsAligned effect (upsert fl effect reg.index) reg h
            (upsert-IsSound fl effect reg.index (limit_of reg h) (layout_of reg h))
            (λ j. has_entry-upsert fl j effect reg.index n))

  unregister_effect-IsAligned :
      (effect : State F R) (reg : Registry F R)
      → IsAligned reg
      → IsAligned (unregister_effect effect reg)
  unfolding unregister_effect
  unregister_effect-IsAligned effect reg h =
      ite_cases IsAligned (str_dec effect.id "") reg _ (λ e. h) (λ n. removed effect reg n h)

  prune-IsAligned :
      (now : ℤ) (es : List (State F R)) (reg : Registry F R)
      → IsAligned reg
      → let r = prune now es reg in IsAligned r.1.1
  unfolding prune
  prune-IsAligned now [] reg h = h
  prune-IsAligned now (e ∷ rest) reg h =
      let kept = prune now rest reg in
      let gone = prune now rest (unregister_effect e reg) in
      if_cases (λ (r : List (State F R) × (List (State F R) × Registry F R)). IsAligned r.1.1)
        (alive now e) (e ∷ kept.0, kept.1) (gone.0, (e ∷ gone.1.0, gone.1.1))
        (λ b. prune-IsAligned now rest reg h)
        (λ b.
          prune-IsAligned now rest (unregister_effect e reg) (unregister_effect-IsAligned e reg h))

  prune_expired-IsAligned :
      (now : ℤ) (reg : Registry F R)
      → IsAligned reg
      → let r = prune_expired now reg in IsAligned r.1
  unfolding prune_expired IsAligned
  prune_expired-IsAligned now reg h = prune-IsAligned now reg.effects reg h

new_registry-IsAligned :
    {F : Type 0} (R : Type 0) (fl : Float64 F) (size : F) (max : ℤ)
    → IsAligned (new_registry {R = R} (new_spatial_index fl size max))
unfolding new_registry IsAligned lookup
new_registry-IsAligned R fl size max = (
  new_spatial_index-IsSound fl size max,
  new_spatial_index-positive fl size max,
  new_entries fl size max,
)

pub data Call (F R : Type 0) : Type 0 where
  registers : State F R → Call F R
  unregisters : State F R → Call F R
  prunes : ℤ → Call F R

abbrev pub run : {F R : Type 0} → Float64 F → List (Call F R) → Registry F R → Registry F R
run fl [] reg = reg
run fl (registers e ∷ calls) reg = let r = register_effect fl e reg in run fl calls r.1
run fl (unregisters e ∷ calls) reg = run fl calls (unregister_effect e reg)
run fl (prunes now ∷ calls) reg = let r = prune_expired now reg in run fl calls r.1

-- After any sequence of calls on a new registry an id is registered where the spatial index has an
-- entry for it, each id stands once in each cell of its entry and in no other cell, and no cell
-- holds more ids than the limit.
pub run-IsAligned :
    {F R : Type 0} (fl : Float64 F) (size : F) (max : ℤ) (calls : List (Call F R))
    → IsAligned (run fl calls (new_registry (new_spatial_index fl size max)))
run-IsAligned {F = F} {R = R} fl size max calls =
    keep calls (new_registry (new_spatial_index fl size max)) (new_registry-IsAligned R fl size max)
  where
    keep :
        (calls : List (Call F R)) (reg : Registry F R)
        → IsAligned reg
        → IsAligned (run fl calls reg)
    keep [] reg h = h
    keep (registers e ∷ calls) reg h =
        let r = register_effect fl e reg in keep calls r.1 (register_effect-IsAligned fl e reg h)
    keep (unregisters e ∷ calls) reg h =
        keep calls (unregister_effect e reg) (unregister_effect-IsAligned e reg h)
    keep (prunes now ∷ calls) reg h =
        let r = prune_expired now reg in keep calls r.1 (prune_expired-IsAligned now reg h)
