-- ===== src/Effects/Registry/Prune.antt =====
-- server/internal/effects/runtime/registry.go: what `PruneExpired` removes.
use mine_and_die.Prelude.{
  Bool, true, false, ◌≡◌, refl, List, [], ◌∷◌, none, String, str_dec, ite, arith, if◌then◌else◌,
  lookup-delete,
}
use mine_and_die.Prelude.Int.{ℤ}
use mine_and_die.Effects.{State}
use mine_and_die.Effects.Registry.{
  Registry, alive, unregister_effect, find_by_id, prune, prune_expired,
}

module _ {F R : Type 0} where
  -- Some effect of this id is over at `now`.
  abbrev pub some_over : ℤ → String → List (State F R) → Bool
  some_over now id [] = false
  some_over now id (e ∷ rest) =
      if alive now e
      then some_over now id rest
      else ite (str_dec id e.id) true (some_over now id rest)

  abbrev pub living : ℤ → List (State F R) → List (State F R)
  living now [] = []
  living now (e ∷ rest) = if alive now e then e ∷ living now rest else living now rest

  abbrev pub over : ℤ → List (State F R) → List (State F R)
  over now [] = []
  over now (e ∷ rest) = if alive now e then over now rest else e ∷ over now rest

  find-unregister :
      (id : String) (e : State F R) (reg : Registry F R)
      → find_by_id (unregister_effect e reg) id ≡ ite (str_dec id e.id) none (find_by_id reg id)
  unfolding find_by_id unregister_effect
  find-unregister id e reg = ground (arith, lookup-delete str_dec e.id id reg.by_id)

  find-prune :
      (now : ℤ) (id : String) (es : List (State F R)) (reg : Registry F R)
      → let r = prune now es reg in
        find_by_id r.1.1 id ≡ (if some_over now id es then none else find_by_id reg id)
  unfolding prune
  find-prune now id [] reg = refl
  find-prune now id (e ∷ rest) reg = ground (
    arith,
    find-prune now id rest reg,
    find-prune now id rest (unregister_effect e reg),
    find-unregister id e reg,
  )

  prune-lists :
      (now : ℤ) (es : List (State F R)) (reg : Registry F R)
      → let r = prune now es reg in (r.0 ≡ living now es) × (r.1.0 ≡ over now es)
  unfolding prune
  prune-lists now [] reg = (refl, refl)
  prune-lists now (e ∷ rest) reg =
      ground (arith, prune-lists now rest reg, prune-lists now rest (unregister_effect e reg))

  -- Pruning at `now` hands out the effects that are over, in order, and keeps the others, in order. An
  -- id is found after it as before, except that it is not found where some effect of this id was over.
  pub prune_expired_lem :
      (now : ℤ) (reg : Registry F R)
      → let r = prune_expired now reg in
        (r.0 ≡ over now reg.effects)
        × (r.1.effects ≡ living now reg.effects)
        × ((id : String)
            → find_by_id r.1 id
              ≡ (if some_over now id reg.effects then none else find_by_id reg id))
  unfolding prune_expired find_by_id
  prune_expired_lem now reg =
      let lists = prune-lists now reg.effects reg in
      (lists.1, lists.0, λ id. find-prune now id reg.effects reg)
