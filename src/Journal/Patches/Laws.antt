-- ===== src/Journal/Patches/Laws.antt =====
-- What staged patches go through: draining, putting back, purging.
use mine_and_die.Prelude.{
  ◌≤◌, ◌≡◌, ◌≢◌, refl, List, [], ◌∷◌, ◌++◌, filter, ite, if_cases, append-nil, sym, ◌∙◌, String,
  length, str_dec, arith, append_assoc, ◌==◌, ap,
}
use mathlib.Core.Logic.Dec
use mine_and_die.Journal.State.{Journal, Patch}
use mine_and_die.Journal.Patches.{
  append_patch, without, purge_staged, purge_entity, drain_patches, restore_patches,
}

module _ {D : Type 0} where
  length-without : (id : String) (ps : List (Patch D)) → length (without id ps) ≤ length ps
  unfolding without
  length-without id [] = omega arith
  length-without id (p ∷ ps) = ground (arith, length-without id ps)

  without_same :
      (id : String) (ps : List (Patch D)) → length (without id ps) ≡ length ps → without id ps ≡ ps
  unfolding without
  without_same id [] h = refl
  without_same id (p ∷ ps) h = ground (arith, length-without id ps, without_same id ps)

  -- The patches that are not about the entity.
  abbrev pub others : String → List (Patch D) → List (Patch D)
  others id = filter {p = λ p. p.entity_id ≢ id} (λ p. Dec.not (str_dec p.entity_id id))

  without-others : (id : String) (ps : List (Patch D)) → without id ps ≡ others id ps
  unfolding without
  without-others id [] = refl
  without-others id (p ∷ ps) = ground (arith, without-others id ps)

  purge_staged-others : (id : String) (ps : List (Patch D)) → purge_staged id ps ≡ others id ps
  unfolding purge_staged
  purge_staged-others id [] = refl
  purge_staged-others id (p ∷ ps) =
      if_cases (λ r. r ≡ others id (p ∷ ps)) (length (without id (p ∷ ps)) == length (p ∷ ps)) _ _
        (λ e. sym (without_same id (p ∷ ps) (ground arith)) ∙ without-others id (p ∷ ps))
        (λ e. without-others id (p ∷ ps))

module _ {D P : Type 0} where
  abbrev pub append_all : List (Patch D) → Journal D P → Journal D P
  append_all [] j = j
  append_all (p ∷ ps) j = append_all ps (append_patch p j)

  append_all_lem :
      (ps : List (Patch D)) (j : Journal D P)
      → append_all ps j ≡ record j { patches = j.patches ++ ps }
  unfolding append_patch
  append_all_lem [] j = ap (λ xs. record j { patches = xs }) (sym (append-nil j.patches))
  append_all_lem (p ∷ ps) j =
      append_all_lem ps (append_patch p j)
      ∙ ap (λ xs. record j { patches = xs }) (append_assoc j.patches (p ∷ []) ps)

  -- A drain that is put back after further patches were staged is as if it had not happened: the
  -- drained patches come before the later ones, in their order, and nothing else changes.
  pub restore_patches-drain_patches :
      (ps : List (Patch D)) (j : Journal D P)
      → let (j', drained) = drain_patches j in
        restore_patches drained (append_all ps j') ≡ append_all ps j
  unfolding drain_patches restore_patches
  restore_patches-drain_patches ps j =
      ap (restore_patches j.patches) (append_all_lem ps (record j { patches = [] }))
      ∙ sym (append_all_lem ps j)

  -- After an entity with an id is purged, a drain hands over the staged patches of all other
  -- entities, in order, and no patch of the entity; with no id nothing is purged.
  pub drain_patches-purge_entity :
      (id : String) (j : Journal D P)
      → (drain_patches (purge_entity id j)).1 ≡ ite (str_dec id "") j.patches (others id j.patches)
  unfolding drain_patches purge_entity
  drain_patches-purge_entity id j = ground (arith, purge_staged-others id j.patches)
