-- ===== src/Journal/Patches.antt =====
-- The patches of server/internal/journal/journal.go.
pub mod Laws
mod Tests
use mine_and_die.Prelude.{
  List, [], ◌∷◌, ◌++◌, Bool, ite, String, length, str_dec, if◌then◌else◌, ◌==◌,
}
use mine_and_die.Journal.State.{Journal, Patch}

module _ {D : Type 0} where
  -- The loop of `PurgeEntity`.
  without : String → List (Patch D) → List (Patch D)
  without entity_id [] = []
  without entity_id (p ∷ ps) =
      ite (str_dec p.entity_id entity_id) (without entity_id ps) (p ∷ without entity_id ps)

  purge_staged : String → List (Patch D) → List (Patch D)
  unfolding without
  purge_staged entity_id [] = []
  purge_staged entity_id (p ∷ ps) =
      let filtered = without entity_id (p ∷ ps) in
      if length filtered == length (p ∷ ps) then p ∷ ps else filtered

module _ {D P : Type 0} where
  pub append_patch : Patch D → Journal D P → Journal D P
  append_patch p j = record j { patches = j.patches ++ (p ∷ []) }

  pub purge_entity : String → Journal D P → Journal D P
  unfolding purge_staged
  purge_entity entity_id j =
      ite (str_dec entity_id "") j (record j { patches = purge_staged entity_id j.patches })

  pub drain_patches : Journal D P → Journal D P × List (Patch D)
  drain_patches j = (record j { patches = [] }, j.patches)

  pub snapshot_patches : Journal D P → List (Patch D)
  snapshot_patches j = j.patches

  pub restore_patches : List (Patch D) → Journal D P → Journal D P
  restore_patches ps j = record j { patches = ps ++ j.patches }
