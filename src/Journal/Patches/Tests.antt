-- ===== src/Journal/Patches/Tests.antt =====
-- The theorems on staged patches at concrete inputs.
use mine_and_die.Prelude.{ℕ, ◌≡◌, ite, str_dec, [], ◌∷◌}
use mine_and_die.Journal.State.{Journal}
use mine_and_die.Journal.Samples.{patch_of, empty_journal}
use mine_and_die.Journal.Patches.{append_patch, drain_patches, restore_patches, purge_entity}
use mine_and_die.Journal.Patches.Laws.{
  others, append_all, restore_patches-drain_patches, drain_patches-purge_entity,
}

abbrev staged : Journal ℕ ℕ
staged = append_patch (patch_of "b" 2) (append_patch (patch_of "a" 1) empty_journal)

restore_patches-drain_patches_example :
    let (j, drained) = drain_patches staged in
    restore_patches drained (append_all (patch_of "c" 3 ∷ []) j)
    ≡ append_all (patch_of "c" 3 ∷ []) staged
restore_patches-drain_patches_example = restore_patches-drain_patches (patch_of "c" 3 ∷ []) staged

drain_patches-purge_entity_example :
    (drain_patches (purge_entity "a" staged)).1
    ≡ ite (str_dec "a" "") staged.patches (others "a" staged.patches)
drain_patches-purge_entity_example = drain_patches-purge_entity "a" staged
