-- ===== src/Stats/Coherent.antt =====
-- server/stats/stats.go: the caches of a component against its sources.
pub mod Layers
pub mod Order
pub mod Resolve
use mine_and_die.Prelude.{ℕ, List, [], ◌∷◌, Bool, true, false, ◌≡◌, refl, if◌then◌else◌, Unique}
use mine_and_die.Prelude.Float.{Float64}
use mine_and_die.Stats.Types.{
  PerStat, SourceKey, SourceKey-discrete, LayerSource, LayerStack, Sources, Component,
  CommandStatChange, layer_temporary, layer_count,
}
use mine_and_die.Stats.Formulas.{compute_derived}
use mine_and_die.Stats.{layer_stack, fold_layers, apply, resolve}

module _ {F : Type 0} (fl : Float64 F) where
  -- Every layer shows what its sources come to, and no key stands twice.
  abbrev pub ShowsSources : (ℕ → LayerStack F) → (ℕ → Sources F) → Type 0
  ShowsSources layers sources =
      (layer : ℕ)
      → (layers layer ≡ layer_stack fl (layers layer).version (sources layer))
        × Unique SourceKey-discrete (sources layer)

  -- The caches are right, but for the totals of a component that is marked dirty.
  pub IsCoherent : Component F → Type 0
  IsCoherent c =
      ShowsSources c.layers c.sources
      × (c.dirty ≡ false
          → (c.totals ≡ fold_layers fl c.layers) × (c.derived ≡ compute_derived fl c.totals))

  -- The totals without the caches.
  abbrev pub fresh_totals : (ℕ → Sources F) → PerStat F
  fresh_totals sources = fold_layers fl (λ layer. layer_stack fl 0 (sources layer))

  pub data Call : Type 0 where
    on_apply : CommandStatChange F → Call
    on_resolve : ℕ → Call

  abbrev pub run : List Call → Component F → Component F
  run [] c = c
  run (on_apply change ∷ calls) c = run calls (apply fl change c)
  run (on_resolve tick ∷ calls) c = run calls (resolve fl tick c)
