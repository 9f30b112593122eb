-- ===== src/Stats.antt =====
-- server/stats: the layered stats of an actor (stats.go), the derived values (formulas.go), the
-- snapshot (serialization.go) and the archetypes (registry.go). A float64 is a value of `F`, with the
-- operations of `fl`. A component is built by `NewComponent`, so its maps are there.
pub mod Types
pub mod Formulas
pub mod Registry
mod Bounds
pub mod Coherent
mod Tests
use mine_and_die.Prelude.{
  ℕ, suc, ◌+◌, ◌<◌, Bool, true, false, not, ◌&&◌, ◌||◌, List, [], ◌∷◌, Option, none, some, ite,
  String, str_dec, ℕ_discrete, lookup, insert, delete, if◌then◌else◌, ltb, leb, ◌==◌, text_less,
  sort_by, add_u64,
}
use mine_and_die.Prelude.Float.{Float64}
use mine_and_die.Stats.Types.{
  PerStat, DerivedSet, SourceKey, SourceKey-discrete, OverrideValue, LayerStack, StatDelta,
  LayerSource, Sources, Component, CommandStatChange, write, zip, every, layer_base,
  layer_permanent, layer_equipment, layer_temporary, layer_environment, layer_admin, layer_count,
  source_kind_archetype,
}
use mine_and_die.Stats.Formulas.{compute_derived}

-- The order of the keys in a layer.
pub key_less : SourceKey → SourceKey → Bool
key_less a b = if a.kind == b.kind then text_less a.id b.id else ltb a.kind b.kind

abbrev pub source_less {ℓ} : {A : Type ℓ} → SourceKey × A → SourceKey × A → Bool
source_less a b = key_less a.0 b.0

-- A temporary source without an expiry lasts for one tick after the last resolve.
abbrev expiry_of : ℕ → ℕ → ℕ → ℕ
expiry_of layer expires last =
    if layer == layer_temporary && (expires == 0) then add_u64 last 1 else expires

-- The loop of `cullExpired`: the sources that are not expired.
pub cull : {F : Type 0} → ℕ → Sources F → Sources F
cull tick [] = []
cull tick ((k, src) ∷ entries) =
    if ltb 0 src.expires_at_tick && leb src.expires_at_tick tick
    then cull tick entries
    else (k, src) ∷ cull tick entries

abbrev pub has_expired : {F : Type 0} → ℕ → Sources F → Bool
has_expired tick [] = false
has_expired tick ((k, src) ∷ entries) =
    (ltb 0 src.expires_at_tick && leb src.expires_at_tick tick) || has_expired tick entries

module _ {F : Type 0} (fl : Float64 F) where
  open fl use {lit, add, sub, mul, pow, lt, abs}

  abbrev zero_set : PerStat F
  zero_set = every (lit 0 0)

  abbrev unit_value_set : PerStat F
  unit_value_set = every (lit 1 0)

  abbrev no_override : PerStat (OverrideValue F)
  no_override = every (record { active = false; value = lit 0 0 })

  pub new_stat_delta : StatDelta F
  new_stat_delta = record { add = zero_set; mul = unit_value_set; override = no_override }

  -- A layer without sources.
  abbrev pub no_sources : ℕ → LayerStack F
  no_sources version = record {
    add = zero_set;
    mul = unit_value_set;
    override = no_override;
    version = version;
  }

  abbrev overridden : F → OverrideValue F → F
  overridden v o = if o.active then o.value else v

  abbrev later_override : OverrideValue F → OverrideValue F → OverrideValue F
  later_override old new = if new.active then new else old

  -- `sourcesEqual` at one stat.
  near : F → F → Bool
  near a b = not (lt (lit 1 9) (abs (sub a b)))

  same_override : OverrideValue F → OverrideValue F → Bool
  unfolding near
  same_override a b =
      if a.active then (if b.active then near a.value b.value else false) else not b.active

  abbrev all_stats : PerStat Bool → Bool
  all_stats p = p.might && p.resonance && p.focus && p.speed

  pub sources_equal : StatDelta F → StatDelta F → Bool
  unfolding near same_override
  sources_equal a b =
      all_stats (zip near a.add b.add)
      && all_stats (zip near a.mul b.mul)
      && all_stats (zip same_override a.override b.override)

  -- One round of the loop over the sorted keys.
  add_source : LayerStack F → LayerSource F → LayerStack F
  add_source stack src = record stack {
    add = zip add stack.add src.delta.add;
    mul = zip mul stack.mul src.delta.mul;
    override = zip later_override stack.override src.delta.override;
  }

  add_sources : LayerStack F → Sources F → LayerStack F
  unfolding add_source
  add_sources stack [] = stack
  add_sources stack ((k, src) ∷ entries) = add_sources (add_source stack src) entries

  -- What the sources of a layer come to.
  pub layer_stack : ℕ → Sources F → LayerStack F
  unfolding add_sources key_less
  layer_stack version entries = add_sources (no_sources version) (sort_by source_less entries)

  pub rebuild_layer_stack : ℕ → Component F → Component F
  unfolding layer_stack
  rebuild_layer_stack layer c = record c {
    layers =
        write c.layers layer (layer_stack (add_u64 (c.layers layer).version 1) (c.sources layer));
  }

  -- `none` for a source that is there already.
  pub apply_source : ℕ → SourceKey → StatDelta F → ℕ → Component F → Option (Component F)
  unfolding sources_equal rebuild_layer_stack
  apply_source layer key delta expires c =
      let src : LayerSource F = record { delta = delta; expires_at_tick = expires } in
      let c' = rebuild_layer_stack layer (record c {
        sources = write c.sources layer (insert SourceKey-discrete key src (c.sources layer));
      }) in
      elim (lookup SourceKey-discrete key (c.sources layer)) [
        | none ↦ some c'
        | some current ↦
            if sources_equal current.delta delta && (current.expires_at_tick == expires)
            then none
            else some c'
      ]

  pub remove_source : ℕ → SourceKey → Component F → Option (Component F)
  unfolding rebuild_layer_stack
  remove_source layer key c = elim (lookup SourceKey-discrete key (c.sources layer)) [
    | none ↦ none
    | some current ↦ some (
        rebuild_layer_stack layer (record c {
          sources = write c.sources layer (delete SourceKey-discrete key (c.sources layer));
        }))
  ]

  -- A change makes the component dirty; none leaves it as it is.
  abbrev marked : Component F → Option (Component F) → Component F
  marked c none = c
  marked c (some c') = record c' { dirty = true }

  pub empty_component : Component F
  empty_component = record {
    layers = λ layer. no_sources 0;
    sources = λ layer. [];
    totals = zero_set;
    derived = record {
      max_health = lit 0 0;
      max_mana = lit 0 0;
      damage_scalar_physical = lit 0 0;
      damage_scalar_magical = lit 0 0;
      accuracy = lit 0 0;
      evasion = lit 0 0;
      cast_speed = lit 0 0;
      cooldown_rate = lit 0 0;
      stagger_resist = lit 0 0;
    };
    dirty = true;
    version = 0;
    last_resolve_tick = 0;
  }

  pub new_component : PerStat F → Component F
  unfolding empty_component apply_source new_stat_delta
  new_component base =
      let delta : StatDelta F = record new_stat_delta { add = base } in
      let key : SourceKey = record { kind = source_kind_archetype; id = "base" } in
      record (marked empty_component (apply_source layer_base key delta 0 empty_component)) {
        dirty = true;
      }

  pub apply : CommandStatChange F → Component F → Component F
  unfolding apply_source remove_source
  apply change c =
      if leb layer_count change.layer
      then c
      else if change.remove
      then marked c (remove_source change.layer change.source c)
      else marked c (
          apply_source change.layer change.source change.delta
            (expiry_of change.layer change.expires_at_tick c.last_resolve_tick) c)

  pub cull_expired : ℕ → Component F → Component F
  unfolding cull rebuild_layer_stack
  cull_expired tick c =
      if has_expired tick (c.sources layer_temporary)
      then record (rebuild_layer_stack layer_temporary (record c {
        sources = write c.sources layer_temporary (cull tick (c.sources layer_temporary));
      })) { dirty = true }
      else c

  -- One round of the loop over the layers: add, multiply, override.
  abbrev through_layer : PerStat F → LayerStack F → PerStat F
  through_layer total stack =
      zip overridden (zip mul (zip add total stack.add) stack.mul) stack.override

  pub fold_layers : (ℕ → LayerStack F) → PerStat F
  fold_layers layers =
      let base = layers layer_base in
      let total = zip overridden (zip mul base.add base.mul) base.override in
      let total = through_layer total (layers layer_permanent) in
      let total = through_layer total (layers layer_equipment) in
      let total = through_layer total (layers layer_temporary) in
      let total = through_layer total (layers layer_environment) in
      through_layer total (layers layer_admin)

  -- The part of `Resolve` after the expired sources are gone.
  settle : ℕ → Component F → Component F
  unfolding fold_layers
  settle tick c = if not c.dirty && (c.last_resolve_tick == tick) then c else record c {
    totals = fold_layers c.layers;
    derived = compute_derived fl (fold_layers c.layers);
    version = add_u64 c.version 1;
    last_resolve_tick = tick;
    dirty = false;
  }

  pub resolve : ℕ → Component F → Component F
  unfolding cull_expired settle
  resolve tick c = settle tick (cull_expired tick c)

  pub record Snapshot : Type 0 where
    pub totals : PerStat F
    pub derived : DerivedSet F
    pub version : ℕ

  pub snapshot : Component F → Snapshot
  snapshot c = record { totals = c.totals; derived = c.derived; version = c.version }

  pub restore : Snapshot → Component F → Component F
  restore s c = record c {
    totals = s.totals;
    derived = s.derived;
    version = s.version;
    dirty = false;
  }
