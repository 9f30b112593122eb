-- ===== src/Stats/Coherent/Resolve.antt =====
-- server/stats/stats.go: `Apply` and `Resolve` keep the caches, and what `Resolve` computes.
use mine_and_die.Prelude.{
  ℕ, Bool, true, false, not, List, [], ◌∷◌, Option, none, some, ◌≡◌, refl, sym, ap, ◌∙◌, arith,
  if◌then◌else◌, if_cases, ◌==◌, leb, add_u64, sort_by, ◌&&◌,
}
use std.Path.{fun_ext}
use mine_and_die.Prelude.Float.{Float64}
use mine_and_die.Stats.Types.{
  PerStat, SourceKey, LayerSource, LayerStack, Sources, Component, CommandStatChange, write,
  layer_base, layer_temporary, layer_count, source_kind_archetype,
}
use mine_and_die.Stats.Formulas.{compute_derived}
use mine_and_die.Stats.{
  layer_stack, add_sources, fold_layers, cull, has_expired, cull_expired, settle, resolve, apply,
  apply_source, remove_source, empty_component, new_component, new_stat_delta, expiry_of, marked,
  rebuild_layer_stack,
}
use mine_and_die.Stats.Coherent.{
  ShowsSources, IsCoherent, fresh_totals, Call, on_apply, on_resolve, run,
}
use mine_and_die.Stats.Coherent.Layers.{
  Kept, apply_source-Kept, remove_source-Kept, rebuild-ShowsSources, cull-Unique,
  layer_stack_version,
}

-- Where a list has no expired source, culling keeps it.
cull_none : {F : Type 0} (tick : ℕ) (m : Sources F) → has_expired tick m ≡ false → cull tick m ≡ m
unfolding cull
cull_none tick [] h = refl
cull_none tick ((k, src) ∷ m) h = ground (arith, h, cull_none tick m)

has_expired-cull : {F : Type 0} (tick : ℕ) (m : Sources F) → has_expired tick (cull tick m) ≡ false
unfolding cull
has_expired-cull tick [] = refl
has_expired-cull tick ((k, src) ∷ m) = ground (arith, has_expired-cull tick m)

module _ {F : Type 0} (fl : Float64 F) where
  -- The sources at `tick`: without the temporary ones that have expired.
  abbrev pub live : ℕ → (ℕ → Sources F) → ℕ → Sources F
  live tick sources = write sources layer_temporary (cull tick (sources layer_temporary))

  marked-IsCoherent :
      (c : Component F) (o : Option (Component F))
      → IsCoherent fl c
      → Kept fl o
      → IsCoherent fl (marked fl c o)
  unfolding IsCoherent Kept
  marked-IsCoherent c none h k = h
  marked-IsCoherent c (some c') h k = (k, λ e. absurd (ground (arith, e)))

  layers_of : (c : Component F) → IsCoherent fl c → ShowsSources fl c.layers c.sources
  unfolding IsCoherent
  layers_of c h = h.0

  apply-IsCoherent :
      (change : CommandStatChange F) (c : Component F)
      → IsCoherent fl c
      → IsCoherent fl (apply fl change c)
  unfolding apply
  apply-IsCoherent change c h =
      let expires = expiry_of change.layer change.expires_at_tick c.last_resolve_tick in
      let gone = remove_source fl change.layer change.source c in
      let there = apply_source fl change.layer change.source change.delta expires c in
      if_cases (IsCoherent fl) (leb layer_count change.layer) c
        (if change.remove then marked fl c gone else marked fl c there) (λ e. h)
        (λ e.
          if_cases (IsCoherent fl) change.remove (marked fl c gone) (marked fl c there)
            (λ r.
              marked-IsCoherent c gone h
                (remove_source-Kept fl change.layer change.source c (layers_of c h)))
            (λ r. marked-IsCoherent c there h (
              apply_source-Kept fl change.layer change.source
                (record { delta = change.delta; expires_at_tick = expires }) c (layers_of c h))))

  culled : ℕ → Component F → Component F
  culled tick c =
      record (rebuild_layer_stack fl layer_temporary (record c { sources = live tick c.sources })) {
        dirty = true;
      }

  culled-IsCoherent : (tick : ℕ) (c : Component F) → IsCoherent fl c → IsCoherent fl (culled tick c)
  unfolding culled IsCoherent
  culled-IsCoherent tick c h = (
    rebuild-ShowsSources fl layer_temporary (cull tick (c.sources layer_temporary)) c h.0
        (cull-Unique tick (c.sources layer_temporary) (h.0 layer_temporary).1),
    λ d. absurd (ground (arith, d)),
  )

  cull_expired-IsCoherent :
      (tick : ℕ) (c : Component F) → IsCoherent fl c → IsCoherent fl (cull_expired fl tick c)
  unfolding cull_expired culled
  cull_expired-IsCoherent tick c h =
      if_cases (IsCoherent fl) (has_expired tick (c.sources layer_temporary)) (culled tick c) c
        (λ e. culled-IsCoherent tick c h) (λ e. h)

  settled : ℕ → Component F → Component F
  settled tick c = record c {
    totals = fold_layers fl c.layers;
    derived = compute_derived fl (fold_layers fl c.layers);
    version = add_u64 c.version 1;
    last_resolve_tick = tick;
    dirty = false;
  }

  settled-IsCoherent :
      (tick : ℕ) (c : Component F) → IsCoherent fl c → IsCoherent fl (settled tick c)
  unfolding settled IsCoherent
  settled-IsCoherent tick c h = (h.0, λ d. (refl, refl))

  settle-IsCoherent :
      (tick : ℕ) (c : Component F) → IsCoherent fl c → IsCoherent fl (settle fl tick c)
  unfolding settle settled
  settle-IsCoherent tick c h =
      if_cases (IsCoherent fl) (not c.dirty && (c.last_resolve_tick == tick)) c (settled tick c)
        (λ e. h) (λ e. settled-IsCoherent tick c h)

  resolve-IsCoherent :
      (tick : ℕ) (c : Component F) → IsCoherent fl c → IsCoherent fl (resolve fl tick c)
  unfolding resolve
  resolve-IsCoherent tick c h =
      settle-IsCoherent tick (cull_expired fl tick c) (cull_expired-IsCoherent tick c h)

  empty_component-IsCoherent : IsCoherent fl (empty_component fl)
  unfolding empty_component layer_stack add_sources sort_by IsCoherent
  empty_component-IsCoherent = (λ layer. (refl, tt), λ e. absurd (ground (arith, e)))

  new_component-IsCoherent : (base : PerStat F) → IsCoherent fl (new_component fl base)
  unfolding IsCoherent new_component
  new_component-IsCoherent base =
      let src : LayerSource F = record {
        delta = record (new_stat_delta fl) { add = base };
        expires_at_tick = 0;
      } in
      let key : SourceKey = record { kind = source_kind_archetype; id = "base" } in
      let m =
        marked-IsCoherent (empty_component fl)
          (apply_source fl layer_base key src.delta 0 (empty_component fl))
          empty_component-IsCoherent
          (apply_source-Kept fl layer_base key src (empty_component fl)
            empty_component-IsCoherent.0) in
      (m.0, λ e. absurd (ground (arith, e)))

  -- Whatever is applied to a new component and whenever it is resolved, each layer shows what its
  -- sources come to, and unless the component is marked dirty its totals are the fold of the layers
  -- and its derived values are those of the totals.
  pub run-IsCoherent :
      (base : PerStat F) (calls : List (Call fl))
      → IsCoherent fl (run fl calls (new_component fl base))
  run-IsCoherent base calls = keep calls (new_component fl base) (new_component-IsCoherent base)
    where
      keep :
          (calls : List (Call fl)) (c : Component F)
          → IsCoherent fl c
          → IsCoherent fl (run fl calls c)
      keep [] c h = h
      keep (on_apply change ∷ calls) c h =
          keep calls (apply fl change c) (apply-IsCoherent change c h)
      keep (on_resolve tick ∷ calls) c h =
          keep calls (resolve fl tick c) (resolve-IsCoherent tick c h)

  fold_layers-version :
      (layers : ℕ → LayerStack F) (v : ℕ → ℕ)
      → fold_layers fl (λ layer. record (layers layer) { version = v layer })
        ≡ fold_layers fl layers
  unfolding fold_layers
  fold_layers-version layers v = refl

  fresh-fold :
      (layers : ℕ → LayerStack F) (sources : ℕ → Sources F)
      → ShowsSources fl layers sources
      → fold_layers fl layers ≡ fresh_totals fl sources
  fresh-fold layers sources h =
      ap (fold_layers fl) (
        fun_ext
          (λ layer. (h layer).0 ∙ layer_stack_version fl (layers layer).version 0 (sources layer)))
      ∙ fold_layers-version (λ layer. layer_stack fl 0 (sources layer))
          (λ layer. (layers layer).version)

  live_none :
      (tick : ℕ) (sources : ℕ → Sources F)
      → has_expired tick (sources layer_temporary) ≡ false
      → sources ≡ live tick sources
  live_none tick sources h = fun_ext (λ layer. at layer (layer == layer_temporary) refl)
    where
      at :
          (layer : ℕ) (b : Bool)
          → (layer == layer_temporary) ≡ b
          → sources layer ≡ (if b then cull tick (sources layer_temporary) else sources layer)
      at layer false e = refl
      at layer true e =
          ap sources (ground (arith, e)) ∙ sym (cull_none tick (sources layer_temporary) h)

  cull_expired-sources :
      (tick : ℕ) (c : Component F) → (cull_expired fl tick c).sources ≡ live tick c.sources
  unfolding cull_expired culled rebuild_layer_stack
  cull_expired-sources tick c =
      if_cases (λ (d : Component F). d.sources ≡ live tick c.sources)
        (has_expired tick (c.sources layer_temporary)) (culled tick c) c (λ e. refl)
        (λ e. live_none tick c.sources e)

  -- What `settle` leaves.
  IsSettled : ℕ → Component F → Component F → Type 0
  IsSettled tick c c' =
      (c'.totals ≡ fold_layers fl c.layers)
      × (c'.derived ≡ compute_derived fl c'.totals)
      × (c'.sources ≡ c.sources)

  settle-IsSettled :
      (tick : ℕ) (c : Component F) → IsCoherent fl c → IsSettled tick c (settle fl tick c)
  unfolding settle settled IsSettled IsCoherent
  settle-IsSettled tick c h =
      if_cases (IsSettled tick c) (not c.dirty && (c.last_resolve_tick == tick)) c (settled tick c)
        (λ e. let clean = h.1 (ground (arith, e)) in (clean.0, clean.1, refl))
        (λ e. (refl, refl, refl))

  -- Nothing is left to do at `tick`.
  IsDone : ℕ → Component F → Type 0
  IsDone tick c = (c.dirty ≡ false) × (c.last_resolve_tick ≡ tick)

  settle-IsDone : (tick : ℕ) (c : Component F) → IsDone tick (settle fl tick c)
  unfolding settle settled IsDone
  settle-IsDone tick c =
      if_cases (IsDone tick) (not c.dirty && (c.last_resolve_tick == tick)) c (settled tick c)
        (λ e. (ground (arith, e), ground (arith, e))) (λ e. (refl, refl))

  settle-sources : (tick : ℕ) (c : Component F) → (settle fl tick c).sources ≡ c.sources
  unfolding settle settled
  settle-sources tick c =
      if_cases (λ (d : Component F). d.sources ≡ c.sources)
        (not c.dirty && (c.last_resolve_tick == tick)) c (settled tick c) (λ e. refl) (λ e. refl)

  -- Right after `Resolve` at `tick` the totals are computed afresh from the sources that are live at
  -- `tick`, the derived values from these totals, and these sources are the ones that are left.
  pub resolve-fresh :
      (tick : ℕ) (c : Component F)
      → IsCoherent fl c
      → let c' = resolve fl tick c in
        (c'.totals ≡ fresh_totals fl (live tick c.sources))
        × (c'.derived ≡ compute_derived fl c'.totals)
        × (c'.sources ≡ live tick c.sources)
  unfolding resolve IsSettled
  resolve-fresh tick c h =
      let d = cull_expired fl tick c in
      let k = cull_expired-IsCoherent tick c h in
      let s = settle-IsSettled tick d k in
      let same = cull_expired-sources tick c in
      (
        s.0 ∙ fresh-fold d.layers d.sources (layers_of d k) ∙ ap (fresh_totals fl) same,
        s.1,
        s.2 ∙ same,
      )

  resolve_done :
      (tick : ℕ) (c : Component F)
      → IsDone tick c
      → has_expired tick (c.sources layer_temporary) ≡ false
      → resolve fl tick c ≡ c
  unfolding resolve cull_expired culled settle settled IsDone
  resolve_done tick c h e =
      if_cases (λ d. settle fl tick d ≡ c) (has_expired tick (c.sources layer_temporary))
        (culled tick c) c (λ f. absurd (ground (arith, e, f)))
        (λ f.
          if_cases (λ d. d ≡ c) (not c.dirty && (c.last_resolve_tick == tick)) c (settled tick c)
            (λ g. refl) (λ g. absurd (ground (arith, g, h.0, h.1))))

  resolve-IsDone : (tick : ℕ) (c : Component F) → IsDone tick (resolve fl tick c)
  unfolding resolve
  resolve-IsDone tick c = settle-IsDone tick (cull_expired fl tick c)

  resolve_live :
      (tick : ℕ) (c : Component F)
      → has_expired tick ((resolve fl tick c).sources layer_temporary) ≡ false
  unfolding resolve
  resolve_live tick c =
      ap (λ (s : ℕ → Sources F). has_expired tick (s layer_temporary))
        (settle-sources tick (cull_expired fl tick c) ∙ cull_expired-sources tick c)
      ∙ has_expired-cull tick (c.sources layer_temporary)

  -- A second `Resolve` at the same tick changes nothing.
  pub resolve-resolve :
      (tick : ℕ) (c : Component F) → resolve fl tick (resolve fl tick c) ≡ resolve fl tick c
  resolve-resolve tick c =
      resolve_done tick (resolve fl tick c) (resolve-IsDone tick c) (resolve_live tick c)
