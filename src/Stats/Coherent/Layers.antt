-- ===== src/Stats/Coherent/Layers.antt =====
-- server/stats/stats.go: the layers keep showing their sources.
use mine_and_die.Prelude.{
  ℕ, Bool, ◌&&◌, true, false, [], ◌∷◌, Option, none, some, ◌≡◌, refl, sym, ap, subst, arith,
  if◌then◌else◌, if_cases, option_cases, Unique, insert, delete, lookup, insert-Unique,
  delete-Unique, ◌==◌, add_u64, sort_by,
}
use mine_and_die.Prelude.Float.{Float64}
use mine_and_die.Stats.Types.{
  SourceKey, SourceKey-discrete, LayerSource, LayerStack, Sources, Component, write,
}
use mine_and_die.Stats.{
  layer_stack, sources_equal, no_sources, source_less, add_sources, add_source, rebuild_layer_stack,
  cull, apply_source, remove_source,
}
use mine_and_die.Stats.Coherent.{ShowsSources}

write_self {ℓ} : {A : Type ℓ} (f : ℕ → A) (k : ℕ) (v : A) → write f k v k ≡ v
write_self f k v = ground arith

-- What holds of each entry beside the one that is written, and of it, holds of all.
write_all {ℓ κ μ} :
    {A : Type ℓ} {B : Type κ} (R : A → B → Type μ) (f : ℕ → A) (g : ℕ → B) (k : ℕ) (v : A) (w : B)
    → R v w
    → ((j : ℕ) → R (f j) (g j))
    → (j : ℕ) → R (write f k v j) (write g k w j)
write_all R f g k v w h all j = go (j == k)
  where
    go : (b : Bool) → R (if b then v else f j) (if b then w else g j)
    go true = h
    go false = all j

-- A source that is gone is not found.
lookup-cull-none :
    {F : Type 0} (tick : ℕ) (k : SourceKey) (m : Sources F)
    → lookup SourceKey-discrete k m ≡ none
    → lookup SourceKey-discrete k (cull tick m) ≡ none
unfolding cull lookup
lookup-cull-none tick k [] h = refl
lookup-cull-none tick k ((j, src) ∷ m) h = ground (arith, h, lookup-cull-none tick k m)

pub cull-Unique :
    {F : Type 0} (tick : ℕ) (m : Sources F)
    → Unique SourceKey-discrete m
    → Unique SourceKey-discrete (cull tick m)
unfolding cull
cull-Unique tick [] u = tt
cull-Unique tick ((k, src) ∷ m) u =
    if_cases (Unique SourceKey-discrete) _ (cull tick m) ((k, src) ∷ cull tick m)
      (λ e. cull-Unique tick m u.1) (λ e. (lookup-cull-none tick k m u.0, cull-Unique tick m u.1))

module _ {F : Type 0} (fl : Float64 F) where
  -- The number of a stack goes along with the sums.
  add_sources_version :
      (n : ℕ) (stack : LayerStack F) (m : Sources F)
      → add_sources fl (record stack { version = n }) m
        ≡ record (add_sources fl stack m) { version = n }
  unfolding add_sources
  add_sources_version n stack [] = refl
  add_sources_version n stack ((k, src) ∷ m) = add_sources_version n (add_source fl stack src) m

  pub layer_stack_version :
      (n v : ℕ) (m : Sources F) → layer_stack fl n m ≡ record (layer_stack fl v m) { version = n }
  unfolding layer_stack
  layer_stack_version n v m = add_sources_version n (no_sources fl v) (sort_by source_less m)

  Shows : LayerStack F → Sources F → Type 0
  Shows stack m = (stack ≡ layer_stack fl stack.version m) × Unique SourceKey-discrete m

  layer_stack-Shows :
      (n : ℕ) (m : Sources F) → Unique SourceKey-discrete m → Shows (layer_stack fl n m) m
  unfolding Shows
  layer_stack-Shows n m u = (
    subst (λ i. layer_stack fl n m ≡ layer_stack fl i m)
        (sym (ap (λ (s : LayerStack F). s.version) (layer_stack_version n n m))) refl,
    u,
  )

  -- New sources for one layer and the stack they come to.
  pub rebuild-ShowsSources :
      (layer : ℕ) (m : Sources F) (c : Component F)
      → ShowsSources fl c.layers c.sources
      → Unique SourceKey-discrete m
      → let c' = rebuild_layer_stack fl layer (record c { sources = write c.sources layer m }) in
        ShowsSources fl c'.layers c'.sources
  unfolding rebuild_layer_stack Shows
  rebuild-ShowsSources layer m c h u =
      write_all Shows c.layers c.sources layer _ m
        (subst (λ (e : Sources F). Shows (layer_stack fl (add_u64 (c.layers layer).version 1) e) m)
          (sym (write_self c.sources layer m))
          (layer_stack-Shows (add_u64 (c.layers layer).version 1) m u))
        h

  unfoldable pub Kept : Option (Component F) → Type 0
  Kept none = Unit
  Kept (some c) = ShowsSources fl c.layers c.sources

  pub apply_source-Kept :
      (layer : ℕ) (key : SourceKey) (src : LayerSource F) (c : Component F)
      → ShowsSources fl c.layers c.sources
      → Kept (apply_source fl layer key src.delta src.expires_at_tick c)
  unfolding apply_source Kept
  apply_source-Kept layer key src c h =
      let m = insert SourceKey-discrete key src (c.sources layer) in
      let new =
        rebuild-ShowsSources layer m c h
          (insert-Unique SourceKey-discrete key src (c.sources layer) (h layer).1) in
      option_cases Kept (lookup SourceKey-discrete key (c.sources layer)) _ _ (λ e. new)
        (λ current e.
          if_cases Kept
            (sources_equal fl current.delta src.delta
              && (current.expires_at_tick == src.expires_at_tick))
            none
            (some (rebuild_layer_stack fl layer (record c { sources = write c.sources layer m })))
            (λ b. tt) (λ b. new))

  pub remove_source-Kept :
      (layer : ℕ) (key : SourceKey) (c : Component F)
      → ShowsSources fl c.layers c.sources
      → Kept (remove_source fl layer key c)
  unfolding remove_source Kept
  remove_source-Kept layer key c h =
      option_cases Kept (lookup SourceKey-discrete key (c.sources layer)) _ _ (λ e. tt)
        (λ current e.
          rebuild-ShowsSources layer (delete SourceKey-discrete key (c.sources layer)) c h
            (delete-Unique SourceKey-discrete key (c.sources layer) (h layer).1))
