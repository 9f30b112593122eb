-- ===== src/Stats/Coherent/Order.antt =====
-- server/stats/stats.go: the order in which a map gives its keys out does not matter.
use mine_and_die.Prelude.{
  ℕ, true, false, String, ◌≡◌, ap, ap₂, arith, Unique, lookup, sort_entries-eq, IsOrder,
  text_less_irrefl, text_less_trans, text_less_connex,
}
use mine_and_die.Prelude.Float.{Float64}
use mine_and_die.Stats.Types.{SourceKey, SourceKey-discrete, Sources}
use mine_and_die.Stats.{layer_stack, add_sources, no_sources, key_less}

key_less_irrefl : (k : SourceKey) → key_less k k ≡ false
unfolding key_less
key_less_irrefl k = ground (arith, text_less_irrefl k.id)

key_less_trans :
    (i j k : SourceKey) → key_less i j ≡ true → key_less j k ≡ true → key_less i k ≡ true
unfolding key_less
key_less_trans i j k h g = ground (arith, h, g, text_less_trans i.id j.id k.id)

key_less_connex : (j k : SourceKey) → key_less j k ≡ false → key_less k j ≡ false → j ≡ k
unfolding key_less
key_less_connex j k h g =
    ap₂ (λ (n : ℕ) (s : String). record { kind = n; id = s }) same
      (ground (arith, h, g, same, text_less_connex j.id k.id))
  where
    same : j.kind ≡ k.kind
    same = ground (arith, h, g)

key_less-IsOrder : IsOrder key_less
key_less-IsOrder = record {
  irrefl = key_less_irrefl;
  trans = key_less_trans;
  connex = key_less_connex;
}

-- The stack of a layer depends on which source each key has alone: where two maps answer the same, in
-- whatever order they list their entries, they come to the same stack.
pub layer_stack-order :
    {F : Type 0} (fl : Float64 F) (version : ℕ) (l m : Sources F)
    → Unique SourceKey-discrete l
    → Unique SourceKey-discrete m
    → ((k : SourceKey) → lookup SourceKey-discrete k l ≡ lookup SourceKey-discrete k m)
    → layer_stack fl version l ≡ layer_stack fl version m
unfolding layer_stack
layer_stack-order fl version l m u v h =
    ap (add_sources fl (no_sources fl version))
      (sort_entries-eq SourceKey-discrete key_less key_less-IsOrder l m u v h)
