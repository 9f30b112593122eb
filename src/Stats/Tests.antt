-- ===== src/Stats/Tests.antt =====
-- The laws of the stats at concrete inputs, with whole numbers for float64.
use mine_and_die.Prelude.{ℕ, List, [], ◌∷◌, false, ◌≡◌, refl, lookup, ◌≢◌, arith, ap}
use mine_and_die.Prelude.Int.{ℤ, pos, negsuc, ltb_ℤ}
use mine_and_die.Prelude.Float.{whole_numbers}
use mine_and_die.Stats.Types.{
  PerStat, SourceKey, SourceKey-discrete, LayerSource, StatDelta, Sources, Component,
  layer_temporary,
}
use mine_and_die.Stats.{layer_stack, new_component, new_stat_delta, resolve}
use mine_and_die.Stats.Coherent.{IsCoherent, Call, on_apply, on_resolve, run, fresh_totals}
use mine_and_die.Stats.Coherent.Resolve.{run-IsCoherent, resolve-fresh, resolve-resolve, live}
use mine_and_die.Stats.Formulas.{compute_derived}
use mine_and_die.Stats.Bounds.{IsOrdered, IsBetween, compute_derived-bounds}
use mine_and_die.Stats.Coherent.Order.{layer_stack-order}

abbrev base : PerStat ℤ
base = record { might = pos 12; resonance = pos 10; focus = pos 10; speed = pos 11 }

abbrev haste_key : SourceKey
haste_key = record { kind = 2; id = "haste" }

abbrev ring_key : SourceKey
ring_key = record { kind = 3; id = "ring" }

abbrev haste : StatDelta ℤ
haste = record (new_stat_delta whole_numbers) {
  add = record { might = pos 0; resonance = pos 0; focus = pos 0; speed = pos 5 };
}

abbrev calls : List (Call whole_numbers)
calls =
    on_resolve 3
    ∷ on_apply (record {
      layer = layer_temporary;
      source = haste_key;
      delta = haste;
      expires_at_tick = 5;
      remove = false;
    })
    ∷ on_resolve 4
    ∷ []

abbrev hasted : Component ℤ
hasted = run whole_numbers calls (new_component whole_numbers base)

run-IsCoherent_example : IsCoherent whole_numbers hasted
run-IsCoherent_example = run-IsCoherent whole_numbers base calls

resolve-fresh_example :
    let c' = resolve whole_numbers 5 hasted in
    (c'.totals ≡ fresh_totals whole_numbers (live whole_numbers 5 hasted.sources))
    × (c'.derived ≡ compute_derived whole_numbers c'.totals)
    × (c'.sources ≡ live whole_numbers 5 hasted.sources)
resolve-fresh_example =
    resolve-fresh whole_numbers 5 hasted (run-IsCoherent whole_numbers base calls)

resolve-resolve_example :
    resolve whole_numbers 5 (resolve whole_numbers 5 hasted) ≡ resolve whole_numbers 5 hasted
resolve-resolve_example = resolve-resolve whole_numbers 5 hasted

abbrev source : ℕ → LayerSource ℤ
source expires = record { delta = haste; expires_at_tick = expires }

abbrev one_way : Sources ℤ
one_way = (haste_key, source 5) ∷ (ring_key, source 9) ∷ []

abbrev other_way : Sources ℤ
other_way = (ring_key, source 9) ∷ (haste_key, source 5) ∷ []

keys_ne : haste_key ≢ ring_key
keys_ne e = absurd (omega (arith, ap (λ (k : SourceKey). k.kind) e))

swapped :
    (k : SourceKey) → lookup SourceKey-discrete k one_way ≡ lookup SourceKey-discrete k other_way
unfolding lookup
swapped k = ground (arith, keys_ne)

layer_stack-order_example :
    layer_stack whole_numbers 1 one_way ≡ layer_stack whole_numbers 1 other_way
unfolding lookup
layer_stack-order_example =
    layer_stack-order whole_numbers 1 one_way other_way (ground (arith, keys_ne), (refl, tt))
      (ground (arith, keys_ne), (refl, tt)) swapped

not_below_itself : (x : ℤ) → ltb_ℤ x x ≡ false
not_below_itself (pos n) = ground arith
not_below_itself (negsuc n) = ground arith

whole_numbers-IsOrdered : IsOrdered whole_numbers
whole_numbers-IsOrdered = record {
  irrefl = not_below_itself;
  accuracy = refl;
  evasion = refl;
  rate = refl;
  scalar = refl;
  unit = refl;
}

compute_derived-bounds_example :
    let d = compute_derived whole_numbers base in
    IsBetween whole_numbers (pos 0) (pos 10) d.damage_scalar_physical
    × IsBetween whole_numbers (pos 0) (pos 10) d.damage_scalar_magical
    × IsBetween whole_numbers (pos 0) (pos 0) d.accuracy
    × IsBetween whole_numbers (pos 0) (pos 0) d.evasion
    × IsBetween whole_numbers (pos 0) (pos 5) d.cast_speed
    × IsBetween whole_numbers (pos 0) (pos 5) d.cooldown_rate
    × IsBetween whole_numbers (pos 0) (pos 1) d.stagger_resist
compute_derived-bounds_example = compute_derived-bounds whole_numbers whole_numbers-IsOrdered base
