-- ===== src/Stats/Formulas.antt =====
-- server/stats/formulas.go: the values derived from the totals.
use mine_and_die.Prelude.{if◌then◌else◌}
use mine_and_die.Prelude.Float.{Float64}
use mine_and_die.Stats.Types.{PerStat, DerivedSet}

module _ {F : Type 0} (fl : Float64 F) where
  open fl use {lit, add, sub, mul, pow, lt}

  -- `clamp` of formulas.go.
  abbrev pub clamp : F → F → F → F
  clamp v min max = if lt v min then min else if lt max v then max else v

  unfoldable pub compute_damage_scalar : F → F → F
  compute_damage_scalar attribute coeff =
      clamp (add (lit 1 0) (mul coeff (sub (lit 1 0) (pow (lit 94 2) attribute)))) (lit 1 1)
        (lit 10 0)

  unfoldable pub compute_derived : PerStat F → DerivedSet F
  unfolding compute_damage_scalar
  compute_derived total =
      let top = lit 1000000000 0 in
      let might = clamp total.might (lit 0 0) top in
      let resonance = clamp total.resonance (lit 0 0) top in
      let focus = clamp total.focus (lit 0 0) top in
      let speed = clamp total.speed (lit 0 0) top in
      record {
        max_health = add (lit 0 0) (mul might (lit 5 0));
        max_mana = add (lit 45 0) (mul resonance (lit 35 1));
        damage_scalar_physical = compute_damage_scalar might (lit 12 2);
        damage_scalar_magical = compute_damage_scalar resonance (lit 14 2);
        accuracy = clamp (add (lit 75 2) (mul focus (lit 6 3))) (lit 0 0) (lit 99 2);
        evasion = clamp (add (lit 5 2) (mul speed (lit 5 3))) (lit 0 0) (lit 9 1);
        cast_speed = clamp (add (lit 1 0) (mul focus (lit 8 3))) (lit 1 1) (lit 5 0);
        cooldown_rate = clamp (add (lit 1 0) (mul speed (lit 6 3))) (lit 1 1) (lit 5 0);
        stagger_resist = clamp (add (lit 1 1) (mul might (lit 3 3))) (lit 0 0) (lit 1 0);
      }
