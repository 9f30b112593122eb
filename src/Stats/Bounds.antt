-- ===== src/Stats/Bounds.antt =====
-- server/stats/formulas.go: the ranges of the derived values.
use mine_and_die.Prelude.{false, ◌≡◌, arith}
use mine_and_die.Prelude.Float.{Float64}
use mine_and_die.Stats.Types.{PerStat}
use mine_and_die.Stats.Formulas.{clamp, compute_damage_scalar, compute_derived}

module _ {F : Type 0} (fl : Float64 F) where
  open fl use {lit, lt}

  -- No float64 is below itself, and the literals of the formulas are in order.
  pub record IsOrdered : Type 0 where
    pub irrefl : (x : F) → lt x x ≡ false
    pub accuracy : lt (lit 99 2) (lit 0 0) ≡ false
    pub evasion : lt (lit 9 1) (lit 0 0) ≡ false
    pub rate : lt (lit 5 0) (lit 1 1) ≡ false
    pub scalar : lt (lit 10 0) (lit 1 1) ≡ false
    pub unit : lt (lit 1 0) (lit 0 0) ≡ false

  -- Neither below the one nor above the other, which a NaN is not either.
  abbrev pub IsBetween : F → F → F → Type 0
  IsBetween low high x = (lt x low ≡ false) × (lt high x ≡ false)

  clamp-IsBetween :
      (o : IsOrdered) (v low high : F)
      → lt high low ≡ false
      → IsBetween low high (clamp fl v low high)
  clamp-IsBetween o v low high h = ground (arith, h, o.irrefl low, o.irrefl high)

  -- Whatever the totals are, each derived value but the maximal health and mana stays in its range:
  -- it is not below the lower end and not above the upper one.
  pub compute_derived-bounds :
      (o : IsOrdered) (total : PerStat F)
      → let d = compute_derived fl total in
        IsBetween (lit 1 1) (lit 10 0) d.damage_scalar_physical
        × IsBetween (lit 1 1) (lit 10 0) d.damage_scalar_magical
        × IsBetween (lit 0 0) (lit 99 2) d.accuracy
        × IsBetween (lit 0 0) (lit 9 1) d.evasion
        × IsBetween (lit 1 1) (lit 5 0) d.cast_speed
        × IsBetween (lit 1 1) (lit 5 0) d.cooldown_rate
        × IsBetween (lit 0 0) (lit 1 0) d.stagger_resist
  unfolding compute_derived compute_damage_scalar
  compute_derived-bounds o total =
      let at = clamp-IsBetween o in
      (
        at _ (lit 1 1) (lit 10 0) o.scalar,
        at _ (lit 1 1) (lit 10 0) o.scalar,
        at _ (lit 0 0) (lit 99 2) o.accuracy,
        at _ (lit 0 0) (lit 9 1) o.evasion,
        at _ (lit 1 1) (lit 5 0) o.rate,
        at _ (lit 1 1) (lit 5 0) o.rate,
        at _ (lit 0 0) (lit 1 0) o.unit,
      )
