-- ===== src/Stats/Types.antt =====
-- server/stats: the data of the layers (stats.go). A float64 is a value of `F`.
use mine_and_die.Prelude.{ℕ, Bool, List, String, str_dec, ℕ_discrete, if◌then◌else◌, ◌==◌}

-- A value for each of the primary stats.
pub record PerStat {ℓ} (A : Type ℓ) : Type ℓ where
  pub might : A
  pub resonance : A
  pub focus : A
  pub speed : A

pub record DerivedSet (F : Type 0) : Type 0 where
  pub max_health : F
  pub max_mana : F
  pub damage_scalar_physical : F
  pub damage_scalar_magical : F
  pub accuracy : F
  pub evasion : F
  pub cast_speed : F
  pub cooldown_rate : F
  pub stagger_resist : F

-- The layers, by number, in the order of their precedence.
abbrev pub layer_base : ℕ
layer_base = 0

abbrev pub layer_permanent : ℕ
layer_permanent = 1

abbrev pub layer_equipment : ℕ
layer_equipment = 2

abbrev pub layer_temporary : ℕ
layer_temporary = 3

abbrev pub layer_environment : ℕ
layer_environment = 4

abbrev pub layer_admin : ℕ
layer_admin = 5

abbrev pub layer_count : ℕ
layer_count = 6

abbrev pub source_kind_archetype : ℕ
source_kind_archetype = 1

pub record SourceKey : Type 0 where
  pub kind : ℕ
  pub id : String

pub SourceKey-discrete : Discrete SourceKey
SourceKey-discrete = hlevel (ℕ_discrete, str_dec)

pub record OverrideValue (F : Type 0) : Type 0 where
  pub active : Bool
  pub value : F

pub record LayerStack (F : Type 0) : Type 0 where
  pub add : PerStat F
  pub mul : PerStat F
  pub override : PerStat (OverrideValue F)
  pub version : ℕ

pub record StatDelta (F : Type 0) : Type 0 where
  pub add : PerStat F
  pub mul : PerStat F
  pub override : PerStat (OverrideValue F)

pub record LayerSource (F : Type 0) : Type 0 where
  pub delta : StatDelta F
  pub expires_at_tick : ℕ

abbrev pub Sources : Type 0 → Type 0
Sources F = List (SourceKey × LayerSource F)

-- The layers and their sources by layer number. A layer with no entry and one with an empty map are
-- the same to the code.
pub record Component (F : Type 0) : Type 0 where
  pub layers : ℕ → LayerStack F
  pub sources : ℕ → Sources F
  pub totals : PerStat F
  pub derived : DerivedSet F
  pub dirty : Bool
  pub version : ℕ
  pub last_resolve_tick : ℕ

pub record CommandStatChange (F : Type 0) : Type 0 where
  pub layer : ℕ
  pub source : SourceKey
  pub delta : StatDelta F
  pub expires_at_tick : ℕ
  pub remove : Bool

-- A write to one place of an array or a map.
abbrev pub write {ℓ} : {A : Type ℓ} → (ℕ → A) → ℕ → A → ℕ → A
write f k v j = if j == k then v else f j

-- The loops over the stats.
abbrev pub zip {ℓ κ μ} :
    {A : Type ℓ} {B : Type κ} {C : Type μ} → (A → B → C) → PerStat A → PerStat B → PerStat C
zip f a b = record {
  might = f a.might b.might;
  resonance = f a.resonance b.resonance;
  focus = f a.focus b.focus;
  speed = f a.speed b.speed;
}

abbrev pub every {ℓ} : {A : Type ℓ} → A → PerStat A
every a = record { might = a; resonance = a; focus = a; speed = a }
