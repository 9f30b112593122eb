-- ===== src/Sim/Buffer.antt =====
-- server/internal/sim/command_buffer.go: the fixed ring of staged commands. Every method holds the
-- mutex from start to end, so one call is one step. A method is called on a constructed buffer,
-- never on nil. `blank` is the zero value that `make` fills the ring with.
pub mod Queue
pub mod Valid
pub mod Refine
mod Tests
use mine_and_die.Prelude.{
  ℕ, zero, suc, ◌+◌, ◌%◌, Bool, true, false, List, [], ◌∷◌, ◌++◌, Option, none, some, ite, length,
  get_or, set, replicate, String, ℕ_discrete, if◌then◌else◌,
}
use mine_and_die.Prelude.Int.{ℤ, pos, negsuc, ltb_ℤ}

abbrev pub occupancy_key : String
occupancy_key = "sim_command_buffer_occupancy"

abbrev pub overflow_key : String
overflow_key = "sim_command_buffer_overflow_total"

-- A call of the metrics interface.
pub data MetricCall : Type 0 where
  add : String → ℕ → MetricCall
  store : String → ℕ → MetricCall

-- `metrics` holds the calls made so far, oldest first; `none` stands for a nil interface.
pub record Buffer (A : Type 0) : Type 0 where
  pub slots : List A
  pub head : ℕ
  pub tail : ℕ
  pub count : ℕ
  pub metrics : Option (List MetricCall)

abbrev pub capacity_of : ℤ → ℕ
capacity_of (pos zero) = 1
capacity_of (pos (suc n)) = suc n
capacity_of (negsuc n) = 1

module _ {A : Type 0} where
  pub new_buffer : A → ℤ → Option (List MetricCall) → Buffer A
  new_buffer blank capacity metrics = record {
    slots = replicate (capacity_of capacity) blank;
    head = 0;
    tail = 0;
    count = 0;
    metrics = metrics;
  }

  note : Buffer A → MetricCall → Buffer A
  note b c = record b {
    metrics = elim b.metrics [ none ↦ none | some calls ↦ some (calls ++ (c ∷ [])) ];
  }

  store_occupancy : Buffer A → Buffer A
  unfolding note
  store_occupancy b = note b (store occupancy_key b.count)

  pub capacity : Buffer A → ℕ
  capacity b = length b.slots

  unfoldable pub len : Buffer A → ℕ
  len b = b.count

  -- The write and the two counters of a push that finds room.
  staged : A → Buffer A → Buffer A
  staged cmd b = record b {
    slots = set b.slots b.tail cmd;
    tail = (b.tail + 1) % length b.slots;
    count = b.count + 1;
  }

  pub push : A → Buffer A → Buffer A × Bool
  unfolding note store_occupancy staged
  push cmd b =
      ite (ℕ_discrete b.count (length b.slots)) (note b (add overflow_key 1), false)
        (store_occupancy (staged cmd b), true)

  -- The loop of `Drain` from its counter `i` on, with `n` rounds left.
  pub read_ring : A → List A → ℕ → ℕ → ℕ → List A
  read_ring blank slots head i zero = []
  read_ring blank slots head i (suc n) =
      get_or slots ((head + i) % length slots) blank ∷ read_ring blank slots head (i + 1) n

  pub drain : A → Buffer A → Buffer A × List A
  unfolding note store_occupancy read_ring
  drain blank b =
      ite (ℕ_discrete b.count 0) (b, [])
        (
          store_occupancy (record b { head = 0; tail = 0; count = 0 }),
          read_ring blank b.slots b.head 0 b.count,
        )

-- A call by a producer or by the consumer, and what it returns.
pub data Call (A : Type 0) : Type 0 where
  pushes : A → Call A
  drains : Call A
  lens : Call A

pub data Reply (A : Type 0) : Type 0 where
  pushed : Bool → Reply A
  drained : List A → Reply A
  sized : ℕ → Reply A

pub run : {A : Type 0} → A → Buffer A → List (Call A) → List (Reply A)
run blank b [] = []
run blank b (pushes x ∷ calls) = let (b', r) = push x b in pushed r ∷ run blank b' calls
run blank b (drains ∷ calls) = let (b', xs) = drain blank b in drained xs ∷ run blank b' calls
run blank b (lens ∷ calls) = sized (len b) ∷ run blank b calls
