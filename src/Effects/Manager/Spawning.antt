-- ===== src/Effects/Manager/Spawning.antt =====
-- server/internal/world/effects/manager.go, `RunTick`: the loops over the drained intents and over the
-- new instances.
use mine_and_die.Prelude.{
  ℕ, suc, ◌+◌, ◌%◌, ◌^◌, ◌<◌, ◌≤◌, ◌≡◌, ◌≢◌, refl, sym, ap, ◌∙◌, subst, List, [], ◌∷◌, String,
  str_dec, ite, option_cases, count, length, All, arith, lookup_or, lookup_or-insert, if_pos,
  if_neg,
}
use mine_and_die.Prelude.Int.{ℤ, pos}
use mine_and_die.Journal.Contract.{EffectInstance}
use mine_and_die.Effects.Instances.{EffectIntent, instantiate, instantiate-id}
use mine_and_die.Effects.Manager.{Manager, ManagerConfig, Sink, Shuffle, joined, spawn_all}
use mine_and_die.Effects.Manager.Log.{nth_seq, first_seqs}
use mine_and_die.Effects.Manager.Entries.{keys, count-insert, All-insert}
use mine_and_die.Effects.Manager.Tracks.{view, IsLive, IsSound, IsLive-IsSound}
use mine_and_die.Effects.Manager.Valid.{
  invoke_on_spawn-id, IsNaming, KeepsIds, Keyed, output, IsFresh, Valid,
}

module _ {F R Y W : Type 0} (cfg : ManagerConfig F R Y W) (keeps : KeepsIds cfg) (name : ℕ → String)
    (naming : IsNaming name) (shuffle : Shuffle) (sink : Sink) where
  -- The number of the next id, which is given to a new instance.
  module _ (m : Manager F R Y W) (v : Valid name m sink)
      (room : m.next_instance_id + 1 < 2 ^ 64) where
    abbrev advanced : Manager F R Y W
    advanced = record m { next_instance_id = (m.next_instance_id + 1) % 2 ^ 64 }

    next-eq : (m.next_instance_id + 1) % 2 ^ 64 ≡ m.next_instance_id + 1
    next-eq = omega arith

    advanced-Valid : Valid name advanced sink
    advanced-Valid = record {
      keyed = v.keyed;
      distinct = v.distinct;
      live = v.live;
      sound = v.sound;
      fresh = λ n h l.
          let f = v.fresh n (omega (arith, next-eq)) l in
          record {
            no_key = f.no_key;
            no_number = f.no_number;
            no_end = f.no_end;
            none_late = f.none_late;
          };
    }

    module _ (tick now : ℤ) (inst : EffectInstance)
        (e : inst.id ≡ name (m.next_instance_id + 1)) where
      abbrev after : Manager F R Y W
      after = (joined cfg name shuffle tick now inst advanced).0

      unused : IsFresh inst.id m sink
      unused =
          subst (λ j. IsFresh j m sink) (sym e)
            (v.fresh (m.next_instance_id + 1) (omega arith) room)

      keys-after :
          (j : String)
          → count str_dec j (keys after.instances)
            ≡ count str_dec j (keys m.instances) + ite (str_dec j inst.id) 1 0
      keys-after j =
          count-insert j inst.id (joined cfg name shuffle tick now inst advanced).1 m.instances
            unused.no_key

      seq-after :
          (j : String)
          → lookup_or str_dec (pos 0) j after.seq_by_instance
            ≡ ite (str_dec j inst.id) (pos 0) (lookup_or str_dec (pos 0) j m.seq_by_instance)
      seq-after j = lookup_or-insert str_dec (pos 0) inst.id j (pos 0) m.seq_by_instance

      after-own : IsLive (view inst.id (output after sink))
      unfolding nth_seq first_seqs
      after-own = record {
        length = 0;
        next =
            seq-after inst.id
            ∙ if_pos (str_dec inst.id inst.id) refl (pos 0)
                (lookup_or str_dec (pos 0) inst.id m.seq_by_instance);
        counted = unused.no_number;
        unended = unused.no_end;
        in_time = unused.none_late;
      }

      after-other : (j : String) → j ≢ inst.id → view j (output after sink) ≡ view j (output m sink)
      after-other j n =
          let s =
            seq-after j
            ∙ if_neg (str_dec j inst.id) n (pos 0)
                (lookup_or str_dec (pos 0) j m.seq_by_instance) in
          λ i. record (view j (output m sink)) { seq = s i }

      after-Valid : Valid name after sink
      after-Valid = record {
        keyed =
            All-insert Keyed inst.id (joined cfg name shuffle tick now inst advanced).1 m.instances
              (
                sym (invoke_on_spawn-id cfg keeps tick now inst m.surroundings),
                λ p. naming.named (m.next_instance_id + 1) (sym e ∙ p),
              )
              v.keyed;
        distinct = λ j. ground (arith, keys-after j, v.distinct j, unused.no_key);
        live = λ j h. elim (str_dec j inst.id) [
          | yes p ↦ subst (λ k. IsLive (view k (output after sink))) (sym p) after-own
          | no n ↦ subst IsLive (sym (after-other j n)) (v.live j (ground (arith, keys-after j)))
        ];
        sound = λ j. elim (str_dec j inst.id) [
          | yes p ↦
              subst (λ k. IsSound (view k (output after sink))) (sym p)
                (IsLive-IsSound (view inst.id (output after sink)) after-own)
          | no n ↦ subst IsSound (sym (after-other j n)) (v.sound j)
        ];
        fresh = λ n h l.
            let f = v.fresh n (omega (arith, next-eq)) l in
            let far : name n ≢ inst.id = λ p.
              absurd
                (omega (arith, naming.injective n (m.next_instance_id + 1) (p ∙ e), next-eq)) in
            record {
              no_key = ground (arith, keys-after (name n), f.no_key);
              no_number = f.no_number;
              no_end = f.no_end;
              none_late = f.none_late;
            };
      }

  abbrev Known : Manager F R Y W → EffectInstance → Type 0
  Known m inst = (0 < count str_dec inst.id (keys m.instances)) × (inst.id ≢ "")

  -- What the loop over the intents leaves.
  pub record Spawned (count_left : ℕ) (m : Manager F R Y W)
      (r : Manager F R Y W × List EffectInstance) : Type 0 where
    pub valid : Valid name r.0 sink
    pub known : All (Known r.0) r.1
    pub kept :
        (j : String) → count str_dec j (keys m.instances) ≤ count str_dec j (keys r.0.instances)
    pub next_le : r.0.next_instance_id ≤ m.next_instance_id + count_left
    pub queue : r.0.intent_queue ≡ m.intent_queue

  pub spawn_all-Spawned :
      (tick now : ℤ) (intents : List EffectIntent) (m : Manager F R Y W)
      → Valid name m sink
      → m.next_instance_id + length intents < 2 ^ 64
      → Spawned (length intents) m (spawn_all cfg name shuffle tick now intents m)
  unfolding spawn_all
  spawn_all-Spawned tick now [] m v h = record {
    valid = v;
    known = tt;
    kept = λ j. omega arith;
    next_le = omega arith;
    queue = refl;
  }
  spawn_all-Spawned tick now (intent ∷ rest) m v h =
      let n = (m.next_instance_id + 1) % 2 ^ 64 in
      let room : m.next_instance_id + 1 < 2 ^ 64 = omega arith in
      let eq = next-eq m v room in
      let m' = advanced m v room in
      option_cases (Spawned (suc (length rest)) m)
        (instantiate cfg.definitions (name n) intent tick)
        (spawn_all cfg name shuffle tick now rest m')
        (λ inst.
          let j = joined cfg name shuffle tick now inst m' in
          let r = spawn_all cfg name shuffle tick now rest j.0 in (r.0, j.1 ∷ r.1))
        (λ _.
          let s =
            spawn_all-Spawned tick now rest m' (advanced-Valid m v room) (omega (arith, eq)) in
          record {
            valid = s.valid;
            known = s.known;
            kept = s.kept;
            next_le = omega (arith, s.next_le, eq);
            queue = s.queue;
          })
        (λ inst e.
          let id : inst.id ≡ name (m.next_instance_id + 1) =
            instantiate-id cfg.definitions (name n) intent tick inst e ∙ ap name eq in
          let j = joined cfg name shuffle tick now inst m' in
          let s =
            spawn_all-Spawned tick now rest j.0 (after-Valid m v room tick now inst id)
              (omega (arith, eq)) in
          let same = invoke_on_spawn-id cfg keeps tick now inst m.surroundings in
          record {
            valid = s.valid;
            known = (
              (
                ground (arith, s.kept j.1.id, keys-after m v room tick now inst id j.1.id, same),
                λ p. naming.named (m.next_instance_id + 1) (sym id ∙ sym same ∙ p),
              ),
              s.known,
            );
            kept = λ k. omega (arith, s.kept k, keys-after m v room tick now inst id k);
            next_le = omega (arith, s.next_le, eq);
            queue = s.queue;
          })
