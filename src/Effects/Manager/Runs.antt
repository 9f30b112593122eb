-- ===== src/Effects/Manager/Runs.antt =====
-- server/internal/world/effects/manager.go: any sequence of calls on a new manager.
use mine_and_die.Prelude.{
  ℕ, suc, ◌+◌, ◌^◌, ◌<◌, ◌≤◌, ◌≡◌, refl, sym, ap, ◌∙◌, ◌≢◌, All, count, Bool, true, List, [], ◌∷◌,
  ◌++◌, String, str_dec, delete, length, length-append, arith,
}
use mine_and_die.Prelude.Int.{ℤ, pos, add_int64}
use mine_and_die.Effects.Registry.{Registry}
use mine_and_die.Effects.Instances.{EffectIntent}
use mine_and_die.Effects.Manager.{
  Manager, ManagerConfig, Sink, Shuffle, LifecycleEvent, new_manager, enqueue_intent,
  reset_pending_intents, spawn_all, released, clean_up, run_tick,
}
use mine_and_die.Effects.Manager.Log.{numbers, late, ends, first_seqs}
use mine_and_die.Effects.Manager.Tracks.{View}
use mine_and_die.Effects.Manager.Entries.{keys}
use mine_and_die.Journal.Contract.{EffectInstance}
use mine_and_die.Effects.Manager.Valid.{IsNaming, IsIteration, KeepsIds, Keyed, Valid}
use mine_and_die.Effects.Manager.Spawning.{spawn_all-Spawned}
use mine_and_die.Effects.Manager.Numbered.{ticked, ticked-Valid, view_away}

-- The calls; a tick has its callback or not.
pub data Call : Type 0 where
  enqueues : EffectIntent → Call
  resets : Call
  ticks : ℤ → ℤ → Bool → Call

abbrev pub intents_in : List Call → ℕ
intents_in [] = 0
intents_in (enqueues intent ∷ calls) = suc (intents_in calls)
intents_in (resets ∷ calls) = intents_in calls
intents_in (ticks tick now listening ∷ calls) = intents_in calls

-- The events of `id` carry the numbers of a counter from 1 on, and none follows an end.
abbrev Numbered : String → List LifecycleEvent → Type 0
Numbered id events = (k : ℕ) × (numbers id events ≡ first_seqs k) × (late id 0 events ≡ 0)

no_empty_key : (l : List (String × EffectInstance)) → All Keyed l → count str_dec "" (keys l) ≡ 0
no_empty_key [] h = refl
no_empty_key (e ∷ l) h =
    let n : "" ≢ e.0 = λ p. h.0.1 (sym p) in ground (arith, no_empty_key l h.1, n)

module _ {F R Y W : Type 0} (cfg : ManagerConfig F R Y W) (name : ℕ → String)
    (shuffle : Shuffle) where
  -- The events that the calls emit, after those of `sink`.
  unfoldable pub run : List Call → Manager F R Y W → List LifecycleEvent → List LifecycleEvent
  unfolding enqueue_intent reset_pending_intents run_tick
  run [] m events = events
  run (enqueues intent ∷ calls) m events = run calls (enqueue_intent intent m) events
  run (resets ∷ calls) m events = run calls (reset_pending_intents m) events
  run (ticks tick now listening ∷ calls) m events =
      let r =
        run_tick cfg name shuffle tick now m (record { listening = listening; events = events }) in
      run calls r.0 r.1.events

  clean_up-next :
      (ids : List String) (m : Manager F R Y W)
      → (clean_up cfg name shuffle ids m).next_instance_id ≡ m.next_instance_id
  unfolding clean_up
  clean_up-next [] m = refl
  clean_up-next (id ∷ ids) m = clean_up-next ids (record m {
    instances = delete str_dec id m.instances;
    seq_by_instance = delete str_dec id m.seq_by_instance;
    surroundings = released cfg name shuffle id m.surroundings;
  })

  clean_up-queue :
      (ids : List String) (m : Manager F R Y W)
      → (clean_up cfg name shuffle ids m).intent_queue ≡ m.intent_queue
  unfolding clean_up
  clean_up-queue [] m = refl
  clean_up-queue (id ∷ ids) m = clean_up-queue ids (record m {
    instances = delete str_dec id m.instances;
    seq_by_instance = delete str_dec id m.seq_by_instance;
    surroundings = released cfg name shuffle id m.surroundings;
  })

module _ {F R Y W : Type 0} (cfg : ManagerConfig F R Y W) (keeps : KeepsIds cfg) (name : ℕ → String)
    (naming : IsNaming name) (shuffle : Shuffle) (iteration : IsIteration shuffle) where
  record Kept (m : Manager F R Y W) (r : Manager F R Y W × Sink) : Type 0 where
    pub valid : Valid name r.0 r.1
    pub next_le : r.0.next_instance_id ≤ m.next_instance_id + length m.intent_queue
    pub queue : r.0.intent_queue ≡ []
    pub unnamed : numbers "" r.1.events ≡ []

  run_tick-Kept :
      (tick now : ℤ) (m : Manager F R Y W) (sink : Sink)
      → Valid name m sink
      → m.next_instance_id + length m.intent_queue < 2 ^ 64
      → numbers "" sink.events ≡ []
      → Kept m (run_tick cfg name shuffle tick now m sink)
  unfolding run_tick
  run_tick-Kept tick now m sink v h u =
      let m0 : Manager F R Y W = record m { last_tick_processed = tick; intent_queue = [] } in
      let v0 : Valid name m0 sink = record {
        keyed = v.keyed;
        distinct = v.distinct;
        live = v.live;
        sound = v.sound;
        fresh = λ n l b.
            let f = v.fresh n l b in
            record {
              no_key = f.no_key;
              no_number = f.no_number;
              no_end = f.no_end;
              none_late = f.none_late;
            };
      } in
      let r = spawn_all cfg name shuffle tick now m.intent_queue m0 in
      let s =
        spawn_all-Spawned cfg keeps name naming shuffle sink tick now m.intent_queue m0 v0 h in
      let t =
        ticked cfg keeps name naming shuffle iteration r.0 sink s.valid r.1 s.known tick now in
      let total = add_int64 r.0.total_drained (pos (length m.intent_queue)) in
      let last : Manager F R Y W = record r.0 {
        instances = t.instances;
        seq_by_instance = t.output.seqs;
        surroundings = t.surroundings;
        total_drained = total;
      } in
      record {
        valid =
            ticked-Valid cfg keeps name naming shuffle iteration r.0 sink s.valid r.1 s.known tick
              now total;
        next_le = omega (arith, clean_up-next cfg name shuffle t.over last, s.next_le);
        queue = clean_up-queue cfg name shuffle t.over last ∙ s.queue;
        unnamed =
            ap (λ (w : View). w.numbers)
              (view_away cfg keeps name naming shuffle iteration r.0 sink s.valid r.1 s.known tick
                now "" (no_empty_key r.0.instances s.valid.keyed))
            ∙ u;
      }

  -- The invariant does not read whether there is a callback, nor the queue or the totals.
  moved_on :
      (m : Manager F R Y W) (queue : List EffectIntent) (total : ℤ) (was listening : Bool)
      (events : List LifecycleEvent)
      → Valid name m (record { listening = was; events = events })
      → Valid name
          (record m { intent_queue = queue; total_enqueued = total })
          (record { listening = listening; events = events })
  moved_on m queue total was listening events v = record {
    keyed = v.keyed;
    distinct = v.distinct;
    live = v.live;
    sound = v.sound;
    fresh = λ n h l.
        let f = v.fresh n h l in
        record {
          no_key = f.no_key;
          no_number = f.no_number;
          no_end = f.no_end;
          none_late = f.none_late;
        };
  }

  run_numbers :
      (calls : List Call) (m : Manager F R Y W) (events : List LifecycleEvent) (listening : Bool)
      → Valid name m (record { listening = listening; events = events })
      → m.next_instance_id + length m.intent_queue + intents_in calls < 2 ^ 64
      → numbers "" events ≡ []
      → (id : String)
      → Numbered id (run cfg name shuffle calls m events)
        × (numbers "" (run cfg name shuffle calls m events) ≡ [])
  unfolding run
  run_numbers [] m events was v h u id =
      (((v.sound id).length, (v.sound id).counted, (v.sound id).in_time), u)
  run_numbers (enqueues intent ∷ calls) m events was v h u id =
      run_numbers calls (enqueue_intent intent m) events was
        (moved_on m (m.intent_queue ++ intent ∷ []) (add_int64 m.total_enqueued (pos 1)) was was
          events v)
        (omega (arith, length-append m.intent_queue (intent ∷ []))) u id
  run_numbers (resets ∷ calls) m events was v h u id =
      run_numbers calls (reset_pending_intents m) events was
        (moved_on m [] m.total_enqueued was was events v) (omega arith) u id
  run_numbers (ticks tick now listening ∷ calls) m events was v h u id =
      let k =
        run_tick-Kept tick now m (record { listening = listening; events = events })
          (moved_on m m.intent_queue m.total_enqueued was listening events v) (omega arith) u in
      let r =
        run_tick cfg name shuffle tick now m (record { listening = listening; events = events }) in
      run_numbers calls r.0 r.1.events r.1.listening k.valid
        (omega (arith, k.next_le, ap (λ (q : List EffectIntent). length q) k.queue)) k.unnamed id

  new_manager-Valid :
      (registry : Registry F R) (world : W)
      → Valid name (new_manager {Y = Y} registry world) (record { listening = true; events = [] })
  unfolding new_manager numbers ends late first_seqs
  new_manager-Valid registry world = record {
    keyed = tt;
    distinct = λ j. omega arith;
    live = λ j h. absurd (omega arith);
    sound = λ j. record { length = 0; counted = refl; in_time = refl };
    fresh = λ n h l. record { no_key = refl; no_number = refl; no_end = refl; none_late = refl };
  }

  -- Whatever calls a new manager gets, below 2^64 of them with an intent, and whatever its hooks do
  -- but for renaming their instance, where the ids made of different numbers are different and not
  -- empty, and in whatever order the instances are iterated: the events that it emits for an
  -- instance carry the numbers of a 64-bit counter from 1 on, in order and with none left out, and
  -- no event follows the end of its instance.
  pub run-numbered :
      (registry : Registry F R) (world : W) (calls : List Call)
      → intents_in calls < 2 ^ 64
      → (id : String)
      → (k : ℕ) × (numbers id (run cfg name shuffle calls (new_manager registry world) [])
          ≡ first_seqs k)
        × (late id 0 (run cfg name shuffle calls (new_manager registry world) []) ≡ 0)
  unfolding new_manager numbers
  run-numbered registry world calls h id =
      (run_numbers calls (new_manager registry world) [] true (new_manager-Valid registry world)
        (omega arith) refl id).0

  -- Every event carries the id of an instance.
  pub run-unnamed :
      (registry : Registry F R) (world : W) (calls : List Call)
      → intents_in calls < 2 ^ 64
      → numbers "" (run cfg name shuffle calls (new_manager registry world) []) ≡ []
  unfolding new_manager numbers
  run-unnamed registry world calls h =
      (run_numbers calls (new_manager registry world) [] true (new_manager-Valid registry world)
        (omega arith) refl "").1
