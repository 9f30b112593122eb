-- ===== src/Feed/Accepted.antt =====
-- server/simulation.go and server/internal/journal/journal.go: the journal records every event of an
-- effect manager, with the number that the manager gave it.
use mine_and_die.Prelude.{
  ℕ, suc, ◌+◌, ◌^◌, ◌<◌, ◌≡◌, ◌≢◌, refl, sym, ap, ◌∙◌, subst, Bool, true, false, ◌&&◌, ◌||◌, List,
  [], ◌∷◌, some, String, str_dec, ite, if_pos, if_neg, ltb, length, lookup, All, arith,
}
use mathlib.Core.Option
use mine_and_die.Journal.State.{Journal}
use mine_and_die.Journal.Effects.Accept.{
  Running, Took, Grew, record_effect_update-Took, record_effect_end-Took,
}
use mine_and_die.Journal.Effects.Accept.Spawn.{record_effect_spawn-Took}
use mine_and_die.Journal.Batches.{drain_effect_events}
use mine_and_die.Journal.Batches.Untouched.{drain_effect_events-Running}
use mine_and_die.Effects.Manager.{LifecycleEvent, spawned, updated, ended}
use mine_and_die.Effects.Manager.Log.{
  event_id, event_seq, is_end, numbers, late, end_weight, nth_seq,
}
use mine_and_die.Feed.Numbers.{seqs_from, head_number, positive, nonzero, above}
use mine_and_die.Feed.{
  Step, records, drains, events_of, noted, record_lifecycle_event, record_all, spawn_in, update_in,
  end_in,
}

abbrev pub is_spawn : LifecycleEvent → Bool
is_spawn (spawned e) = true
is_spawn (updated e) = false
is_spawn (ended e) = false

-- The first event of `id` is a spawn, if none was `seen`.
abbrev pub introduced : String → Bool → List LifecycleEvent → Bool
introduced id seen [] = true
introduced id seen (e ∷ es) =
    ite (str_dec (event_id e) id) ((seen || is_spawn e) && introduced id true es)
      (introduced id seen es)

-- The next event of an effect has the next number, comes before any end, and is a spawn if it is
-- the first.
record Next (e : LifecycleEvent) (es : List LifecycleEvent) (counted over : ℕ) : Type 0 where
  pub seq : event_seq e ≡ nth_seq (suc counted)
  pub more : ℕ
  pub nums : numbers (event_id e) es ≡ seqs_from (suc counted) more
  pub open_still : over ≡ 0
  pub in_time : late (event_id e) (end_weight (event_id e) e) es ≡ 0
  pub spawn_first : (ltb 0 counted || is_spawn e) ≡ true
  pub first : introduced (event_id e) true es ≡ true

-- Events of other instances do not count.
same_late :
    (id : String) (e : LifecycleEvent) (es : List LifecycleEvent) (over : ℕ)
    → event_id e ≢ id
    → late id over (e ∷ es) ≡ 0
    → late id over es ≡ 0
unfolding late
same_late id e es over n h =
    let none_more : over ≡ over + end_weight id e = ground arith in
    ap (λ (k : ℕ). late id k es) none_more ∙ omega (arith, h)

module _ {D P : Type 0} where
  -- What the journal knows of an effect before the events `es`: so many of its events were recorded,
  -- and so many of them were ends.
  pub record Ready (id : String) (j : Journal D P) (es : List LifecycleEvent) : Type 0 where
    pub counted : ℕ
    pub over : ℕ
    pub rest : ℕ
    pub nums : numbers id es ≡ seqs_from counted rest
    pub in_time : late id over es ≡ 0
    pub first : introduced id (ltb 0 counted) es ≡ true
    pub bound : counted + length es < 2 ^ 63
    pub known : 0 < counted → over ≡ 0 → lookup str_dec id j.effect_seq ≡ some (nth_seq counted)
    pub running : over ≡ 0 → Running id j

  Ready-Next :
      (e : LifecycleEvent) (es : List LifecycleEvent) (j : Journal D P)
      (r : Ready (event_id e) j (e ∷ es))
      → Next e es r.counted r.over
  unfolding numbers late
  Ready-Next e es j r =
      let id = event_id e in
      let h = head_number r.counted r.rest (event_seq e) (numbers id es) (
        sym (if_pos (str_dec id id) refl (event_seq e ∷ numbers id es) (numbers id es)) ∙ r.nums) in
      let tail : late id (r.over + end_weight id e) es ≡ 0 = omega (arith, r.in_time) in
      let o : r.over ≡ 0 = ground (arith, r.in_time) in
      record {
        seq = h.1;
        more = h.0;
        nums = h.2;
        open_still = o;
        in_time = ap (λ (n : ℕ). late id n es) (omega arith) ∙ tail;
        spawn_first = ground (arith, r.first);
        first = ground (arith, r.first);
      }

  -- An event that is next is recorded as it is.
  pub took :
      (e : LifecycleEvent) (es : List LifecycleEvent) (j : Journal D P)
      (r : Ready (event_id e) j (e ∷ es))
      → event_id e ≢ ""
      → ((record_lifecycle_event e j).1 ≡ some e)
        × Took (event_id e) (event_seq e) (is_end e) j (record_lifecycle_event e j).0
        × Grew (spawn_in e) (update_in e) (end_in e) j (record_lifecycle_event e j).0
  unfolding record_lifecycle_event
  took (spawned e) es j r n =
      let x = Ready-Next (spawned e) es j r in
      let t =
        record_effect_spawn-Took e j n (positive r.counted e.seq x.seq (omega (arith, r.bound))) in
      (ap (Option.map spawned) t.0, t.1, t.2)
  took (updated e) es j r n =
      let x = Ready-Next (updated e) es j r in
      let c : 0 < r.counted = ground (arith, x.spawn_first) in
      let t =
        record_effect_update-Took e j (nth_seq r.counted) n (r.known c x.open_still)
          (nonzero r.counted c (omega (arith, r.bound))) (r.running x.open_still)
          (positive r.counted e.seq x.seq (omega (arith, r.bound)))
          (above r.counted e.seq x.seq (omega (arith, r.bound))) in
      (ap (Option.map updated) t.0, t.1, t.2)
  took (ended e) es j r n =
      let x = Ready-Next (ended e) es j r in
      let c : 0 < r.counted = ground (arith, x.spawn_first) in
      let t =
        record_effect_end-Took e j (nth_seq r.counted) n (r.known c x.open_still)
          (nonzero r.counted c (omega (arith, r.bound)))
          (positive r.counted e.seq x.seq (omega (arith, r.bound)))
          (above r.counted e.seq x.seq (omega (arith, r.bound))) in
      (ap (Option.map ended) t.0, t.1, t.2)

  own_Ready :
      (e : LifecycleEvent) (es : List LifecycleEvent) (j k : Journal D P)
      (r : Ready (event_id e) j (e ∷ es))
      → Took (event_id e) (event_seq e) (is_end e) j k
      → Ready (event_id e) k es
  own_Ready e es j k r t =
      let x = Ready-Next e es j r in
      let id = event_id e in
      let seen : ltb 0 (suc r.counted) ≡ true = ground arith in
      record {
        counted = suc r.counted;
        over = end_weight id e;
        rest = x.more;
        nums = x.nums;
        in_time = x.in_time;
        first = ap (λ b. introduced id b es) seen ∙ x.first;
        bound = omega (arith, r.bound);
        known = λ c o.
            t.cursors id
            ∙ if_pos (str_dec id id) refl (some (event_seq e)) (lookup str_dec id j.effect_seq)
            ∙ ap some x.seq;
        running = λ o. t.running id (ground (arith, o)) (r.running x.open_still);
      }

  other_Ready :
      (id : String) (e : LifecycleEvent) (es : List LifecycleEvent) (j k : Journal D P)
      → id ≢ event_id e
      → Ready id j (e ∷ es)
      → Took (event_id e) (event_seq e) (is_end e) j k
      → Ready id k es
  unfolding numbers late
  other_Ready id e es j k n r t =
      let away : event_id e ≢ id = λ p. n (sym p) in
      record {
        counted = r.counted;
        over = r.over;
        rest = r.rest;
        nums =
            sym
              (if_neg (str_dec (event_id e) id) away (event_seq e ∷ numbers id es) (numbers id es))
            ∙ r.nums;
        in_time = same_late id e es r.over away r.in_time;
        first = ground (arith, r.first);
        bound = omega (arith, r.bound);
        known = λ c o.
            t.cursors id
            ∙ if_neg (str_dec id (event_id e)) n (some (event_seq e))
                (lookup str_dec id j.effect_seq)
            ∙ r.known c o;
        running = λ o. t.running id (ground arith) (r.running o);
      }

  pub drained_Ready :
      (id : String) (es : List LifecycleEvent) (j : Journal D P)
      → Ready id j es
      → Ready id (drain_effect_events j).0 es
  drained_Ready id es j r = record {
    counted = r.counted;
    over = r.over;
    rest = r.rest;
    nums = r.nums;
    in_time = r.in_time;
    first = r.first;
    bound = r.bound;
    known = λ c o. (drain_effect_events-Running id j (r.running o)).1 ∙ r.known c o;
    running = λ o. (drain_effect_events-Running id j (r.running o)).0;
  }

  pub next_Ready :
      (e : LifecycleEvent) (es : List LifecycleEvent) (j k : Journal D P)
      → ((id : String) → Ready id j (e ∷ es))
      → Took (event_id e) (event_seq e) (is_end e) j k
      → (id : String) → Ready id k es
  next_Ready e es j k r t id = elim (str_dec id (event_id e)) [
    | yes p ↦ subst (λ i. Ready i k es) (sym p) (own_Ready e es j k (r (event_id e)) t)
    | no a ↦ other_Ready id e es j k a (r id) t
  ]

  pub all_recorded :
      (steps : List Step) (j : Journal D P)
      → All (λ e. event_id e ≢ "") (events_of steps)
      → ((id : String) → Ready id j (events_of steps))
      → record_all steps j ≡ events_of steps
  unfolding record_all
  all_recorded [] j n r = refl
  all_recorded (drains ∷ steps) j n r =
      all_recorded steps (drain_effect_events j).0 n
        (λ id. drained_Ready id (events_of steps) j (r id))
  all_recorded (records e ∷ steps) j n r =
      let es = events_of steps in
      let t = took e es j (r (event_id e)) n.0 in
      let k = (record_lifecycle_event e j).0 in
      ap (λ o. noted o (record_all steps k)) t.0
      ∙ ap (◌∷◌ e) (all_recorded steps k n.1 (next_Ready e es j k r t.1))
