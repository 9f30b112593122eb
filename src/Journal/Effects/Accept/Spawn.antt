-- ===== src/Journal/Effects/Accept/Spawn.antt =====
-- server/internal/journal/journal.go: when a spawn is recorded with its own number.
use mine_and_die.Prelude.{
  ◌≡◌, ◌≢◌, refl, sym, ap, ◌∙◌, count, false, List, [], ◌∷◌, ◌++◌, append-nil, Option, none, some,
  String, str_dec, ite, ite_cases, if_neg, lookup, insert, lookup-insert, lookup-delete, subst,
  arith,
}
use mine_and_die.Prelude.Int.{ℤ, pos, ◌<ℤ◌}
use mine_and_die.Journal.Contract.{EffectSpawnEvent}
use mine_and_die.Journal.State.{Journal}
use mine_and_die.Journal.Effects.{
  clear_pending, record_effect_spawn, begin_spawn, assign_spawn_seq, set_cursor, note_event,
}
use mine_and_die.Journal.Effects.Accept.{Took, Grew}

count-clear_pending :
    (i id : String) (ids : List String)
    → count str_dec i ids ≡ 0
    → count str_dec i (clear_pending id ids) ≡ 0
unfolding clear_pending
count-clear_pending i id [] h = h
count-clear_pending i id (x ∷ xs) h =
    ite_cases (λ m. count str_dec i m ≡ 0) (str_dec x id) (clear_pending id xs)
      (x ∷ clear_pending id xs) (λ _. count-clear_pending i id xs (omega arith))
      (λ _. omega (arith, count-clear_pending i id xs (omega arith)))

module _ {D P : Type 0} where
  begun : (id : String) (j : Journal D P) → Took id (pos 0) false j (begin_spawn id j)
  unfolding begin_spawn set_cursor note_event
  begun id j = record {
    cursors = λ i. lookup-insert str_dec id i (pos 0) j.effect_seq;
    running = λ i _ h. record {
      recent = ground (arith, lookup-delete str_dec id i j.recently_ended, h.recent);
      waiting = count-clear_pending i id j.ended_ids h.waiting;
    };
  }

  begun-cursors :
      (id : String) (seq : ℤ) (j k : Journal D P) (i : String)
      → Took id (pos 0) false j k
      → lookup str_dec i (insert str_dec id seq k.effect_seq)
        ≡ ite (str_dec i id) (some seq) (lookup str_dec i j.effect_seq)
  begun-cursors id seq j k i t =
      ground (arith, lookup-insert str_dec id i seq k.effect_seq, t.cursors i)

  spawn_own :
      (id : String) (seq : ℤ) (j : Journal D P)
      → pos 0 <ℤ seq
      → assign_spawn_seq id seq j ≡ (set_cursor id seq j, seq)
  unfolding assign_spawn_seq
  spawn_own id seq j p = ground (arith, p)

  pub record_effect_spawn-Took :
      (e : EffectSpawnEvent) (j : Journal D P)
      → e.spawned.id ≢ ""
      → pos 0 <ℤ e.seq
      → ((record_effect_spawn e j).1 ≡ some e)
        × Took e.spawned.id e.seq false j (record_effect_spawn e j).0
        × Grew (e ∷ []) [] [] j (record_effect_spawn e j).0
  unfolding record_effect_spawn set_cursor begin_spawn note_event
  record_effect_spawn-Took e j n p =
      let id = e.spawned.id in
      let k = begin_spawn id j in
      let stored = λ (r : Journal D P × ℤ).
        let out : Journal D P × Option EffectSpawnEvent = (
          record r.0 { spawns = r.0.spawns ++ (record e { seq = r.1 }) ∷ [] },
          some (record e { seq = r.1 }),
        ) in
        out in
      let all : record_effect_spawn e j ≡ stored (set_cursor id e.seq k, e.seq) =
        if_neg (str_dec id "") n (j, none) (stored (assign_spawn_seq id e.seq k))
        ∙ ap stored (spawn_own id e.seq k p) in
      let t = begun id j in
      let last : Took id e.seq false j (stored (set_cursor id e.seq k, e.seq)).0 = record {
        cursors = λ i. begun-cursors id e.seq j k i t;
        running =
            λ i o h. let r = t.running i o h in record { recent = r.recent; waiting = r.waiting };
      } in
      (
        ap (λ (r : Journal D P × Option EffectSpawnEvent). r.1) all,
        subst (Took id e.seq false j)
            (sym (ap (λ (r : Journal D P × Option EffectSpawnEvent). r.0) all)) last,
        subst (Grew (e ∷ []) [] [] j)
            (sym (ap (λ (r : Journal D P × Option EffectSpawnEvent). r.0) all))
            (refl, sym (append-nil j.updates), sym (append-nil j.ends)),
      )
