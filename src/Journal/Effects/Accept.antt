-- ===== src/Journal/Effects/Accept.antt =====
-- server/internal/journal/journal.go: when an event is recorded with its own number, and what the
-- record does to the cursors.
pub mod Spawn
use mine_and_die.Prelude.{
  ◌≡◌, ◌≢◌, refl, sym, ap, ◌∙◌, count, Bool, true, false, ◌&&◌, List, [], ◌∷◌, ◌++◌, append-nil,
  Option, none, some, String, str_dec, ite, ite_cases, if_cases, if_neg, lookup, insert,
  lookup-insert, lookup-delete, count-append, subst, arith,
}
use mine_and_die.Prelude.Int.{ℤ, pos, leb_ℤ, ◌<ℤ◌, ◌-ℤ◌}
use mine_and_die.Journal.Contract.{EffectSpawnEvent, EffectUpdateEvent, EffectEndEvent}
use mine_and_die.Journal.State.{Journal}
use mine_and_die.Journal.Effects.{
  clear_pending, prune, prune_recently_ended, recently_ended_window, record_effect_spawn,
  record_effect_update, record_effect_end, begin_spawn, assign_spawn_seq, set_cursor, note_event,
  update_named, update_known, end_named, append_update, append_end, assign_seq, known_cursor,
}
use mine_and_die.Journal.Effects.Cursor.{
  SameEvents, SameEvents-trans, noted-SameEvents, prune-SameEvents,
}
use mine_and_die.Journal.Effects.Ended.{lookup-prune-none}

module _ {D P : Type 0} where
  -- Nothing of the effect has ended.
  pub record Running (i : String) (j : Journal D P) : Type 0 where
    pub recent : lookup str_dec i j.recently_ended ≡ none
    pub waiting : count str_dec i j.ended_ids ≡ 0

  -- The journal after an event of `id` with this number.
  pub record Took (id : String) (seq : ℤ) (final : Bool) (j r : Journal D P) : Type 0 where
    pub cursors :
        (i : String)
        → lookup str_dec i r.effect_seq
          ≡ ite (str_dec i id) (some seq) (lookup str_dec i j.effect_seq)
    pub running :
        (i : String) → (final && ite (str_dec i id) true false) ≡ false → Running i j → Running i r

  -- These events stand behind those that were staged before.
  abbrev pub Grew :
      List EffectSpawnEvent
      → List EffectUpdateEvent
      → List EffectEndEvent
      → Journal D P
      → Journal D P
      → Type 0
  Grew ss us es j r =
      (r.spawns ≡ j.spawns ++ ss) × (r.updates ≡ j.updates ++ us) × (r.ends ≡ j.ends ++ es)

  pruned-Running :
      (i : String) (tick : ℤ) (j : Journal D P)
      → Running i j
      → Running i (prune_recently_ended tick j)
  unfolding prune_recently_ended
  pruned-Running i tick j h =
      if_cases (Running i) (leb_ℤ tick (pos 0)) j
        (record j { recently_ended = prune (tick -ℤ recently_ended_window) j.recently_ended })
        (λ _. h)
        (λ _. record {
          recent = lookup-prune-none (tick -ℤ recently_ended_window) i j.recently_ended h.recent;
          waiting = h.waiting;
        })

  pruned-cursors :
      (tick : ℤ) (j : Journal D P) → (prune_recently_ended tick j).effect_seq ≡ j.effect_seq
  unfolding prune_recently_ended
  pruned-cursors tick j = ground arith

  noted-Running : (i : String) (j : Journal D P) → Running i j → Running i (note_event j)
  unfolding note_event
  noted-Running i j h = record { recent = h.recent; waiting = h.waiting }

  noted_cursors : (j : Journal D P) → (note_event j).effect_seq ≡ j.effect_seq
  unfolding note_event
  noted_cursors j = refl

  known_cursor-some :
      (id : String) (j : Journal D P) (last : ℤ)
      → lookup str_dec id j.effect_seq ≡ some last
      → last ≢ pos 0
      → known_cursor id j ≡ some last
  unfolding known_cursor
  known_cursor-some id j last c z = ground (arith, c, z)

  assign_seq-own :
      (id : String) (seq last : ℤ) (j : Journal D P)
      → pos 0 <ℤ seq
      → last <ℤ seq
      → assign_seq id seq last j ≡ (set_cursor id seq j, some seq)
  unfolding assign_seq
  assign_seq-own id seq last j p q = ground (arith, p, q)

  -- The journal in which an update or an end gets its number.
  abbrev ready : ℤ → Journal D P → Journal D P
  ready tick j = prune_recently_ended tick (note_event j)

  ready-Running : (i : String) (tick : ℤ) (j : Journal D P) → Running i j → Running i (ready tick j)
  ready-Running i tick j h = pruned-Running i tick (note_event j) (noted-Running i j h)

  ready-cursors : (tick : ℤ) (j : Journal D P) → (ready tick j).effect_seq ≡ j.effect_seq
  unfolding note_event
  ready-cursors tick j = pruned-cursors tick (note_event j)

  ready-SameEvents : (tick : ℤ) (j : Journal D P) → SameEvents j (ready tick j)
  ready-SameEvents tick j =
      SameEvents-trans (noted-SameEvents j).0 (prune-SameEvents tick (note_event j))

  set-Took :
      (id : String) (seq : ℤ) (tick : ℤ) (j : Journal D P) (us : List EffectUpdateEvent)
      → Took id seq false j (record (set_cursor id seq (ready tick j)) { updates = us })
  unfolding set_cursor
  set-Took id seq tick j us = record {
    cursors = λ i.
        lookup-insert str_dec id i seq (ready tick j).effect_seq
        ∙ ap (λ m. ite (str_dec i id) (some seq) (lookup str_dec i m)) (ready-cursors tick j);
    running = λ i _ h.
        let r = ready-Running i tick j h in record { recent = r.recent; waiting = r.waiting };
  }

  update_named-known :
      (e : EffectUpdateEvent) (j : Journal D P) (last : ℤ)
      → known_cursor e.id j ≡ some last
      → update_named e j ≡ update_known e last (prune_recently_ended e.tick j)
  unfolding update_named
  update_named-known e j last h = ground (arith, h)

  update_known-running :
      (e : EffectUpdateEvent) (j : Journal D P) (last : ℤ)
      → lookup str_dec e.id j.recently_ended ≡ none
      → update_known e last j ≡ append_update e (assign_seq e.id e.seq last j)
  unfolding update_known
  update_known-running e j last h = ground (arith, h)

  named_update :
      (e : EffectUpdateEvent) (j : Journal D P)
      → e.id ≢ ""
      → record_effect_update e j ≡ update_named e (note_event j)
  unfolding record_effect_update
  named_update e j n = if_neg (str_dec e.id "") n (j, none) (update_named e (note_event j))

  update_own :
      (e : EffectUpdateEvent) (j : Journal D P) (last : ℤ)
      → e.id ≢ ""
      → lookup str_dec e.id j.effect_seq ≡ some last
      → last ≢ pos 0
      → Running e.id j
      → pos 0 <ℤ e.seq
      → last <ℤ e.seq
      → record_effect_update e j
        ≡ append_update e (set_cursor e.id e.seq (ready e.tick j), some e.seq)
  update_own e j last n c z h p q =
      named_update e j n
      ∙ update_named-known e (note_event j) last (
          known_cursor-some e.id (note_event j) last
            (ap (lookup str_dec e.id) (noted_cursors j) ∙ c) z)
      ∙ update_known-running e (ready e.tick j) last (ready-Running e.id e.tick j h).recent
      ∙ ap (append_update e) (assign_seq-own e.id e.seq last (ready e.tick j) p q)

  pub record_effect_update-Took :
      (e : EffectUpdateEvent) (j : Journal D P) (last : ℤ)
      → e.id ≢ ""
      → lookup str_dec e.id j.effect_seq ≡ some last
      → last ≢ pos 0
      → Running e.id j
      → pos 0 <ℤ e.seq
      → last <ℤ e.seq
      → ((record_effect_update e j).1 ≡ some e)
        × Took e.id e.seq false j (record_effect_update e j).0
        × Grew [] (e ∷ []) [] j (record_effect_update e j).0
  unfolding append_update set_cursor
  record_effect_update-Took e j last n c z h p q =
      let all = update_own e j last n c z h p q in
      let here = sym (ap (λ r. r.0) all) in
      let same = ready-SameEvents e.tick j in
      (
        ap (λ r. r.1) all,
        subst (Took e.id e.seq false j) here (
            set-Took e.id e.seq e.tick j
              ((set_cursor e.id e.seq (ready e.tick j)).updates ++ e ∷ [])),
        subst (Grew [] (e ∷ []) [] j) here (
          same.spawns ∙ sym (append-nil j.spawns),
          ap (λ x. x ++ e ∷ []) same.updates,
          same.ends ∙ sym (append-nil j.ends),
        ),
      )

  end_named-known :
      (e : EffectEndEvent) (j : Journal D P) (last : ℤ)
      → known_cursor e.id j ≡ some last
      → end_named e j ≡ append_end e (assign_seq e.id e.seq last (prune_recently_ended e.tick j))
  unfolding end_named
  end_named-known e j last h = ground (arith, h)

  named_end :
      (e : EffectEndEvent) (j : Journal D P)
      → e.id ≢ ""
      → record_effect_end e j ≡ end_named e (note_event j)
  unfolding record_effect_end
  named_end e j n = if_neg (str_dec e.id "") n (j, none) (end_named e (note_event j))

  ended-Took :
      (e : EffectEndEvent) (j : Journal D P)
      → Took e.id e.seq true j (append_end e (set_cursor e.id e.seq (ready e.tick j), some e.seq)).0
  unfolding append_end set_cursor
  ended-Took e j = record {
    cursors = (set-Took e.id e.seq e.tick j []).cursors;
    running = λ i o h.
        let r = ready-Running i e.tick j h in
        record {
          recent = ground (
            arith,
            lookup-insert str_dec e.id i e.tick (ready e.tick j).recently_ended,
            r.recent,
            o,
          );
          waiting =
              ground (
                arith,
                count-append str_dec i (ready e.tick j).ended_ids (e.id ∷ []),
                r.waiting,
                o,
              );
        };
  }

  pub record_effect_end-Took :
      (e : EffectEndEvent) (j : Journal D P) (last : ℤ)
      → e.id ≢ ""
      → lookup str_dec e.id j.effect_seq ≡ some last
      → last ≢ pos 0
      → pos 0 <ℤ e.seq
      → last <ℤ e.seq
      → ((record_effect_end e j).1 ≡ some e)
        × Took e.id e.seq true j (record_effect_end e j).0
        × Grew [] [] (e ∷ []) j (record_effect_end e j).0
  unfolding append_end set_cursor
  record_effect_end-Took e j last n c z p q =
      let k =
        known_cursor-some e.id (note_event j) last (ap (lookup str_dec e.id) (noted_cursors j) ∙ c)
          z in
      let all =
        named_end e j n
        ∙ end_named-known e (note_event j) last k
        ∙ ap (append_end e) (assign_seq-own e.id e.seq last (ready e.tick j) p q) in
      let here = sym (ap (λ r. r.0) all) in
      let same = ready-SameEvents e.tick j in
      (
        ap (λ r. r.1) all,
        subst (Took e.id e.seq true j) here (ended-Took e j),
        subst (Grew [] [] (e ∷ []) j) here (
          same.spawns ∙ sym (append-nil j.spawns),
          same.updates ∙ sym (append-nil j.updates),
          ap (λ x. x ++ e ∷ []) same.ends,
        ),
      )
