-- ===== src/Journal/Effects/Live.antt =====
-- What a spawn does: its effect takes updates again, whatever came before.
use mine_and_die.Prelude.{
  ◌≡◌, ◌≢◌, refl, sym, ap, ap₂, subst, ◌∙◌, ◌⊎◌, [], ◌∷◌, ◌++◌, Option, none, some, String, str_dec,
  lookup, lookup_or, arith, if_cases, ite_cases, option_cases, lookup-insert_self,
  lookup-delete_self, lookup_or-insert_self, lookup_or-some, if◌then◌else◌,
}
use mine_and_die.Prelude.Int.{ℤ, pos, leb_ℤ, ◌≤ℤ◌, ◌<ℤ◌, ◌-ℤ◌, add_int64}
use mine_and_die.Journal.Contract.{EffectSpawnEvent, EffectUpdateEvent}
use mine_and_die.Journal.State.{Journal}
use mine_and_die.Journal.Effects.{
  prune_recently_ended, update_named, record_effect_update, record_effect_spawn, begin_spawn,
  assign_spawn_seq, next_effect_seq, set_cursor, note_event, assign_seq, known_cursor,
  append_update, recently_ended_window, cursor, clear_pending,
}
use mine_and_die.Journal.Effects.Cursor.{
  update_seq, noted-SameEvents, no_cursor, found_cursor, prune-SameEvents,
}
use mine_and_die.Journal.Effects.Ended.{lookup-prune-none}

-- The sequence number that a spawn event is stored with.
abbrev pub spawn_seq : ℤ → ℤ
spawn_seq seq = if leb_ℤ seq (pos 0) then pos 1 else seq

pub spawn_seq-ne : (seq : ℤ) → spawn_seq seq ≢ pos 0
spawn_seq-ne seq = ground arith

-- The event has no number of its own, or one past the cursor.
abbrev pub Next : ℤ → ℤ → Type 0
Next last seq = (seq ≤ℤ pos 0) ⊎ (last <ℤ seq)

module _ {D P : Type 0} where
  -- The effect has the cursor, and has not ended recently.
  abbrev pub Live : String → ℤ → Journal D P → Type 0
  Live id seq j =
      (lookup str_dec id j.effect_seq ≡ some seq) × (lookup str_dec id j.recently_ended ≡ none)

  assign_spawn_seq-Live :
      (id : String) (seq : ℤ) (j : Journal D P)
      → id ≢ ""
      → cursor id j ≡ pos 0
      → lookup str_dec id j.recently_ended ≡ none
      → Live id (assign_spawn_seq id seq j).1 (assign_spawn_seq id seq j).0
  unfolding assign_spawn_seq next_effect_seq set_cursor add_int64
  assign_spawn_seq-Live id seq j n z f =
      if_cases (λ (r : Journal D P × ℤ). Live id r.1 r.0) (leb_ℤ seq (pos 0)) _ _
        (λ low.
          ite_cases (λ (r : Journal D P × ℤ). Live id r.1 r.0) (str_dec id "") _ _
            (λ p. absurd (n p))
            (λ p.
              (lookup-insert_self str_dec id (add_int64 (cursor id j) (pos 1)) j.effect_seq, f)))
        (λ high. (lookup-insert_self str_dec id seq j.effect_seq, f))

  assign_spawn_seq_lem :
      (id : String) (seq : ℤ) (j : Journal D P)
      → id ≢ ""
      → cursor id j ≡ pos 0
      → ((assign_spawn_seq id seq j).1 ≡ spawn_seq seq) × ((assign_spawn_seq id seq j).1 ≢ pos 0)
  unfolding assign_spawn_seq next_effect_seq add_int64
  assign_spawn_seq_lem id seq j n z = ground arith

  begin_spawn_lem :
      (id : String) (j : Journal D P)
      → (cursor id (begin_spawn id j) ≡ pos 0)
        × (lookup str_dec id (begin_spawn id j).recently_ended ≡ none)
  unfolding begin_spawn set_cursor note_event
  begin_spawn_lem id j = (
    lookup_or-insert_self str_dec (pos 0) id (pos 0) j.effect_seq,
    lookup-delete_self str_dec id j.recently_ended,
  )

  -- The sequence number of an update of a live effect.
  assign_seq-Live :
      (id : String) (seq last : ℤ) (j : Journal D P)
      → id ≢ ""
      → cursor id j ≡ last
      → Next last seq
      → ((assign_seq id seq last j).1 ≡ some (update_seq last seq))
        × ((assign_seq id seq last j).0.updates ≡ j.updates)
  unfolding assign_seq next_effect_seq set_cursor
  assign_seq-Live id seq last j n e h = ground arith

  -- The event is staged with the number, after the updates of the journal.
  abbrev pub StagedUpdate :
      EffectUpdateEvent → ℤ → Journal D P → Journal D P × Option EffectUpdateEvent → Type 0
  StagedUpdate u s j r =
      (r.1 ≡ some (record u { seq = s })) × (r.0.updates ≡ j.updates ++ (record u { seq = s } ∷ []))

  append_update-some :
      (u : EffectUpdateEvent) (r : Journal D P × Option ℤ) (s : ℤ) (j : Journal D P)
      → r.1 ≡ some s
      → r.0.updates ≡ j.updates
      → StagedUpdate u s j (append_update u r)
  unfolding append_update
  append_update-some u (k, none) s j h q = cc
  append_update-some u (k, some t) s j h q = ground (arith, q)

  still_fresh :
      (tick : ℤ) (id : String) (j : Journal D P)
      → lookup str_dec id j.recently_ended ≡ none
      → lookup str_dec id (prune_recently_ended tick j).recently_ended ≡ none
  unfolding prune_recently_ended
  still_fresh tick id j h =
      if_cases (λ (x : Journal D P). lookup str_dec id x.recently_ended ≡ none) (leb_ℤ tick (pos 0))
        _ _ (λ e. h) (λ e. lookup-prune-none (tick -ℤ recently_ended_window) id j.recently_ended h)

  pub update-Live :
      (u : EffectUpdateEvent) (seq : ℤ) (j : Journal D P)
      → u.id ≢ ""
      → Live u.id seq j
      → seq ≢ pos 0
      → Next seq u.seq
      → StagedUpdate u (update_seq seq u.seq) j (record_effect_update u j)
  unfolding record_effect_update update_named note_event
  update-Live u seq j n (c, f) z h =
      ite_cases Q (str_dec u.id "") _ _ (λ p. absurd (n p))
        (λ p.
          option_cases Q (known_cursor u.id (note_event j)) _ _
            (λ e. absurd (z (sym here ∙ no_cursor u.id (note_event j) e)))
            (λ last e.
              let pruned = prune_recently_ended u.tick (note_event j) in
              let k = prune-SameEvents u.tick (note_event j) in
              let at : last ≡ seq = (found_cursor u.id (note_event j) last e).0 ∙ here in
              let at_pruned : cursor u.id pruned ≡ seq =
                ap (lookup_or str_dec (pos 0) u.id) k.effect_seq ∙ here in
              let a = assign_seq-Live u.id u.seq seq pruned n at_pruned h in
              option_cases Q (lookup str_dec u.id pruned.recently_ended) _ _
                (λ fresh.
                  subst (λ l. Q (append_update u (assign_seq u.id u.seq l pruned))) (sym at)
                    (append_update-some u (assign_seq u.id u.seq seq pruned) _ j a.0
                      (a.1 ∙ k.updates ∙ (noted-SameEvents j).0.updates)))
                (λ t found.
                  absurd (clash t (sym found ∙ still_fresh u.tick u.id (note_event j) f)))))
    where
      Q : Journal D P × Option EffectUpdateEvent → Type 0
      Q = StagedUpdate u (update_seq seq u.seq) j

      here : cursor u.id j ≡ seq
      here = lookup_or-some str_dec (pos 0) u.id seq j.effect_seq c

      clash : (t : ℤ) → some t ≢ none
      clash t p = cc

  pub record_effect_spawn-Live :
      (e : EffectSpawnEvent) (j : Journal D P)
      → e.spawned.id ≢ ""
      → Live e.spawned.id (spawn_seq e.seq) (record_effect_spawn e j).0
  unfolding record_effect_spawn
  record_effect_spawn-Live e j n =
      ite_cases
        (λ (r : Journal D P × Option EffectSpawnEvent). Live e.spawned.id (spawn_seq e.seq) r.0)
        (str_dec e.spawned.id "") _ _ (λ p. absurd (n p))
        (λ p.
          subst (λ x. Live e.spawned.id x k.0) (assign_spawn_seq_lem e.spawned.id e.seq b n z).0
            (assign_spawn_seq-Live e.spawned.id e.seq b n z f))
    where
      b : Journal D P
      b = begin_spawn e.spawned.id j

      k : Journal D P × ℤ
      k = assign_spawn_seq e.spawned.id e.seq b

      z : cursor e.spawned.id b ≡ pos 0
      z = (begin_spawn_lem e.spawned.id j).0

      f : lookup str_dec e.spawned.id b.recently_ended ≡ none
      f = (begin_spawn_lem e.spawned.id j).1

  pub record_effect_spawn-ends :
      (e : EffectSpawnEvent) (j : Journal D P)
      → e.spawned.id ≢ ""
      → ((record_effect_spawn e j).0.ends ≡ j.ends)
        × ((record_effect_spawn e j).0.ended_ids ≡ clear_pending e.spawned.id j.ended_ids)
  unfolding record_effect_spawn begin_spawn assign_spawn_seq next_effect_seq set_cursor note_event
  record_effect_spawn-ends e j n = ground arith

  begin_spawn-lists :
      (id : String) (j : Journal D P)
      → ((begin_spawn id j).spawns ≡ j.spawns) × ((begin_spawn id j).updates ≡ j.updates)
  unfolding begin_spawn set_cursor note_event
  begin_spawn-lists id j = (refl, refl)

  assign_spawn_seq-lists :
      (id : String) (seq : ℤ) (j : Journal D P)
      → ((assign_spawn_seq id seq j).0.spawns ≡ j.spawns)
        × ((assign_spawn_seq id seq j).0.updates ≡ j.updates)
  unfolding assign_spawn_seq next_effect_seq set_cursor
  assign_spawn_seq-lists id seq j = ground arith

  record_effect_spawn-lists :
      (e : EffectSpawnEvent) (j : Journal D P)
      → e.spawned.id ≢ ""
      → let r = record_effect_spawn e j in
        ((r.0.spawns ≡ j.spawns ++ (record e { seq = spawn_seq e.seq } ∷ []))
          × (r.0.updates ≡ j.updates))
        × (r.1 ≡ some (record e { seq = spawn_seq e.seq }))
  unfolding record_effect_spawn
  record_effect_spawn-lists e j n =
      ite_cases Q (str_dec e.spawned.id "") _ _ (λ p. absurd (n p))
        (λ p.
          let b = begin_spawn e.spawned.id j in
          let q =
            (assign_spawn_seq_lem e.spawned.id e.seq b n (begin_spawn_lem e.spawned.id j).0).0 in
          let old = begin_spawn-lists e.spawned.id j in
          let new = assign_spawn_seq-lists e.spawned.id e.seq b in
          (
            (ap₂ (λ x s. x ++ (record e { seq = s } ∷ [])) (new.0 ∙ old.0) q, new.1 ∙ old.1),
            ap (λ s. some (record e { seq = s })) q,
          ))
    where
      Q : Journal D P × Option EffectSpawnEvent → Type 0
      Q r =
          ((r.0.spawns ≡ j.spawns ++ (record e { seq = spawn_seq e.seq } ∷ []))
            × (r.0.updates ≡ j.updates))
          × (r.1 ≡ some (record e { seq = spawn_seq e.seq }))

  -- A spawn with an id is staged after the spawns of the journal, with its own sequence number, or
  -- 1 where that is not positive, and leaves the updates; and whatever the journal held of the id
  -- before, an ended effect included, an update of the id that comes next, with no number of its
  -- own or one past the spawn's, is staged after the updates, with its own number or the one that
  -- follows the spawn's.
  pub record_effect_update-record_effect_spawn :
      (e : EffectSpawnEvent) (u : EffectUpdateEvent) (j : Journal D P)
      → e.spawned.id ≢ ""
      → u.id ≡ e.spawned.id
      → Next (spawn_seq e.seq) u.seq
      → let (j', stored) = record_effect_spawn e j in
        ((j'.spawns ≡ j.spawns ++ (record e { seq = spawn_seq e.seq } ∷ []))
          × (j'.updates ≡ j.updates)
          × (stored ≡ some (record e { seq = spawn_seq e.seq })))
        × StagedUpdate u (update_seq (spawn_seq e.seq) u.seq) j (record_effect_update u j')
  record_effect_update-record_effect_spawn e u j n same h =
      let (lists, stored) = record_effect_spawn-lists e j n in
      let r =
        update-Live u (spawn_seq e.seq) (record_effect_spawn e j).0 (rw same n)
          (rw same (record_effect_spawn-Live e j n)) (spawn_seq-ne e.seq) h in
      (
        (lists.0, lists.1, stored),
        (
          r.0,
          r.1 ∙ ap (λ x. x ++ (record u { seq = update_seq (spawn_seq e.seq) u.seq } ∷ [])) lists.1,
        ),
      )
