-- ===== src/Journal/Batches/Respawn.antt =====
-- An effect that ends and respawns within one batch does not survive a rollback.
use mine_and_die.Prelude.{
  ◌≡◌, ◌≢◌, refl, sym, ap, subst, ◌∙◌, List, [], ◌∷◌, ◌++◌, true, false, Option, none, some, String,
  str_dec, lookup, arith, if_cases, ◌||◌, lookup_or,
}
use mine_and_die.Prelude.Int.{ℤ, pos}
use mine_and_die.Journal.Contract.{EffectSpawnEvent, EffectUpdateEvent, EffectEndEvent}
use mine_and_die.Journal.State.{Journal}
use mine_and_die.Journal.Effects.{
  record_effect_spawn, record_effect_update, record_effect_end, clear_pending, cursor,
  EffectEventBatch,
}
use mine_and_die.Journal.Effects.Cursor.{update_seq, UpdateCases, record_effect_update_cases}
use mine_and_die.Journal.Effects.Ended.{Staged, record_effect_end-Staged}
use mine_and_die.Journal.Effects.Live.{
  Live, Next, spawn_seq, spawn_seq-ne, update-Live, record_effect_spawn-Live,
  record_effect_spawn-ends,
}
use mine_and_die.Journal.Batches.{
  delete_all, contains, restored_ids, no_events, drain_effect_events, restore_effect_events,
  restore_ends, unseen_ids,
}
use mine_and_die.Journal.Batches.Rollback.{ids_of, lookup-delete_all}

contains-append :
    (id : String) (xs ys : List String)
    → contains id (xs ++ ys) ≡ (contains id xs || contains id ys)
unfolding contains
contains-append id [] ys = refl
contains-append id (x ∷ xs) ys = ground (arith, contains-append id xs ys)

contains-clear_pending :
    (id : String) (xs : List String) → contains id (clear_pending id xs) ≡ false
unfolding contains clear_pending
contains-clear_pending id [] = refl
contains-clear_pending id (x ∷ xs) = ground (arith, contains-clear_pending id xs)

contains-restored_ids :
    (id : String) (es : List EffectEndEvent)
    → id ≢ ""
    → contains id (restored_ids es) ≡ contains id (ids_of es)
unfolding contains restored_ids
contains-restored_ids id [] n = refl
contains-restored_ids id (e ∷ es) n = ground (arith, contains-restored_ids id es n)

ids_of-append-contains :
    (id : String) (xs : List EffectEndEvent) (e : EffectEndEvent)
    → e.id ≡ id
    → contains id (ids_of (xs ++ (e ∷ []))) ≡ true
unfolding contains
ids_of-append-contains id [] e h = ground arith
ids_of-append-contains id (x ∷ xs) e h = ground (arith, ids_of-append-contains id xs e h)

module _ {D P : Type 0} where
  no_ends : (k : Journal D P) → no_events k ≡ true → k.ends ≡ []
  no_ends k e = ground arith

  -- An effect is among the ids to release, after the batch is put back, if the batch holds its end.
  restored-contains :
      (id : String) (es : List EffectEndEvent) (j : Journal D P)
      → id ≢ ""
      → contains id (ids_of es) ≡ true
      → (contains id (restore_ends es j).ended_ids ≡ true) × ((restore_ends es j).ends ≢ [])
  unfolding restore_ends
  restored-contains id [] j n h = cc
  restored-contains id (e ∷ es) j n h = (
    rw (
      contains-append id (restored_ids (e ∷ es)) (unseen_ids (restored_ids (e ∷ es)) j.ended_ids),
      contains-restored_ids id (e ∷ es) n,
      h,
    ),
    λ p. cc,
  )

  abbrev drained_batch : Journal D P → EffectEventBatch
  drained_batch j = record {
    spawns = j.spawns;
    updates = j.updates;
    ends = j.ends;
    last_seq_by_id = j.effect_seq;
  }

  released :
      (id : String) (k : Journal D P)
      → contains id k.ended_ids ≡ true
      → k.ends ≢ []
      → lookup str_dec id (drain_effect_events k).0.effect_seq ≡ none
  unfolding drain_effect_events
  released id k h n =
      if_cases (λ (r : Journal D P × EffectEventBatch). lookup str_dec id r.0.effect_seq ≡ none)
        (no_events k) _ _ (λ e. absurd (n (no_ends k e)))
        (λ e. lookup-delete_all k.ended_ids k.effect_seq id ∙ rw h)

  refused :
      (u : EffectUpdateEvent) (j : Journal D P) (r : Journal D P × Option EffectUpdateEvent)
      → cursor u.id j ≡ pos 0
      → UpdateCases u j r
      → r.1 ≡ none
  refused u j (k, none) z c = refl
  refused u j (k, some s) z c = absurd (c.1 z)

  -- An update of an effect without a cursor is refused.
  update_unknown :
      (u : EffectUpdateEvent) (j : Journal D P)
      → lookup str_dec u.id j.effect_seq ≡ none
      → (record_effect_update u j).1 ≡ none
  unfolding lookup_or
  update_unknown u j h =
      let z : cursor u.id j ≡ pos 0 = rw (h, lookup_or) in
      refused u j (record_effect_update u j) z (record_effect_update_cases u j (rw z (omega arith)))

  drain_effect_events-Live :
      (id : String) (seq : ℤ) (j : Journal D P)
      → contains id j.ended_ids ≡ false
      → Live id seq j
      → Live id seq (drain_effect_events j).0
  unfolding drain_effect_events
  drain_effect_events-Live id seq j h (c, f) =
      if_cases (λ (r : Journal D P × EffectEventBatch). Live id seq r.0) (no_events j) _ _
        (λ e. (c, f))
        (λ e. (
          lookup-delete_all j.ended_ids j.effect_seq id ∙ rw h c,
          lookup-delete_all j.ended_ids j.recently_ended id ∙ rw h f,
        ))

  put_back_drained :
      (id : String) (j : Journal D P)
      → id ≢ ""
      → contains id (ids_of j.ends) ≡ true
      → let (k, batch) = drain_effect_events j in
        lookup str_dec id (drain_effect_events (restore_effect_events batch k)).0.effect_seq ≡ none
  unfolding drain_effect_events restore_effect_events contains
  put_back_drained id j n h =
      if_cases Q (no_events j) _ _
        (λ e. absurd (empty_contains (ap (λ x. contains id (ids_of x)) (sym (no_ends j e)) ∙ h)))
        (λ e.
          let k = record j {
            spawns = [];
            updates = [];
            ends = [];
            effect_seq = delete_all j.ended_ids j.effect_seq;
            recently_ended = delete_all j.ended_ids j.recently_ended;
            ended_ids = [];
          } in
          let c = restored-contains id j.ends k n h in
          released id (restore_effect_events (drained_batch j) k) c.0 c.1)
    where
      Q : Journal D P × EffectEventBatch → Type 0
      Q (k, batch) =
          lookup str_dec id (drain_effect_events (restore_effect_events batch k)).0.effect_seq
          ≡ none

      empty_contains : contains id [] ≡ true → ⊥
      empty_contains e = ground arith

  -- Where an effect ends and spawns again, without another call between or after, and the journal is
  -- then drained, the respawned effect is live: an update of it made on the drained journal, with no
  -- number of its own or one past the spawn's, is staged. But if the batch is put back instead and
  -- the journal drained once more, the cursor of the live effect is gone, and the same update, made
  -- on that journal, is refused.
  pub respawn_lost :
      (e s : EffectEndEvent) (p : EffectSpawnEvent) (u : EffectUpdateEvent) (j j1 : Journal D P)
      → record_effect_end e j ≡ (j1, some s)
      → p.spawned.id ≡ e.id
      → u.id ≡ e.id
      → Next (spawn_seq p.seq) u.seq
      → let (j3, batch) = drain_effect_events (record_effect_spawn p j1).0 in
        ((record_effect_update u j3).1
          ≡ some (record u { seq = update_seq (spawn_seq p.seq) u.seq }))
        × ((record_effect_update u (drain_effect_events (restore_effect_events batch j3)).0).1
            ≡ none)
  respawn_lost e s p u j j1 h ep eu low = (
    (update-Live u (spawn_seq p.seq) (drain_effect_events j2).0 (rw eu n)
        (drain_effect_events-Live u.id (spawn_seq p.seq) j2
          (rw (eu, staged_ids.1, ep) (contains-clear_pending e.id j1.ended_ids))
          (rw eu (
            subst (λ i. Live i (spawn_seq p.seq) j2) ep (record_effect_spawn-Live p j1 (rw ep n)))))
        (spawn_seq-ne p.seq) low).0,
    update_unknown u _ (rw eu (put_back_drained e.id j2 n held)),
  )
    where
      staged : Staged e j (j1, some s)
      staged = subst (Staged e j) h (record_effect_end-Staged e j)

      n : e.id ≢ ""
      n = staged.0

      j2 : Journal D P
      j2 = (record_effect_spawn p j1).0

      staged_ids : (j2.ends ≡ j1.ends) × (j2.ended_ids ≡ clear_pending p.spawned.id j1.ended_ids)
      staged_ids = record_effect_spawn-ends p j1 (rw ep n)

      held : contains e.id (ids_of j2.ends) ≡ true
      held =
          rw (staged_ids.0, staged.1)
            (ids_of-append-contains e.id j.ends (record e { seq = s.seq }) refl)
