-- ===== src/Journal/Effects/Ended.antt =====
-- What an end does to the updates that follow it, and what a spawn does for them.
use mine_and_die.Prelude.{
  ◌≡◌, ◌≢◌, refl, sym, ap, subst, ◌∙◌, ◌⊎◌, List, [], ◌∷◌, ◌++◌, Option, none, some, String,
  str_dec, lookup, arith, if_cases, ite_cases, option_cases, lookup-insert, if_pos,
}
use mine_and_die.Prelude.Int.{ℤ, pos, leb_ℤ, ◌<ℤ◌, ◌≤ℤ◌, ◌-ℤ◌, ◌+ℤ◌}
use mine_and_die.Journal.Contract.{EffectUpdateEvent, EffectEndEvent}
use mine_and_die.Journal.State.{Journal}
use mine_and_die.Journal.Effects.{
  prune, prune_recently_ended, update_known, update_named, end_named, record_effect_update,
  record_effect_end, append_end, recently_ended_window, note_event, assign_seq, next_effect_seq,
  set_cursor, record_drop, known_cursor, update_after_end, unknown_id_update,
}
use mine_and_die.Journal.Effects.Cursor.{
  SameEvents, SameEvents-refl, SameEvents-trans, noted-SameEvents, lose-Unended, prune-SameEvents,
}

-- Pruning keeps an end that is not positive or that lies past the cutoff.
lookup-prune :
    (cutoff t : ℤ) (id : String) (m : List (String × ℤ))
    → lookup str_dec id m ≡ some t
    → (t ≤ℤ pos 0) ⊎ (cutoff <ℤ t)
    → lookup str_dec id (prune cutoff m) ≡ some t
unfolding lookup prune
lookup-prune cutoff t id [] h k = h
lookup-prune cutoff t id ((x, y) ∷ m) h k = ground (arith, lookup-prune cutoff t id m)

pub lookup-prune-none :
    (cutoff : ℤ) (id : String) (m : List (String × ℤ))
    → lookup str_dec id m ≡ none
    → lookup str_dec id (prune cutoff m) ≡ none
unfolding lookup prune
lookup-prune-none cutoff id [] h = h
lookup-prune-none cutoff id ((x, y) ∷ m) h = ground (arith, lookup-prune-none cutoff id m)

module _ {D P : Type 0} where
  abbrev Marked : EffectEndEvent → Journal D P × Option EffectEndEvent → Type 0
  Marked e (k, none) = Unit
  Marked e (k, some s) = lookup str_dec e.id k.recently_ended ≡ some e.tick

  append_end-Marked : (e : EffectEndEvent) (r : Journal D P × Option ℤ) → Marked e (append_end e r)
  unfolding append_end
  append_end-Marked e (k, none) = tt
  append_end-Marked e (k, some s) =
      lookup-insert str_dec e.id e.id e.tick k.recently_ended ∙ if_pos (str_dec e.id e.id) refl _ _

  record_effect_end-Marked :
      (e : EffectEndEvent) (j : Journal D P) → Marked e (record_effect_end e j)
  unfolding record_effect_end end_named note_event
  record_effect_end-Marked e j =
      ite_cases (Marked e) (str_dec e.id "") _ _ (λ p. tt)
        (λ n.
          option_cases (Marked e) (known_cursor e.id (note_event j)) _ _ (λ u. tt)
            (λ last k.
              append_end-Marked e
                (assign_seq e.id e.seq last (prune_recently_ended e.tick (note_event j)))))

  still_ended :
      (tick t : ℤ) (id : String) (j : Journal D P)
      → lookup str_dec id j.recently_ended ≡ some t
      → tick <ℤ t +ℤ recently_ended_window
      → lookup str_dec id (prune_recently_ended tick j).recently_ended ≡ some t
  unfolding prune_recently_ended ◌-ℤ◌ ◌+ℤ◌
  still_ended tick t id j h k =
      if_cases (λ (x : Journal D P). lookup str_dec id x.recently_ended ≡ some t)
        (leb_ℤ tick (pos 0)) _ _ (λ e. h)
        (λ e. lookup-prune (tick -ℤ recently_ended_window) t id j.recently_ended h (ground arith))

  abbrev Dropped : Journal D P → Journal D P × Option EffectUpdateEvent → Type 0
  Dropped j r = (r.1 ≡ none) × SameEvents j r.0

  -- Where an end is recorded and not refused, the next call on the journal, if it is an update of
  -- the same effect with a tick fewer than four after the end's own, is dropped, whatever its
  -- sequence number: it stages nothing and moves no cursor.
  pub record_effect_update-record_effect_end :
      (e s : EffectEndEvent) (u : EffectUpdateEvent) (j j' : Journal D P)
      → record_effect_end e j ≡ (j', some s)
      → u.id ≡ e.id
      → u.tick <ℤ e.tick +ℤ recently_ended_window
      → ((record_effect_update u j').1 ≡ none) × SameEvents j' (record_effect_update u j').0
  unfolding record_effect_update update_named update_known
  record_effect_update-record_effect_end e s u j j' h same late =
      ite_cases (Dropped j') (str_dec u.id "") _ _ (λ p. (refl, SameEvents-refl j'))
        (λ n.
          option_cases (Dropped j') (known_cursor u.id (note_event j')) _ _
            (λ unknown. (
              refl,
              SameEvents-trans (noted-SameEvents j').0
                  (lose-Unended unknown_id_update u.id (note_event j')).0,
            ))
            (λ last k.
              let q =
                SameEvents-trans (noted-SameEvents j').0
                  (prune-SameEvents u.tick (note_event j')) in
              option_cases (Dropped j')
                (lookup str_dec u.id (prune_recently_ended u.tick (note_event j')).recently_ended) _
                _ (λ gone. absurd (some≢none (sym there ∙ gone)))
                (λ t found. (
                  refl,
                  SameEvents-trans q
                      (lose-Unended update_after_end u.id
                        (prune_recently_ended u.tick (note_event j'))).0,
                ))))
    where
      ended : lookup str_dec u.id (note_event j').recently_ended ≡ some e.tick
      ended = rw same (subst (Marked e) h (record_effect_end-Marked e j))

      there :
          lookup str_dec u.id (prune_recently_ended u.tick (note_event j')).recently_ended
          ≡ some e.tick
      there = still_ended u.tick e.tick u.id (note_event j') ended late

      some≢none : some e.tick ≢ none
      some≢none p = cc

  -- The end is staged last, under an id.
  abbrev pub Staged : EffectEndEvent → Journal D P → Journal D P × Option EffectEndEvent → Type 0
  Staged e j (k, none) = Unit
  Staged e j (k, some s) =
      (e.id ≢ "")
      × (k.ends ≡ j.ends ++ (record e { seq = s.seq } ∷ []))
      × (k.ended_ids ≡ j.ended_ids ++ (e.id ∷ []))

  append_end-Staged :
      (e : EffectEndEvent) (j : Journal D P) (r : Journal D P × Option ℤ)
      → e.id ≢ ""
      → r.0.ends ≡ j.ends
      → r.0.ended_ids ≡ j.ended_ids
      → Staged e j (append_end e r)
  unfolding append_end
  append_end-Staged e j (k, none) n p q = tt
  append_end-Staged e j (k, some s) n p q =
      (n, ap (λ x. x ++ (record e { seq = s } ∷ [])) p, ap (λ x. x ++ (e.id ∷ [])) q)

  assign_seq-ends :
      (id : String) (seq last : ℤ) (j : Journal D P)
      → ((assign_seq id seq last j).0.ends ≡ j.ends)
        × ((assign_seq id seq last j).0.ended_ids ≡ j.ended_ids)
  unfolding assign_seq next_effect_seq set_cursor record_drop
  assign_seq-ends id seq last j = ground arith

  pub record_effect_end-Staged :
      (e : EffectEndEvent) (j : Journal D P) → Staged e j (record_effect_end e j)
  unfolding record_effect_end end_named note_event
  record_effect_end-Staged e j =
      ite_cases (Staged e j) (str_dec e.id "") _ _ (λ p. tt)
        (λ n.
          option_cases (Staged e j) (known_cursor e.id (note_event j)) _ _ (λ u. tt)
            (λ last k.
              let pruned = prune_recently_ended e.tick (note_event j) in
              let q = prune-SameEvents e.tick (note_event j) in
              let a = assign_seq-ends e.id e.seq last pruned in
              append_end-Staged e j (assign_seq e.id e.seq last pruned) n (a.0 ∙ q.ends)
                (a.1 ∙ q.ended_ids)))
