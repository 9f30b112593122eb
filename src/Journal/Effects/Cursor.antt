-- ===== src/Journal/Effects/Cursor.antt =====
-- Sequence numbers: the journal's cursors only move forward, and an event out of order is dropped.
use mine_and_die.Prelude.{
  ◌≡◌, ◌≢◌, refl, sym, ap, subst, ◌∙◌, ◌⊎◌, inl, inr, [], ◌∷◌, ◌++◌, Option, none, some, String,
  str_dec, lookup, insert, lookup_or, arith, if_cases, ite_cases, Option-cases, option_cases,
  if_pos, if_neg, if◌then◌else◌,
}
use mine_and_die.Prelude.Int.{
  ℤ, pos, max_int64, ◌<ℤ◌, ◌≤ℤ◌, add_int64, add_int64-one, ℤ_discrete, leb_ℤ,
}
use mine_and_die.Journal.Contract.{EffectUpdateEvent}
use mine_and_die.Journal.State.{Journal}
use mine_and_die.Journal.Effects.{
  cursor, record_drop, lose, prune_recently_ended, assign_seq, known_cursor, append_update,
  update_known, update_named, record_effect_update, next_effect_seq, set_cursor, nonmonotonic_seq,
  update_after_end, unknown_id_update, note_event, note_lost_spawn,
}

-- The number an update or an end takes: its own if that is positive, else the one after the cursor.
abbrev pub update_seq : ℤ → ℤ → ℤ
update_seq last seq = if leb_ℤ seq (pos 0) then add_int64 last (pos 1) else seq

module _ {D P : Type 0} where
  -- No event is staged or dropped and no cursor moves.
  pub record SameEvents (j j' : Journal D P) : Type 0 where
    pub effect_seq : j'.effect_seq ≡ j.effect_seq
    pub spawns : j'.spawns ≡ j.spawns
    pub updates : j'.updates ≡ j.updates
    pub ends : j'.ends ≡ j.ends
    pub ended_ids : j'.ended_ids ≡ j.ended_ids

  abbrev pub Unended : Journal D P → Journal D P → Type 0
  Unended j j' = SameEvents j j' × (j'.recently_ended ≡ j.recently_ended)

  record_drop-Unended : (m : String) (j : Journal D P) → Unended j (record_drop m j)
  unfolding record_drop
  record_drop-Unended m j = ground arith

  pub lose-Unended : (m id : String) (j : Journal D P) → Unended j (lose m id j)
  unfolding lose note_lost_spawn record_drop
  lose-Unended m id j = ground arith

  pub prune-SameEvents : (t : ℤ) (j : Journal D P) → SameEvents j (prune_recently_ended t j)
  unfolding prune_recently_ended
  prune-SameEvents t j = ground arith

  -- The cursor moves to `seq`, past `last`.
  abbrev pub Moved : String → ℤ → ℤ → Journal D P → Journal D P → Type 0
  Moved id last seq j j' =
      (last <ℤ seq) × (j' ≡ record j { effect_seq = insert str_dec id seq j.effect_seq })

  abbrev AssignCases : String → ℤ → ℤ → Journal D P → Journal D P × Option ℤ → Type 0
  AssignCases id seq last j r =
      ((s : ℤ) × (r.1 ≡ some s) × Moved id last s j r.0 × (s ≡ update_seq last seq))
      ⊎ ((r.1 ≡ none) × (pos 0 <ℤ seq) × (seq ≤ℤ last) × Unended j r.0)

  next_seq-Moved :
      (id : String) (last : ℤ) (j : Journal D P)
      → id ≢ ""
      → last ≡ cursor id j
      → last <ℤ max_int64
      → Moved id last (next_effect_seq id j).1 j (next_effect_seq id j).0
  unfolding next_effect_seq set_cursor
  next_seq-Moved id last j n e h =
      ite_cases (λ (r : Journal D P × ℤ). Moved id last r.1 j r.0) (str_dec id "") _ _
        (λ p. absurd (n p)) (λ p. (rw e (add_int64-one (cursor id j) (rw e at h)), refl))

  next_seq_lem :
      (id : String) (j : Journal D P)
      → id ≢ ""
      → (next_effect_seq id j).1 ≡ add_int64 (cursor id j) (pos 1)
  unfolding next_effect_seq
  next_seq_lem id j n = ground arith

  assign_seq_cases :
      (id : String) (seq last : ℤ) (j : Journal D P)
      → id ≢ ""
      → last ≡ cursor id j
      → last <ℤ max_int64
      → AssignCases id seq last j (assign_seq id seq last j)
  unfolding assign_seq
  assign_seq_cases id seq last j n e h =
      if_cases (AssignCases id seq last j) (leb_ℤ seq (pos 0)) _ _
        (λ low. inl (
          (next_effect_seq id j).1,
          refl,
          next_seq-Moved id last j n e h,
          next_seq_lem id j n ∙ rw (low, e),
        ))
        (λ high.
          if_cases (AssignCases id seq last j) (leb_ℤ seq last) _ _
            (λ old. inr (refl, ground arith, ground arith, record_drop-Unended nonmonotonic_seq j))
            (λ new. inl (seq, refl, (ground arith, refl), rw high)))

  -- Why an update or an end is refused, once the recently ended effects are pruned to `j'`.
  pub data Refusal (id : String) (seq : ℤ) (j j' : Journal D P) : Type 0 where
    unnamed : id ≡ "" → Refusal id seq j j'
    unknown : cursor id j ≡ pos 0 → Refusal id seq j j'
    ended : (t : ℤ) → lookup str_dec id j'.recently_ended ≡ some t → Refusal id seq j j'
    stale : pos 0 <ℤ seq → seq ≤ℤ cursor id j → Refusal id seq j j'

  known_cursor_cases :
      (id : String) (j : Journal D P)
      → ((known_cursor id j ≡ none) × (cursor id j ≡ pos 0))
        ⊎ ((known_cursor id j ≡ some (cursor id j)) × (cursor id j ≢ pos 0))
  unfolding known_cursor lookup_or
  known_cursor_cases id j = elim (Option-cases (lookup str_dec id j.effect_seq)) [
    | inl e ↦ inl (rw (e, known_cursor), rw (e, lookup_or))
    | inr (last, e) ↦ elim (ℤ_discrete last (pos 0)) [
      | yes z ↦
          inl (rw (e, known_cursor) (if_pos (ℤ_discrete last (pos 0)) z _ _), rw (e, lookup_or) z)
      | no z ↦ inr (
        rw (e, known_cursor, lookup_or) (if_neg (ℤ_discrete last (pos 0)) z _ _),
        rw (e, lookup_or) z,
      )
    ]
  ]

  -- What an update does, from a journal `j` to the result.
  abbrev pub UpdateCases :
      EffectUpdateEvent → Journal D P → Journal D P × Option EffectUpdateEvent → Type 0
  UpdateCases e j (j', some s) =
      (s ≡ record e { seq = s.seq })
      × (cursor e.id j ≢ pos 0)
      × (lookup str_dec e.id j'.recently_ended ≡ none)
      × (cursor e.id j <ℤ s.seq)
      × (j'.effect_seq ≡ insert str_dec e.id s.seq j.effect_seq)
      × (j'.updates ≡ j.updates ++ (s ∷ []))
      × (j'.spawns ≡ j.spawns)
      × (j'.ends ≡ j.ends)
      × (s.seq ≡ update_seq (cursor e.id j) e.seq)
  UpdateCases e j (j', none) = Refusal e.id e.seq j j' × SameEvents j j'

  pub SameEvents-refl : (j : Journal D P) → SameEvents j j
  SameEvents-refl j = record {
    effect_seq = refl;
    spawns = refl;
    updates = refl;
    ends = refl;
    ended_ids = refl;
  }

  pub SameEvents-trans : {i j k : Journal D P} → SameEvents i j → SameEvents j k → SameEvents i k
  SameEvents-trans a b = record {
    effect_seq = b.effect_seq ∙ a.effect_seq;
    spawns = b.spawns ∙ a.spawns;
    updates = b.updates ∙ a.updates;
    ends = b.ends ∙ a.ends;
    ended_ids = b.ended_ids ∙ a.ended_ids;
  }

  append_update_cases :
      (e : EffectUpdateEvent) (j k : Journal D P) (r : Journal D P × Option ℤ)
      → cursor e.id j ≢ pos 0
      → lookup str_dec e.id k.recently_ended ≡ none
      → SameEvents j k
      → AssignCases e.id e.seq (cursor e.id j) k r
      → UpdateCases e j (append_update e r)
  unfolding append_update
  append_update_cases e j k (r, none) z f same (inl (s, p, m, q)) = cc
  append_update_cases e j k (r, some s) z f same (inr (p, a, b, u)) = cc
  append_update_cases e j k (r, none) z f same (inr (p, a, b, (u, q))) =
      (stale a b, SameEvents-trans same u)
  append_update_cases e j k (r, some s) z f same (inl (t, p, (up, moved), q)) =
      let here : s ≡ t = ground arith in
      (
        refl,
        z,
        ap (λ x. lookup str_dec e.id x.recently_ended) moved ∙ f,
        subst (λ x. cursor e.id j <ℤ x) (sym here) up,
        rw here (ap (λ x. x.effect_seq) moved ∙ ap (insert str_dec e.id t) same.effect_seq),
        ap (λ x. x.updates ++ (record e { seq = s } ∷ [])) moved
            ∙ ap (λ x. x ++ (record e { seq = s } ∷ [])) same.updates,
        ap (λ x. x.spawns) moved ∙ same.spawns,
        ap (λ x. x.ends) moved ∙ same.ends,
        here ∙ q,
      )

  update_known_cases :
      (e : EffectUpdateEvent) (j k : Journal D P)
      → e.id ≢ ""
      → cursor e.id j ≢ pos 0
      → cursor e.id j <ℤ max_int64
      → SameEvents j k
      → UpdateCases e j (update_known e (cursor e.id j) k)
  unfolding update_known
  update_known_cases e j k n z h same =
      option_cases (UpdateCases e j) (lookup str_dec e.id k.recently_ended) _ _
        (λ fresh. append_update_cases e j k (assign_seq e.id e.seq (cursor e.id j) k) z fresh same (
          assign_seq_cases e.id e.seq (cursor e.id j) k n
            (sym (ap (lookup_or str_dec (pos 0) e.id) same.effect_seq)) h))
        (λ t found.
          let (s, r) = lose-Unended update_after_end e.id k in
          (ended t (ap (lookup str_dec e.id) r ∙ found), SameEvents-trans same s))

  pub no_cursor : (id : String) (j : Journal D P) → known_cursor id j ≡ none → cursor id j ≡ pos 0
  no_cursor id j e = elim (known_cursor_cases id j) [
    | inl (u, z) ↦ z
    | inr (k, z) ↦ absurd (ground (arith, k))
  ]

  pub found_cursor :
      (id : String) (j : Journal D P) (last : ℤ)
      → known_cursor id j ≡ some last
      → (last ≡ cursor id j) × (cursor id j ≢ pos 0)
  found_cursor id j last e = elim (known_cursor_cases id j) [
    | inl (u, z) ↦ absurd (ground (arith, u))
    | inr (k, z) ↦ (ground (arith, k), z)
  ]

  pub noted-SameEvents : (j : Journal D P) → Unended j (note_event j)
  unfolding note_event
  noted-SameEvents j = ground arith

  pub record_effect_update_cases :
      (e : EffectUpdateEvent) (j : Journal D P)
      → cursor e.id j <ℤ max_int64
      → UpdateCases e j (record_effect_update e j)
  unfolding record_effect_update update_named note_event
  record_effect_update_cases e j h =
      ite_cases (UpdateCases e j) (str_dec e.id "") _ _ (λ p. (unnamed p, SameEvents-refl j))
        (λ n.
          option_cases (UpdateCases e j) (known_cursor e.id (note_event j)) _ _
            (λ u.
              let (s, r) = lose-Unended unknown_id_update e.id (note_event j) in
              (unknown (no_cursor e.id j u), SameEvents-trans (noted-SameEvents j).0 s))
            (λ last k.
              let (c, z) = found_cursor e.id j last k in
              let pruned = prune_recently_ended e.tick (note_event j) in
              subst (λ l. UpdateCases e j (update_known e l pruned)) (sym c)
                (update_known_cases e j pruned n z h (
                  SameEvents-trans (noted-SameEvents j).0
                    (prune-SameEvents e.tick (note_event j))))))
