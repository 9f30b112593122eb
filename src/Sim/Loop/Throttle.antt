-- ===== src/Sim/Loop/Throttle.antt =====
-- The per-actor throttle of `Enqueue`: which commands are staged, and how many of one actor.
use mine_and_die.Prelude.{
  ℕ, ◌+◌, ◌<◌, ◌≡◌, ◌≢◌, refl, sym, ap, subst, ◌∙◌, ◌⊎◌, inl, inr, Bool, true, false, [], ◌∷◌, ◌++◌,
  Option, none, some, String, if_cases, ite_cases, insert, str_dec, arith, length,
}
use mine_and_die.Prelude.Int.{pos, ltb_ℤ, leb_ℤ, ◌<ℤ◌, ◌≤ℤ◌}
use mine_and_die.Sim.Command.{Command}
use mine_and_die.Sim.Buffer.{push, len}
use mine_and_die.Sim.Buffer.Valid.{IsValid, push-IsValid}
use mine_and_die.Sim.Buffer.Refine.{contents, push_cases}
use mine_and_die.Sim.Loop.Drops.{DropCases, enqueue-DropCases}
use mine_and_die.Sim.Loop.{
  Loop, reject_queue_limit, count_of, increment_drop, report_drop, charge, charge_named, stage,
  conclude, enqueue, stage_charged, warn_queue, warn_staged,
}

module _ {F T : Type 0} where
  -- What reports and drop counters leave alone.
  abbrev pub Frame : Loop F T → Loop F T → Type 0
  Frame l l' =
      (l'.buffer ≡ l.buffer) × (l'.per_actor_count ≡ l.per_actor_count) × (l'.config ≡ l.config)

  increment_drop-Frame : (a : String) (l : Loop F T) → Frame l (increment_drop a l).0
  unfolding increment_drop
  increment_drop-Frame a l = ground arith

  report_drop-Frame :
      (r : String) (cmd : Command F T) (n : ℕ) (l : Loop F T) → Frame l (report_drop r cmd n l)
  unfolding report_drop
  report_drop-Frame r cmd n l = ground arith

  -- An actor is at its limit.
  abbrev pub AtLimit : Command F T → Loop F T → Type 0
  AtLimit cmd l =
      (pos 0 <ℤ l.config.per_actor_limit)
      × (cmd.actor_id ≢ "")
      × (l.config.per_actor_limit ≤ℤ pos (count_of cmd.actor_id l))

  abbrev pub Charged : Command F T → Loop F T → Loop F T → Type 0
  Charged cmd l l' =
      (pos 0 <ℤ l.config.per_actor_limit)
      × (cmd.actor_id ≢ "")
      × (pos (count_of cmd.actor_id l) <ℤ l.config.per_actor_limit)
      × (l'.per_actor_count
          ≡ insert str_dec cmd.actor_id (count_of cmd.actor_id l + 1) l.per_actor_count)

  abbrev pub Unnamed : Command F T → Loop F T → Loop F T → Type 0
  Unnamed cmd l l' =
      ((l.config.per_actor_limit ≤ℤ pos 0) ⊎ (cmd.actor_id ≡ ""))
      × (l'.per_actor_count ≡ l.per_actor_count)

  -- The throttle lets the command through, charged to its actor or not.
  abbrev pub Admitted : Command F T → Loop F T → Loop F T → Type 0
  Admitted cmd l l' =
      (l'.buffer ≡ l.buffer) × (l'.config ≡ l.config) × (Charged cmd l l' ⊎ Unnamed cmd l l')

  abbrev pub ChargeCases : Command F T → Loop F T → Loop F T × Option String × ℕ → Type 0
  ChargeCases cmd l r =
      ((r.1 ≡ some reject_queue_limit) × AtLimit cmd l × Frame l r.0)
      ⊎ ((r.1 ≡ none) × Admitted cmd l r.0)

  charge_named_cases :
      (cmd : Command F T) (l : Loop F T)
      → (pos 0 <ℤ l.config.per_actor_limit)
      → (cmd.actor_id ≢ "")
      → ChargeCases cmd l (charge_named cmd (count_of cmd.actor_id l) l)
  unfolding charge_named
  charge_named_cases cmd l h k =
      if_cases (ChargeCases cmd l) (leb_ℤ l.config.per_actor_limit (pos (count_of cmd.actor_id l)))
        _ _ (λ e. inl (refl, (h, k, ground arith), increment_drop-Frame cmd.actor_id l))
        (λ e. inr (refl, (refl, refl, inl (h, k, ground arith, refl))))

  charge_cases : (cmd : Command F T) (l : Loop F T) → ChargeCases cmd l (charge cmd l)
  unfolding charge
  charge_cases cmd l =
      if_cases (ChargeCases cmd l) (ltb_ℤ (pos 0) l.config.per_actor_limit) _ _
        (λ e.
          ite_cases (ChargeCases cmd l) (str_dec cmd.actor_id "") _ _
            (λ p. inr (refl, (refl, refl, inr (inr p, refl))))
            (λ p. charge_named_cases cmd l (ground arith) p))
        (λ e. inr (refl, (refl, refl, inr (inl (ground arith), refl))))

  abbrev Unfull : Loop F T → Type 0
  Unfull l = l.buffer.count < length l.buffer.slots

  module _ (blank : Command F T) where
    -- `cmd` went to the end of the queue.
    abbrev pub Grown : Command F T → Loop F T → Loop F T → Type 0
    Grown cmd l l' = contents blank l'.buffer ≡ contents blank l.buffer ++ (cmd ∷ [])

    abbrev pub Kept : Loop F T → Loop F T → Type 0
    Kept l l' = contents blank l'.buffer ≡ contents blank l.buffer

    abbrev pub SameCounts : Loop F T → Loop F T → Type 0
    SameCounts l l' =
        (l'.per_actor_count ≡ l.per_actor_count) × (l'.config ≡ l.config) × IsValid l'.buffer

    abbrev pub StageCases : Command F T → Loop F T → Loop F T × Option String × ℕ → Type 0
    StageCases cmd l r =
        SameCounts l r.0
        × (((r.1 ≡ none) × Unfull l × Grown cmd l r.0)
            ⊎ ((r.1 ≡ some reject_queue_limit) × (¬ Unfull l) × Kept l r.0))

    warned-Frame : (n : ℕ) (l : Loop F T) → Frame l (warn_staged n l)
    unfolding warn_staged warn_queue
    warned-Frame n l = ground arith

    framed :
        (cmd : Command F T) (l l' : Loop F T)
        → IsValid l.buffer
        → Frame (record l { buffer = (push cmd l.buffer).0 }) l'
        → SameCounts l l'
    framed cmd l l' v f = (f.1, f.2, subst IsValid (sym f.0) (push-IsValid cmd l.buffer v))

    stage_cases :
        (cmd : Command F T) (l : Loop F T) → IsValid l.buffer → StageCases cmd l (stage cmd l)
    unfolding stage
    stage_cases cmd l v = elim (push_cases blank cmd l.buffer v) [
      | inl (e, full, same) ↦
          let f = increment_drop-Frame cmd.actor_id (record l { buffer = (push cmd l.buffer).0 }) in
          rw e (
            framed cmd l
                (increment_drop cmd.actor_id (record l { buffer = (push cmd l.buffer).0 })).0 v f,
            inr (refl, (λ p. omega arith), ap (contents blank) f.0 ∙ same),
          )
      | inr (e, room, grown, more) ↦
          let f =
            warned-Frame (len (push cmd l.buffer).0)
              (record l { buffer = (push cmd l.buffer).0 }) in
          rw e (
            framed cmd l
                (warn_staged (len (push cmd l.buffer).0)
                  (record l { buffer = (push cmd l.buffer).0 }))
                v f,
            inl (refl, room, ap (contents blank) f.0 ∙ grown),
          )
    ]

    -- What one call of `Enqueue` answers, and what it does to the queue and to the counts.
    abbrev pub ReplyCases : Command F T → Loop F T → Loop F T × Bool × Option String → Type 0
    ReplyCases cmd l r =
        IsValid r.0.buffer
        × (r.0.config ≡ l.config)
        × (((r.1 ≡ true)
              × (r.2 ≡ none)
              × Unfull l
              × Grown cmd l r.0
              × (Charged cmd l r.0 ⊎ Unnamed cmd l r.0))
            ⊎ ((r.1 ≡ false)
                × (r.2 ≡ some reject_queue_limit)
                × Kept l r.0
                × ((AtLimit cmd l × (r.0.per_actor_count ≡ l.per_actor_count))
                    ⊎ ((¬ Unfull l) × (Charged cmd l r.0 ⊎ Unnamed cmd l r.0)))))

    carry :
        (cmd : Command F T) (l m r : Loop F T)
        → (r.per_actor_count ≡ m.per_actor_count)
        → Charged cmd l m ⊎ Unnamed cmd l m
        → Charged cmd l r ⊎ Unnamed cmd l r
    carry cmd l m r e (inl (a, b, c, d)) = inl (a, b, c, e ∙ d)
    carry cmd l m r e (inr (a, d)) = inr (a, e ∙ d)

    -- From the throttled loop `m` on.
    conclude_cases :
        (cmd : Command F T) (l m : Loop F T) (r : Loop F T × Option String × ℕ)
        → Admitted cmd l m
        → StageCases cmd m r
        → ReplyCases cmd l (conclude cmd r)
    unfolding conclude
    conclude_cases cmd l m (r, none, n) (b, c, a) ((p, q, v), inl (e, room, grown)) = (
      v,
      q ∙ c,
      inl (
        refl,
        refl,
        subst (λ x. x.count < length x.slots) b room,
        grown ∙ ap (λ x. contents blank x ++ (cmd ∷ [])) b,
        carry cmd l m r p a,
      ),
    )
    conclude_cases cmd l m (r, none, n) a (p, inr (e, full, kept)) = cc
    conclude_cases cmd l m (r, some s, n) a (p, inl (e, room, grown)) = cc
    conclude_cases cmd l m (r, some s, n) (b, c, a) ((p, q, v), inr (e, full, kept)) =
        let f = report_drop-Frame s cmd n r in
        (
          subst IsValid (sym f.0) v,
          f.2 ∙ q ∙ c,
          inr (
            refl,
            e,
            ap (contents blank) f.0 ∙ kept ∙ ap (contents blank) b,
            inr (
              subst (λ x. ¬ (x.count < length x.slots)) b full,
              carry cmd l m (report_drop s cmd n r) (f.1 ∙ p) a,
            ),
          ),
        )

    enqueue_cases_from :
        (cmd : Command F T) (l : Loop F T) (r : Loop F T × Option String × ℕ)
        → IsValid l.buffer
        → ChargeCases cmd l r
        → ReplyCases cmd l (conclude cmd (stage_charged cmd r))
    unfolding conclude stage_charged
    enqueue_cases_from cmd l (m, none, n) v (inl (e, at, f)) = cc
    enqueue_cases_from cmd l (m, none, n) v (inr (e, a)) =
        conclude_cases cmd l m (stage cmd m) a (stage_cases cmd m (subst IsValid (sym a.0) v))
    enqueue_cases_from cmd l (m, some s, n) v (inr (e, a)) = cc
    enqueue_cases_from cmd l (m, some s, n) v (inl (e, at, f)) =
        let g = report_drop-Frame s cmd n m in
        (
          subst IsValid (sym (g.0 ∙ f.0)) v,
          g.2 ∙ f.2,
          inr (refl, e, ap (contents blank) (g.0 ∙ f.0), inl (at, g.1 ∙ f.1)),
        )

    pub enqueue-ReplyCases :
        (cmd : Command F T) (l : Loop F T) → IsValid l.buffer → ReplyCases cmd l (enqueue cmd l)
    unfolding enqueue
    enqueue-ReplyCases cmd l v = enqueue_cases_from cmd l (charge cmd l) v (charge_cases cmd l)

    -- One call of `Enqueue` on a sound loop has three outcomes. It stages the command at the end of
    -- the queue, where the queue has room and the actor, if it is named and the limit is positive,
    -- is below its limit; the actor is then charged. It refuses a command whose actor is at the
    -- limit: the queue stays, and no actor is charged. Or it refuses the command because the queue
    -- is full: the queue stays, and the actor is charged all the same. Both refusals give the
    -- reason "queue_limit", count one drop more of the actor, modulo 2^64 and if it is named, tell
    -- the drop hook, and tell the logger where the drops of the actor are a power of two. A staged
    -- command counts no drop and brings at most a warning of the queue's new length.
    pub enqueue_cases :
        (cmd : Command F T) (l : Loop F T)
        → IsValid l.buffer
        → ReplyCases cmd l (enqueue cmd l) × DropCases cmd l (enqueue cmd l)
    enqueue_cases cmd l v = (enqueue-ReplyCases cmd l v, enqueue-DropCases cmd l)
