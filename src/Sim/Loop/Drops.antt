-- ===== src/Sim/Loop/Drops.antt =====
-- server/internal/sim/loop.go: what `Enqueue` counts and reports.
use mine_and_die.Prelude.{
  ℕ, ◌+◌, ◌-◌, ◌%◌, ◌≡◌, refl, sym, ap, ◌∙◌, ◌⊎◌, inl, inr, Bool, true, false, ◌&&◌, List, [], ◌∷◌,
  ◌++◌, Option, ite, String, str_dec, insert, lookup_or, if_cases, ite_cases, if◌then◌else◌, ltb,
  ◌==◌, add_u64, bit_and, append_assoc, append-nil,
}
use mine_and_die.Prelude.Int.{pos, pos_part, leb_ℤ, ltb_ℤ}
use mine_and_die.Sim.Command.{Command}
use mine_and_die.Sim.Buffer.{push, len}
use mine_and_die.Sim.Loop.{
  Loop, Report, queue_warning, command_drop, backpressure, reject_queue_limit, count_of,
  is_power_of_two, report, increment_drop, drop_hook, report_drop, refuse, charge, charge_named,
  stage, conclude, enqueue, stage_charged, warn_queue, warn_staged,
}

module _ {F T : Type 0} where
  -- The drops of the actor, this one included; none are counted without a name.
  abbrev pub drops_of : Command F T → Loop F T → ℕ
  drops_of cmd l =
      ite (str_dec cmd.actor_id "") 0 (add_u64 (lookup_or str_dec 0 cmd.actor_id l.drop_counts) 1)

  -- The hook is told of the drop, and the logger of every drop whose number is a power of two.
  abbrev pub drop_reports : Command F T → ℕ → Loop F T → List (Report F T)
  drop_reports cmd n l =
      (if l.hooks.on_command_drop then command_drop "queue_limit" cmd ∷ [] else [])
      ++ (if (ltb 0 n && (bit_and n (n - 1) == 0)) && l.logger
          then backpressure cmd.actor_id cmd.type n l.config.per_actor_limit ∷ []
          else [])

  abbrev pub Dropped : Command F T → Loop F T → Loop F T → Type 0
  Dropped cmd l l' =
      (l'.drop_counts
        ≡ ite (str_dec cmd.actor_id "") l.drop_counts
            (insert str_dec cmd.actor_id (drops_of cmd l) l.drop_counts))
      × (l'.reports ≡ l.reports ++ drop_reports cmd (drops_of cmd l) l)

  -- No drop; at most one warning, of the length of the queue.
  abbrev pub Undropped : Loop F T → Loop F T → Type 0
  Undropped l l' =
      (l'.drop_counts ≡ l.drop_counts)
      × ((l'.reports ≡ l.reports)
          ⊎ (l'.reports ≡ l.reports ++ (queue_warning l'.buffer.count ∷ [])))

  abbrev pub DropCases : Command F T → Loop F T → Loop F T × Bool × Option String → Type 0
  DropCases cmd l r = ((r.1 ≡ true) × Undropped l r.0) ⊎ ((r.1 ≡ false) × Dropped cmd l r.0)

  told : Command F T → Loop F T → List (Report F T)
  told cmd l = if l.hooks.on_command_drop then command_drop "queue_limit" cmd ∷ [] else []

  drop_hook_lem :
      (cmd : Command F T) (l : Loop F T)
      → ((drop_hook "queue_limit" cmd l).reports ≡ l.reports ++ told cmd l)
        × ((drop_hook "queue_limit" cmd l).drop_counts ≡ l.drop_counts)
  unfolding drop_hook report told
  drop_hook_lem cmd l =
      if_cases
        (λ (b : Loop F T). (b.reports ≡ l.reports ++ told cmd l) × (b.drop_counts ≡ l.drop_counts))
        l.hooks.on_command_drop _ _ (λ e. (rw e refl, refl))
        (λ e. (rw e (sym (append-nil l.reports)), refl))

  report_drop_lem :
      (cmd : Command F T) (n : ℕ) (l : Loop F T)
      → ((report_drop reject_queue_limit cmd n l).reports ≡ l.reports ++ drop_reports cmd n l)
        × ((report_drop reject_queue_limit cmd n l).drop_counts ≡ l.drop_counts)
  unfolding report_drop report is_power_of_two told
  report_drop_lem cmd n l =
      let (e, c) = drop_hook_lem cmd l in
      let hit = (ltb 0 n && (bit_and n (n - 1) == 0)) && l.logger in
      ite_cases Q (str_dec reject_queue_limit reject_queue_limit) _ _
        (λ p.
          if_cases Q hit _ _
            (λ h.
              let b = backpressure cmd.actor_id cmd.type n l.config.per_actor_limit ∷ [] in
              (ap (λ x. x ++ b) e ∙ append_assoc l.reports (told cmd l) b ∙ rw h refl, c))
            (λ h. (e ∙ ap (λ x. l.reports ++ x) (sym (append-nil (told cmd l))) ∙ rw h refl, c)))
        (λ p. absurd (p refl))
    where
      Q : Loop F T → Type 0
      Q m = (m.reports ≡ l.reports ++ drop_reports cmd n l) × (m.drop_counts ≡ l.drop_counts)

  -- Where it is decided whether the actor is named.
  refused_as :
      (cmd : Command F T) (l : Loop F T) (d : Dec (cmd.actor_id ≡ ""))
      → let count = add_u64 (lookup_or str_dec 0 cmd.actor_id l.drop_counts) 1 in
        let n = ite d 0 count in
        let r : Loop F T × ℕ =
          ite d
            (l, 0)
            (record l { drop_counts = insert str_dec cmd.actor_id count l.drop_counts }, count) in
        let l' = report_drop reject_queue_limit cmd r.1 r.0 in
        (l'.drop_counts ≡ ite d l.drop_counts (insert str_dec cmd.actor_id n l.drop_counts))
        × (l'.reports ≡ l.reports ++ drop_reports cmd n l)
  refused_as cmd l (yes p) = let (e, c) = report_drop_lem cmd 0 l in (c, e)
  refused_as cmd l (no p) =
      let count = add_u64 (lookup_or str_dec 0 cmd.actor_id l.drop_counts) 1 in
      let (e, c) =
        report_drop_lem cmd count
          (record l { drop_counts = insert str_dec cmd.actor_id count l.drop_counts }) in
      (c, e)

  refused-Dropped :
      (cmd : Command F T) (l : Loop F T)
      → DropCases cmd l (conclude cmd (refuse (increment_drop cmd.actor_id l)))
  unfolding increment_drop refuse conclude
  refused-Dropped cmd l = inr (refl, refused_as cmd l (str_dec cmd.actor_id ""))

  warned-Undropped : (n : ℕ) (l : Loop F T) → n ≡ l.buffer.count → Undropped l (warn_staged n l)
  unfolding warn_staged warn_queue report
  warned-Undropped n l e =
      let step = l.config.warning_step in
      if_cases (Undropped l) (ltb_ℤ (pos 0) step && leb_ℤ step (pos n) && (n % pos_part step == 0))
        (warn_queue n l) l
        (λ a.
          if_cases (Undropped l) l.hooks.on_queue_warning (report (queue_warning n) l) l
            (λ b. (refl, inr (ap (λ k. l.reports ++ (queue_warning k ∷ [])) e)))
            (λ b. (refl, inl refl)))
        (λ a. (refl, inl refl))

  stage-DropCases :
      (cmd : Command F T) (l : Loop F T) → DropCases cmd l (conclude cmd (stage cmd l))
  unfolding stage conclude len
  stage-DropCases cmd l =
      let l' = record l { buffer = (push cmd l.buffer).0 } in
      if_cases (λ r. DropCases cmd l (conclude cmd r)) (push cmd l.buffer).1 _ _
        (λ e. inl (refl, warned-Undropped (len (push cmd l.buffer).0) l' refl))
        (λ e. refused-Dropped cmd l')

  -- What one call of `Enqueue` counts and reports: a refusal counts one more drop of a named actor.
  pub enqueue-DropCases : (cmd : Command F T) (l : Loop F T) → DropCases cmd l (enqueue cmd l)
  unfolding enqueue charge charge_named stage_charged refuse conclude
  enqueue-DropCases cmd l =
      if_cases Q (ltb_ℤ (pos 0) l.config.per_actor_limit) _ _
        (λ e.
          ite_cases Q (str_dec cmd.actor_id "") _ _ (λ p. stage-DropCases cmd l)
            (λ p.
              if_cases Q (leb_ℤ l.config.per_actor_limit (pos (count_of cmd.actor_id l))) _ _
                (λ h. refused-Dropped cmd l)
                (λ h. stage-DropCases cmd (record l {
                  per_actor_count =
                      insert str_dec cmd.actor_id (count_of cmd.actor_id l + 1) l.per_actor_count;
                }))))
        (λ e. stage-DropCases cmd l)
    where
      Q : Loop F T × Option String × ℕ → Type 0
      Q r = DropCases cmd l (conclude cmd (stage_charged cmd r))
