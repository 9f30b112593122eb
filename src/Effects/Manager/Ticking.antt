-- ===== src/Effects/Manager/Ticking.antt =====
-- server/internal/world/effects/manager.go, `RunTick`: the loop over the instances. An instance that is
-- not over stays live, one that is over has its last event behind it, and the others are not touched.
use mine_and_die.Prelude.{
  ℕ, ◌<◌, ◌≤◌, ◌≡◌, ◌≢◌, refl, sym, ap, ◌∙◌, subst, Bool, true, false, ◌&&◌, List, [], ◌∷◌, some,
  String, str_dec, if◌then◌else◌, if_cases, option_cases, count, All, arith,
}
use mine_and_die.Prelude.Int.{ℤ}
use mine_and_die.Journal.Contract.{EffectInstance}
use mine_and_die.Effects.Instances.{
  should_invoke_on_tick, should_invoke_on_tick-id, evaluate_end_policy, evaluate_end_policy-id,
}
use mine_and_die.Effects.Manager.{
  Surroundings, ManagerConfig, Output, Shuffle, LifecycleEvent, updated, ended, invoke_on_tick,
  emit, Step, tick_instance, Ticked, tick_all,
}
use mine_and_die.Effects.Manager.Entries.{keys}
use mine_and_die.Effects.Manager.Tracks.{
  view, IsLive, IsSound, Carries, emit-other, emit-IsLive, emit-IsSound,
}
use mine_and_die.Effects.Manager.Valid.{invoke_on_tick-id, KeepsIds, Keyed}

-- One event, or none, of the instance `id`.
record Emitted (id : String) (final : Bool) (out out' : Output) : Type 0 where
  pub other : (j : String) → j ≢ id → view j out' ≡ view j out
  pub live : final ≡ false → IsLive (view id out) → IsLive (view id out')
  pub sound : IsLive (view id out) → IsSound (view id out')

emit-Emitted :
    (id from : String) (e : from ≡ id) (named : id ≢ "") (final : Bool) (event : ℤ → LifecycleEvent)
    (c : Carries from final event) (out : Output) (wanted : Bool)
    → Emitted id final out (emit wanted from event out)
emit-Emitted id from e named final event c out wanted =
    let n : from ≢ "" = λ p. named (sym e ∙ p) in
    let out' = emit wanted from event out in
    record {
      other = λ j a. emit-other from n final event c out wanted j (λ p. a (p ∙ e));
      live = λ f.
          subst (λ k. IsLive (view k out) → IsLive (view k out')) e
            (emit-IsLive from n final event c out wanted f);
      sound =
          subst (λ k. IsLive (view k out) → IsSound (view k out')) e
            (emit-IsSound from n final event c out wanted);
    }

alone_at :
    (j key : String) (rest : List (String × EffectInstance))
    → j ≡ key
    → count str_dec key (keys rest) ≡ 0
    → count str_dec j (keys rest) ≡ 0
alone_at j key rest p h = subst (λ i. count str_dec i (keys rest) ≡ 0) (sym p) h

-- An id that is not among the ended ones is neither the first nor among the rest.
not_over :
    (j : String) (over : Bool) (id : String)
    → j ≡ id
    → (rest : List String) → count str_dec j (if over then id ∷ rest else rest) ≡ 0
    → over ≡ false
not_over j false id p rest h = refl
not_over j true id p rest h = absurd (ground arith)

not_in_rest :
    (j : String) (over : Bool) (id : String) (rest : List String)
    → count str_dec j (if over then id ∷ rest else rest) ≡ 0
    → count str_dec j rest ≡ 0
not_in_rest j false id rest h = h
not_in_rest j true id rest h = omega arith

module _ {F R Y W : Type 0} (cfg : ManagerConfig F R Y W) (keeps : KeepsIds cfg) (name : ℕ → String)
    (shuffle : Shuffle) where
  record Turned (inst : EffectInstance) (out : Output) (step : Step cfg name shuffle) : Type 0 where
    pub same : step.inst.id ≡ inst.id
    pub other : (j : String) → j ≢ inst.id → view j step.output ≡ view j out
    pub live : step.over ≡ false → IsLive (view inst.id out) → IsLive (view inst.id step.output)
    pub sound : IsLive (view inst.id out) → IsSound (view inst.id step.output)

  tick_instance-Turned :
      (tick now : ℤ) (inst : EffectInstance) (s : Surroundings F R Y W) (out : Output)
      → inst.id ≢ ""
      → Turned inst out (tick_instance cfg name shuffle tick now inst s out)
  unfolding tick_instance
  tick_instance-Turned tick now inst s out named =
      let due = should_invoke_on_tick inst in
      let run = if due.0 then invoke_on_tick cfg tick now due.1 s else (due.1, s) in
      let same : run.0.id ≡ inst.id =
        if_cases (λ (r : EffectInstance × Surroundings F R Y W). r.0.id ≡ inst.id) due.0
          (invoke_on_tick cfg tick now due.1 s) (due.1, s)
          (λ _. invoke_on_tick-id cfg keeps tick now due.1 s ∙ should_invoke_on_tick-id inst)
          (λ _. should_invoke_on_tick-id inst) in
      let event = λ (seq : ℤ). updated (record {
        tick = tick;
        seq = seq;
        id = run.0.id;
        delivery_state = some run.0.delivery_state;
        behavior_state = some run.0.behavior_state;
        params = [];
      }) in
      let wanted = run.0.replication.send_updates && due.0 in
      let out' = emit wanted run.0.id event out in
      let up =
        emit-Emitted inst.id run.0.id same named false event
          (record { ids = λ s. refl; seqs = λ s. refl; kind = λ s. refl }) out wanted in
      let decision = evaluate_end_policy (cfg.owner_missing run.1.world) tick run.0 in
      let last : decision.1.id ≡ inst.id =
        evaluate_end_policy-id (cfg.owner_missing run.1.world) tick run.0 ∙ same in
      option_cases (Turned inst out) decision.0
        (record { inst = decision.1; surroundings = run.1; output = out'; over = false })
        (λ reason. record {
          inst = decision.1;
          surroundings = run.1;
          output =
              emit decision.1.replication.send_end decision.1.id
                (λ seq.
                  ended (record { tick = tick; seq = seq; id = decision.1.id; reason = reason }))
                out';
          over = true;
        })
        (λ _. record { same = last; other = up.other; live = λ f. up.live refl; sound = up.sound })
        (λ reason _.
          let fin =
            emit-Emitted inst.id decision.1.id last named true
              (λ seq.
                ended (record { tick = tick; seq = seq; id = decision.1.id; reason = reason }))
              (record { ids = λ s. refl; seqs = λ s. refl; kind = λ s. refl }) out'
              decision.1.replication.send_end in
          record {
            same = last;
            other = λ j a. fin.other j a ∙ up.other j a;
            live = λ f l. cc;
            sound = λ l. fin.sound (up.live refl l);
          })

  -- What the loop leaves, for the entries that it meets and for the rest.
  pub record Round (l : List (String × EffectInstance)) (out : Output) (t : Ticked cfg name shuffle)
      : Type 0 where
    pub keyed : All Keyed t.instances
    pub same_keys : (j : String) → count str_dec j (keys t.instances) ≡ count str_dec j (keys l)
    pub away : (j : String) → count str_dec j (keys l) ≡ 0 → view j t.output ≡ view j out
    pub live :
        (j : String)
        → 0 < count str_dec j (keys l)
        → count str_dec j t.over ≡ 0
        → IsLive (view j t.output)
    pub sound : (j : String) → 0 < count str_dec j (keys l) → IsSound (view j t.output)

  pub tick_all-Round :
      (tick now : ℤ) (l : List (String × EffectInstance)) (s : Surroundings F R Y W) (out : Output)
      → All Keyed l
      → ((j : String) → count str_dec j (keys l) ≤ 1)
      → ((j : String) → 0 < count str_dec j (keys l) → IsLive (view j out))
      → Round l out (tick_all cfg name shuffle tick now l s out)
  unfolding tick_all
  tick_all-Round tick now [] s out k d v = record {
    keyed = tt;
    same_keys = λ j. refl;
    away = λ j h. refl;
    live = λ j h. absurd (omega arith);
    sound = λ j h. absurd (omega arith);
  }
  tick_all-Round tick now ((key, inst) ∷ rest) s out k d v =
      let one = tick_instance cfg name shuffle tick now inst s out in
      let id : key ≡ inst.id = k.0.0 in
      let turned = tick_instance-Turned tick now inst s out (λ p. k.0.1 (id ∙ p)) in
      let alone : count str_dec key (keys rest) ≡ 0 = ground (arith, d key) in
      let other : (j : String) → j ≢ key → view j one.output ≡ view j out =
        λ j n. turned.other j (λ p. n (p ∙ sym id)) in
      let r =
        tick_all-Round tick now rest one.surroundings one.output k.1 (λ j. omega (arith, d j))
          (λ j h.
            subst IsLive
              (sym (
                other j
                  (λ p. absurd (omega (arith, alone, ap (λ i. count str_dec i (keys rest)) p)))))
              (v j (omega arith))) in
      let first : IsLive (view inst.id out) =
        subst (λ i. IsLive (view i out)) id (v key (ground arith)) in
      record {
        keyed = ((id ∙ sym turned.same, k.0.1), r.keyed);
        same_keys = λ j. omega (arith, r.same_keys j);
        away = λ j h. r.away j (omega arith) ∙ other j (λ p. absurd (ground arith));
        live = λ j h o. elim (str_dec j key) [
          | yes p ↦ subst IsLive (sym (r.away j (alone_at j key rest p alone))) (
              subst (λ i. IsLive (view i one.output)) (sym (p ∙ id))
                (turned.live
                  (not_over j one.over one.inst.id (p ∙ id ∙ sym turned.same)
                    (tick_all cfg name shuffle tick now rest one.surroundings one.output).over o)
                  first))
          | no n ↦ r.live j (ground arith) (
              not_in_rest j one.over one.inst.id
                (tick_all cfg name shuffle tick now rest one.surroundings one.output).over o)
        ];
        sound = λ j h. elim (str_dec j key) [
          | yes p ↦
              subst IsSound (sym (r.away j (alone_at j key rest p alone)))
                (subst (λ i. IsSound (view i one.output)) (sym (p ∙ id)) (turned.sound first))
          | no n ↦ r.sound j (ground arith)
        ];
      }
