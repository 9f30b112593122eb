-- ===== src/Effects/Manager/Numbered.antt =====
-- server/internal/world/effects/manager.go: a tick keeps the invariant.
use mine_and_die.Prelude.{
  ℕ, ◌^◌, ◌<◌, ◌≤◌, ◌≡◌, ◌≢◌, inl, inr, refl, sym, ap, ◌∙◌, subst, List, [], ◌∷◌, String, str_dec,
  delete, lookup_or, lookup-delete, count, All, arith, ltb, Bool-cases,
}
use mine_and_die.Prelude.Int.{ℤ, pos}
use mine_and_die.Journal.Contract.{EffectInstance}
use mine_and_die.Effects.Manager.{
  Manager, ManagerConfig, Sink, Output, Shuffle, Ticked, send_spawns, tick_all, clean_up, released,
}
use mine_and_die.Effects.Manager.Entries.{keys, count-delete, All-delete}
use mine_and_die.Effects.Manager.Tracks.{View, view, IsLive, IsSound}
use mine_and_die.Effects.Manager.Valid.{
  IsNaming, IsIteration, KeepsIds, Keyed, output, IsFresh, Valid,
}
use mine_and_die.Effects.Manager.Announcing.{Announced, send_spawns-Announced}
use mine_and_die.Effects.Manager.Ticking.{Round, tick_all-Round}

All-imp :
    {A : Type 0} (P Q : A → Type 0) (xs : List A) → ((x : A) → P x → Q x) → All P xs → All Q xs
All-imp P Q [] f h = tt
All-imp P Q (x ∷ xs) f h = (f x h.0, All-imp P Q xs f h.1)

lookup_or-delete_ne :
    (id j : String) (seqs : List (String × ℤ))
    → j ≢ id
    → lookup_or str_dec (pos 0) j (delete str_dec id seqs) ≡ lookup_or str_dec (pos 0) j seqs
unfolding lookup_or
lookup_or-delete_ne id j seqs n = ground (arith, lookup-delete str_dec id j seqs)

module _ {F R Y W : Type 0} (cfg : ManagerConfig F R Y W) (keeps : KeepsIds cfg) (name : ℕ → String)
    (naming : IsNaming name) (shuffle : Shuffle) (iteration : IsIteration shuffle) where
  clean_up-Valid :
      (sink : Sink) (ids : List String) (m : Manager F R Y W)
      → All Keyed m.instances
      → ((j : String) → count str_dec j (keys m.instances) ≤ 1)
      → ((j : String)
          → 0 < count str_dec j (keys m.instances)
          → count str_dec j ids ≡ 0
          → IsLive (view j (output m sink)))
      → ((j : String) → IsSound (view j (output m sink)))
      → ((n : ℕ) → m.next_instance_id < n → n < 2 ^ 64 → IsFresh (name n) m sink)
      → Valid name (clean_up cfg name shuffle ids m) sink
  unfolding clean_up
  clean_up-Valid sink [] m k d l s f = record {
    keyed = k;
    distinct = d;
    live = λ j h. l j h refl;
    sound = s;
    fresh = f;
  }
  clean_up-Valid sink (id ∷ ids) m k d l s f =
      let m' : Manager F R Y W = record m {
        instances = delete str_dec id m.instances;
        seq_by_instance = delete str_dec id m.seq_by_instance;
        surroundings = released cfg name shuffle id m.surroundings;
      } in
      let left = λ (j : String). count-delete j id m.instances in
      clean_up-Valid sink ids m' (All-delete Keyed id m.instances k)
        (λ j. ground (arith, left j, d j))
        (λ j h o.
          let n : j ≢ id = λ p. absurd (ground (arith, left j)) in
          let live = l j (ground (arith, left j)) (ground arith) in
          record {
            length = live.length;
            next = lookup_or-delete_ne id j m.seq_by_instance n ∙ live.next;
            counted = live.counted;
            unended = live.unended;
            in_time = live.in_time;
          })
        (λ j. record { length = (s j).length; counted = (s j).counted; in_time = (s j).in_time })
        (λ n h b.
          let g = f n h b in
          record {
            no_key = ground (arith, left (name n), g.no_key);
            no_number = g.no_number;
            no_end = g.no_end;
            none_late = g.none_late;
          })

  module _ (m : Manager F R Y W) (sink : Sink) (v : Valid name m sink) (news : List EffectInstance)
      (known : All
        (λ (inst : EffectInstance). (0 < count str_dec inst.id (keys m.instances)) × (inst.id ≢ ""))
        news)
      (tick now : ℤ) where
    no_news :
        (j : String)
        → count str_dec j (keys m.instances) ≡ 0
        → All (λ (inst : EffectInstance). j ≢ inst.id) news
    no_news j h =
        All-imp
          (λ (inst : EffectInstance).
            (0 < count str_dec inst.id (keys m.instances)) × (inst.id ≢ ""))
          (λ (inst : EffectInstance). j ≢ inst.id) news
          (λ inst k p. absurd (omega (arith, k.0, ap (λ i. count str_dec i (keys m.instances)) p)))
          known

    announced : Announced news (output m sink) (send_spawns tick news (output m sink))
    announced =
        send_spawns-Announced tick news (output m sink)
          (λ j a. elim (Bool-cases (ltb 0 (count str_dec j (keys m.instances)))) [
            | inl e ↦ v.live j (ground arith)
            | inr e ↦ absurd (a (no_news j (ground arith)))
          ])
          (All-imp
            (λ (inst : EffectInstance).
              (0 < count str_dec inst.id (keys m.instances)) × (inst.id ≢ ""))
            (λ (inst : EffectInstance). inst.id ≢ "") news (λ inst k. k.1) known)

    abbrev pub out : Output
    out = send_spawns tick news (output m sink)

    abbrev pub ticked : Ticked cfg name shuffle
    ticked = tick_all cfg name shuffle tick now (shuffle m.instances) m.surroundings out

    round : Round cfg keeps name shuffle (shuffle m.instances) out ticked
    round =
        tick_all-Round cfg keeps name shuffle tick now (shuffle m.instances) m.surroundings out
          (iteration.every Keyed m.instances v.keyed)
          (λ j. omega (arith, iteration.counts j m.instances, v.distinct j))
          (λ j h. announced.live j (v.live j (omega (arith, iteration.counts j m.instances))))

    ticked-IsSound : (j : String) → IsSound (view j ticked.output)
    ticked-IsSound j = elim (Bool-cases (ltb 0 (count str_dec j (keys (shuffle m.instances))))) [
      | inl e ↦ round.sound j (ground arith)
      | inr e ↦ subst IsSound (sym (round.away j (ground arith))) (announced.sound j (v.sound j))
    ]

    pub view_away :
        (j : String)
        → count str_dec j (keys m.instances) ≡ 0
        → view j ticked.output ≡ view j (output m sink)
    view_away j h =
        round.away j (omega (arith, iteration.counts j m.instances))
        ∙ announced.away j (no_news j h)

    pub ticked-Valid :
        (total : ℤ)
        → Valid name
            (clean_up cfg name shuffle ticked.over (record m {
              instances = ticked.instances;
              seq_by_instance = ticked.output.seqs;
              surroundings = ticked.surroundings;
              total_drained = total;
            }))
            ticked.output.sink
    ticked-Valid total =
        let counts = λ (j : String). round.same_keys j ∙ iteration.counts j m.instances in
        clean_up-Valid ticked.output.sink ticked.over
          (record m {
            instances = ticked.instances;
            seq_by_instance = ticked.output.seqs;
            surroundings = ticked.surroundings;
            total_drained = total;
          })
          round.keyed (λ j. omega (arith, counts j, v.distinct j))
          (λ j h o. round.live j (omega (arith, round.same_keys j)) o) ticked-IsSound
          (λ n h b.
            let f = v.fresh n h b in
            let e = view_away (name n) f.no_key in
            record {
              no_key = counts (name n) ∙ f.no_key;
              no_number = ap (λ (w : View). w.numbers) e ∙ f.no_number;
              no_end = ap (λ (w : View). w.ends) e ∙ f.no_end;
              none_late = ap (λ (w : View). w.late) e ∙ f.none_late;
            })
