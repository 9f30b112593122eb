-- ===== src/Effects/Manager/Announcing.antt =====
-- server/internal/world/effects/manager.go, `RunTick`: the spawn events of the new instances.
use mine_and_die.Prelude.{
  ◌≡◌, ◌≢◌, refl, sym, ◌∙◌, subst, false, List, [], ◌∷◌, String, str_dec, All,
}
use mine_and_die.Prelude.Int.{ℤ}
use mine_and_die.Journal.Contract.{EffectInstance}
use mine_and_die.Effects.Manager.{Output, spawned, send_spawns, emit}
use mine_and_die.Effects.Manager.Tracks.{
  view, IsLive, IsSound, Carries, emit-other, emit-IsLive, emit-IsSound,
}

-- What the spawn events leave: live instances stay live, and others are not touched.
pub record Announced (news : List EffectInstance) (out out' : Output) : Type 0 where
  pub live : (j : String) → IsLive (view j out) → IsLive (view j out')
  pub sound : (j : String) → IsSound (view j out) → IsSound (view j out')
  pub away :
      (j : String) → All (λ (inst : EffectInstance). j ≢ inst.id) news → view j out' ≡ view j out

-- What the events keep of each instance that is live is shown for one of them, then for all.
announce_one :
    (tick : ℤ) (inst : EffectInstance) (out : Output)
    → IsLive (view inst.id out)
    → inst.id ≢ ""
    → Announced (inst ∷ []) out (
        emit inst.replication.send_spawn inst.id
          (λ seq. spawned (record { tick = tick; seq = seq; spawned = inst }))
          out)
announce_one tick inst out l n =
    let event = λ (seq : ℤ). spawned (record { tick = tick; seq = seq; spawned = inst }) in
    let c : Carries inst.id false event = record {
      ids = λ s. refl;
      seqs = λ s. refl;
      kind = λ s. refl;
    } in
    let out' = emit inst.replication.send_spawn inst.id event out in
    let other = λ (j : String) (away : j ≢ inst.id).
      emit-other inst.id n false event c out inst.replication.send_spawn j away in
    record {
      live = λ j k. elim (str_dec j inst.id) [
        | yes p ↦
            subst (λ k. IsLive (view k out')) (sym p)
              (emit-IsLive inst.id n false event c out inst.replication.send_spawn refl l)
        | no a ↦ subst IsLive (sym (other j a)) k
      ];
      sound = λ j k. elim (str_dec j inst.id) [
        | yes p ↦
            subst (λ k. IsSound (view k out')) (sym p)
              (emit-IsSound inst.id n false event c out inst.replication.send_spawn l)
        | no a ↦ subst IsSound (sym (other j a)) k
      ];
      away = λ j a. other j a.0;
    }

pub send_spawns-Announced :
    (tick : ℤ) (news : List EffectInstance) (out : Output)
    → ((j : String) → ¬ All (λ (inst : EffectInstance). j ≢ inst.id) news → IsLive (view j out))
    → All (λ (inst : EffectInstance). inst.id ≢ "") news
    → Announced news out (send_spawns tick news out)
unfolding send_spawns
send_spawns-Announced tick [] out l n = record {
  live = λ j k. k;
  sound = λ j k. k;
  away = λ j a. refl;
}
send_spawns-Announced tick (inst ∷ rest) out l n =
    let one = announce_one tick inst out (l inst.id (λ a. a.0 refl)) n.0 in
    let out' =
      emit inst.replication.send_spawn inst.id
        (λ seq. spawned (record { tick = tick; seq = seq; spawned = inst })) out in
    let all = send_spawns-Announced tick rest out' (λ j a. one.live j (l j (λ b. a b.1))) n.1 in
    record {
      live = λ j k. all.live j (one.live j k);
      sound = λ j k. all.sound j (one.sound j k);
      away = λ j a. all.away j a.1 ∙ one.away j (a.0, tt);
    }
