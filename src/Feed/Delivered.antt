-- ===== src/Feed/Delivered.antt =====
-- server/simulation.go and server/internal/journal/journal.go: where the recorded events go.
use mine_and_die.Prelude.{
  ◌≡◌, ◌≢◌, sym, ap, ◌∙◌, List, [], ◌∷◌, ◌++◌, append-nil, append_assoc, String, All,
}
use mine_and_die.Journal.State.{Journal}
use mine_and_die.Journal.Effects.{EffectEventBatch}
use mine_and_die.Journal.Effects.Accept.{Grew}
use mine_and_die.Journal.Batches.{drain_effect_events}
use mine_and_die.Journal.Batches.Untouched.{drain_effect_events-lists}
use mine_and_die.Effects.Manager.{LifecycleEvent}
use mine_and_die.Effects.Manager.Log.{event_id}
use mine_and_die.Feed.{
  Step, records, drains, events_of, record_lifecycle_event, gather, spawn_in, update_in, end_in,
  deliver, Delivered,
}
use mine_and_die.Feed.Accepted.{Ready, took, next_Ready, drained_Ready}

module _ {D P : Type 0} where
  -- Of one kind of event: `staged` in a journal, `handed` out in a batch, `part` of the event.
  module _ {X : Type 0} (staged : Journal D P → List X) (handed : EffectEventBatch → List X)
      (part : LifecycleEvent → List X)
      (drained : (j : Journal D P)
        → handed (drain_effect_events j).1 ++ staged (drain_effect_events j).0 ≡ staged j)
      (grown : (e : LifecycleEvent) (j k : Journal D P)
        → Grew (spawn_in e) (update_in e) (end_in e) j k
        → staged k ≡ staged j ++ part e) where
    kind_delivered :
        (steps : List Step) (j : Journal D P)
        → All (λ e. event_id e ≢ "") (events_of steps)
        → ((id : String) → Ready id j (events_of steps))
        → gather handed (deliver steps j).1 ++ staged (deliver steps j).0
          ≡ staged j ++ gather part (events_of steps)
    unfolding gather deliver
    kind_delivered [] j n r = sym (append-nil (staged j))
    kind_delivered (drains ∷ steps) j n r =
        let (k, batch) = drain_effect_events j in
        let (j', batches) = deliver steps k in
        let es = events_of steps in
        append_assoc (handed batch) (gather handed batches) (staged j')
        ∙ ap (λ x. handed batch ++ x)
            (kind_delivered steps k n (λ id. drained_Ready id es j (r id)))
        ∙ sym (append_assoc (handed batch) (staged k) (gather part es))
        ∙ ap (λ x. x ++ gather part es) (drained j)
    kind_delivered (records e ∷ steps) j n r =
        let es = events_of steps in
        let t = took e es j (r (event_id e)) n.0 in
        let k = (record_lifecycle_event e j).0 in
        kind_delivered steps k n.1 (next_Ready e es j k r t.1)
        ∙ ap (λ x. x ++ gather part es) (grown e j k t.2)
        ∙ append_assoc (staged j) (part e) (gather part es)

  pub deliver-Delivered :
      (steps : List Step) (j : Journal D P)
      → (j.spawns ≡ []) × (j.updates ≡ []) × (j.ends ≡ [])
      → All (λ e. event_id e ≢ "") (events_of steps)
      → ((id : String) → Ready id j (events_of steps))
      → Delivered (events_of steps) (deliver steps j)
  unfolding Delivered
  deliver-Delivered steps j (s, u, e) n r =
      let es = events_of steps in
      (
        kind_delivered (λ j. j.spawns) (λ b. b.spawns) spawn_in
              (λ j. (drain_effect_events-lists j).0) (λ e j k g. g.0) steps j n r
            ∙ ap (λ x. x ++ gather spawn_in es) s,
        kind_delivered (λ j. j.updates) (λ b. b.updates) update_in
              (λ j. (drain_effect_events-lists j).1) (λ e j k g. g.1) steps j n r
            ∙ ap (λ x. x ++ gather update_in es) u,
        kind_delivered (λ j. j.ends) (λ b. b.ends) end_in (λ j. (drain_effect_events-lists j).2)
              (λ e j k g. g.2) steps j n r
            ∙ ap (λ x. x ++ gather end_in es) e,
      )
