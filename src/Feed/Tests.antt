-- ===== src/Feed/Tests.antt =====
-- A fire that the effect manager starts, as server/internal/journal/journal.go records it.
use mine_and_die.Prelude.{
  ℕ, ◌≡◌, ◌≢◌, refl, ap, true, false, List, [], ◌∷◌, String, str_dec, All, arith, length, lookup,
  insert, delete, lookup_or,
}
use mine_and_die.Prelude.Int.{pos, add_int64, ◌+ℤ◌, ◌-ℤ◌}
use mine_and_die.Journal.State.{new_journal}
use mine_and_die.Effects.Instances.{instantiate, should_invoke_on_tick, evaluate_end_policy}
use mine_and_die.Effects.Manager.{LifecycleEvent, new_manager}
use mine_and_die.Effects.Manager.Log.{event_id}
use mine_and_die.Effects.Manager.Runs.{Call, enqueues, ticks, run}
use mine_and_die.Effects.Manager.Tests.{
  tally, tally-IsNaming, in_order, in_order-IsIteration, fires, fires-KeepsIds, ignite, registry,
}
use mine_and_die.Feed.{Step, records, drains, events_of, record_all, deliver, Delivered}
use mine_and_die.Feed.Accepted.{introduced, is_spawn}
use mine_and_die.Feed.Recorded.{record_all-run}

abbrev one_fire : List Call
one_fire = enqueues ignite ∷ ticks (pos 7) (pos 100) true ∷ []

-- Events of one instance, the first of which is a spawn.
introduced_seen : (id : String) (es : List LifecycleEvent) → introduced id true es ≡ true
introduced_seen id [] = refl
introduced_seen id (e ∷ es) = ground (arith, introduced_seen id es)

introduced_other :
    (id x : String) (es : List LifecycleEvent)
    → id ≢ x
    → All (λ e. event_id e ≡ x) es
    → introduced id false es ≡ true
introduced_other id x [] n h = refl
introduced_other id x (e ∷ es) n h = ground (arith, introduced_other id x es n h.1, h.0)

introduced_one :
    (id : String) (e : LifecycleEvent) (es : List LifecycleEvent)
    → is_spawn e ≡ true
    → All (λ d. event_id d ≡ event_id e) es
    → introduced id false (e ∷ es) ≡ true
introduced_one id e es s h = elim (str_dec id (event_id e)) [
  | yes p ↦ ground (arith, introduced_seen id es)
  | no n ↦ introduced_other id (event_id e) (e ∷ es) n (refl, h)
]

abbrev OneSpawned : List LifecycleEvent → Type 0
OneSpawned [] = Unit
OneSpawned (e ∷ es) = (is_spawn e ≡ true) × All (λ d. event_id d ≡ event_id e) es

introduced_log :
    (id : String) (es : List LifecycleEvent) → OneSpawned es → introduced id false es ≡ true
introduced_log id [] h = refl
introduced_log id (e ∷ es) h = introduced_one id e es h.0 h.1

-- Each event and then a drain.
abbrev with_drains : List LifecycleEvent → List Step
with_drains [] = []
with_drains (e ∷ es) = records e ∷ drains ∷ with_drains es

events_of-with_drains : (es : List LifecycleEvent) → events_of (with_drains es) ≡ es
events_of-with_drains [] = refl
events_of-with_drains (e ∷ es) = ap (◌∷◌ e) (events_of-with_drains es)

abbrev log : List LifecycleEvent
log = run fires tally in_order one_fire (new_manager registry 0) []

log-OneSpawned : OneSpawned log
unfolding run tally instantiate should_invoke_on_tick evaluate_end_policy lookup insert delete
    lookup_or add_int64 ◌+ℤ◌ ◌-ℤ◌ str_dec new_manager
log-OneSpawned = (refl, (refl, tt))

length-log : length log ≡ 2
unfolding run tally instantiate should_invoke_on_tick evaluate_end_policy lookup insert delete
    lookup_or add_int64 ◌+ℤ◌ ◌-ℤ◌ str_dec new_manager
length-log = refl

record_all-run_example :
    let j = new_journal {D = ℕ} {P = ℕ} (pos 8) (pos 0) in
    (record_all (with_drains log) j ≡ log) × Delivered log (deliver (with_drains log) j)
record_all-run_example =
    record_all-run fires fires-KeepsIds tally tally-IsNaming in_order in_order-IsIteration ℕ ℕ
      registry 0 one_fire (omega arith) (omega (arith, length-log))
      (λ id. introduced_log id log log-OneSpawned) (with_drains log) (events_of-with_drains log)
      (pos 8) (pos 0)
