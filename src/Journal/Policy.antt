-- ===== src/Journal/Policy.antt =====
-- server/internal/journal/policy.go: when the clients need a resync. The counters are uint64 and
-- wrap. A method is called on a policy, never on nil.
pub mod Laws
mod Tests
use mine_and_die.Prelude.{
  ℕ, ◌-◌, ◌/◌, ◌^◌, Bool, true, false, ◌||◌, List, [], ◌∷◌, ◌++◌, Option, none, some, String,
  length, ltb, leb, ◌==◌, if◌then◌else◌, add_u64, mul_u64, u64_mod,
}

pub record ResyncReason : Type 0 where
  pub kind : String
  pub effect_id : String

pub record ResyncSignal : Type 0 where
  pub lost_spawns : ℕ
  pub total_events : ℕ
  pub reasons : List ResyncReason

pub record Policy : Type 0 where
  pub total_events : ℕ
  pub lost_spawns : ℕ
  pub pending : Bool
  pub reasons : List ResyncReason

abbrev pub lost_spawn_threshold_per_ten_thousand : ℕ
lost_spawn_threshold_per_ten_thousand = 1

abbrev pub resync_reason_limit : ℕ
resync_reason_limit = 8

unfoldable pub new_policy : Policy
new_policy = record { total_events = 0; lost_spawns = 0; pending = false; reasons = [] }

-- Before the event counter would overflow, both counters are halved.
halve_at_limit : Policy → Policy
halve_at_limit p =
    if p.total_events == u64_mod - 1
    then record p { total_events = p.total_events / 2; lost_spawns = p.lost_spawns / 2 }
    else p

unfoldable pub note_event : Policy → Policy
unfolding halve_at_limit
note_event p = let q = halve_at_limit p in record q { total_events = add_u64 q.total_events 1 }

at_threshold : ℕ → ℕ → Bool
at_threshold total lost =
    leb (mul_u64 (if total == 0 then 1 else total) lost_spawn_threshold_per_ten_thousand)
      (mul_u64 lost 10000)

pub evaluate : Policy → Policy
unfolding at_threshold
evaluate p =
    if p.pending || (p.lost_spawns == 0)
    then p
    else if at_threshold p.total_events p.lost_spawns
    then record p { pending = true }
    else p

pub add_reason : ResyncReason → List ResyncReason → List ResyncReason
add_reason r reasons =
    if ltb (length reasons) resync_reason_limit then reasons ++ (r ∷ []) else reasons

unfoldable pub note_lost_spawn : String → String → Policy → Policy
unfolding evaluate add_reason
note_lost_spawn kind effect_id p = evaluate (record p {
  lost_spawns = add_u64 p.lost_spawns 1;
  reasons = add_reason (record { kind = kind; effect_id = effect_id }) p.reasons;
})

-- The signal, where one is pending.
unfoldable pub consume : Policy → Policy × Option ResyncSignal
consume p =
    if p.pending
    then (
      record p { total_events = 0; lost_spawns = 0; pending = false; reasons = [] },
      some (record {
        lost_spawns = p.lost_spawns;
        total_events = p.total_events;
        reasons = p.reasons;
      }),
    )
    else (p, none)
