-- ===== src/Journal/Policy/Laws.antt =====
-- No run of lost spawns at or above the threshold goes unsignalled.
use mine_and_die.Prelude.{
  ◌+◌, ◌*◌, ◌%◌, ◌^◌, ◌≤◌, ◌<◌, ◌≡◌, refl, ◌⊎◌, inl, inr, true, List, [], ◌∷◌, some, String, arith,
  length, length-append, u64_mod,
}
use mine_and_die.Journal.Policy.{
  Policy, ResyncReason, add_reason, new_policy, note_event, note_lost_spawn, consume, evaluate,
  resync_reason_limit,
}

-- A call as the journal makes them: a lost spawn follows the event that shows it.
pub data Note : Type 0 where
  event : Note
  lost : String → String → Note
  consumes : Note

unfoldable pub apply : Note → Policy → Policy
apply event p = note_event p
apply (lost kind id) p = note_lost_spawn kind id (note_event p)
apply consumes p = (consume p).0

unfoldable pub apply_all : List Note → Policy → Policy
apply_all [] p = p
apply_all (n ∷ ns) p = apply_all ns (apply n p)

-- `lost_spawns` is below one in ten thousand events, or there is none, unless a signal is pending.
pub record IsSound (p : Policy) : Type 0 where
  pub word : p.total_events < u64_mod
  pub lost_le : p.lost_spawns ≤ p.total_events
  pub few : length p.reasons ≤ resync_reason_limit
  pub quiet : (p.pending ≡ true) ⊎ (p.lost_spawns ≡ 0) ⊎ (10000 * p.lost_spawns < p.total_events)

note_event-IsSound : (p : Policy) → IsSound p → IsSound (note_event p)
unfolding note_event
note_event-IsSound p s = ground arith

note_event_more :
    (p : Policy) → IsSound p → (note_event p).lost_spawns < (note_event p).total_events
unfolding note_event
note_event_more p s = ground arith

note_event_lost : (p : Policy) → (note_event p).lost_spawns ≤ p.lost_spawns
unfolding note_event
note_event_lost p = ground arith

-- The part of a lost spawn before `evaluate`.
evaluate-IsSound :
    (p : Policy)
    → p.total_events < u64_mod
    → p.lost_spawns ≤ p.total_events
    → length p.reasons ≤ resync_reason_limit
    → p.lost_spawns ≤ 10 ^ 15
    → IsSound (evaluate p)
unfolding evaluate
evaluate-IsSound p a b c d = ground arith

reasons_few :
    (r : ResyncReason) (rs : List ResyncReason)
    → length rs ≤ resync_reason_limit
    → length (add_reason r rs) ≤ resync_reason_limit
unfolding add_reason
reasons_few r rs h = ground (arith, length-append rs (r ∷ []))

note_lost_spawn-IsSound :
    (kind id : String) (p : Policy)
    → IsSound p
    → p.lost_spawns < p.total_events
    → p.lost_spawns < 10 ^ 15
    → IsSound (note_lost_spawn kind id p)
unfolding note_lost_spawn
note_lost_spawn-IsSound kind id p s h k =
    evaluate-IsSound
      (record p {
        lost_spawns = (p.lost_spawns + 1) % u64_mod;
        reasons = add_reason (record { kind = kind; effect_id = id }) p.reasons;
      })
      s.word (omega arith) (reasons_few (record { kind = kind; effect_id = id }) p.reasons s.few)
      (omega arith)

note_lost_spawn_lost :
    (kind id : String) (p : Policy) → (note_lost_spawn kind id p).lost_spawns ≤ p.lost_spawns + 1
unfolding note_lost_spawn evaluate
note_lost_spawn_lost kind id p = ground arith

consume-IsSound : (p : Policy) → IsSound p → IsSound (consume p).0
unfolding consume
consume-IsSound p s = ground arith

consume_lost : (p : Policy) → (consume p).0.lost_spawns ≤ p.lost_spawns
unfolding consume
consume_lost p = ground arith

apply-IsSound :
    (n : Note) (p : Policy)
    → IsSound p
    → p.lost_spawns < 10 ^ 15
    → IsSound (apply n p) × ((apply n p).lost_spawns ≤ p.lost_spawns + 1)
unfolding apply
apply-IsSound event p s h = (note_event-IsSound p s, omega (arith, note_event_lost p))
apply-IsSound (lost kind id) p s h = (
  note_lost_spawn-IsSound kind id (note_event p) (note_event-IsSound p s) (note_event_more p s)
      (omega (arith, note_event_lost p)),
  omega (arith, note_event_lost p, note_lost_spawn_lost kind id (note_event p)),
)
apply-IsSound consumes p s h = (consume-IsSound p s, omega (arith, consume_lost p))

apply_all-IsSound_from :
    (ns : List Note) (p : Policy)
    → IsSound p
    → p.lost_spawns + length ns ≤ 10 ^ 15
    → IsSound (apply_all ns p)
unfolding apply_all
apply_all-IsSound_from [] p s h = s
apply_all-IsSound_from (n ∷ ns) p s h =
    let (t, g) = apply-IsSound n p s (omega arith) in
    apply_all-IsSound_from ns (apply n p) t (omega arith)

-- After any sequence of up to 10^15 notes on a new policy, where a note is a call of NoteEvent, a
-- call of Consume, or a call of NoteEvent and right after it one of NoteLostSpawn, as the journal
-- makes them: no more spawns are lost than there are events, at most eight reasons are kept, and
-- where no signal is pending, the lost spawns are none or fewer than one in ten thousand of the
-- events counted.
pub apply_all-IsSound : (ns : List Note) → length ns ≤ 10 ^ 15 → IsSound (apply_all ns new_policy)
unfolding new_policy
apply_all-IsSound ns h =
    apply_all-IsSound_from ns new_policy
      (record {
        word = omega arith;
        lost_le = omega arith;
        few = omega arith;
        quiet = inr (inl refl);
      })
      (omega arith)

-- A lost spawn that brings the lost spawns to one in ten thousand events or more, or that comes
-- while a signal is pending, is signalled to the next consumer, with the counters as they then
-- stand; and the policy is as new after that.
pub consume-note_lost_spawn :
    (kind id : String) (p : Policy)
    → p.total_events < u64_mod
    → p.lost_spawns < 10 ^ 15
    → (p.pending ≡ true) ⊎ (p.total_events ≤ 10000 * (p.lost_spawns + 1))
    → consume (note_lost_spawn kind id p) ≡ (
      new_policy,
      some (record {
        lost_spawns = p.lost_spawns + 1;
        total_events = p.total_events;
        reasons = add_reason (record { kind = kind; effect_id = id }) p.reasons;
      }),
    )
unfolding note_lost_spawn evaluate consume new_policy
consume-note_lost_spawn kind id p h k t = ground arith
