-- ===== src/Feed/Recorded.antt =====
-- server/simulation.go: what an effect manager emits, as the journal records it.
use mine_and_die.Prelude.{
  ℕ, ◌^◌, ◌<◌, ◌≡◌, ◌≢◌, refl, sym, ◌∙◌, subst, true, false, List, [], ◌∷◌, String, str_dec, if_pos,
  length, lookup, All, arith,
}
use mine_and_die.Prelude.Int.{ℤ}
use mine_and_die.Journal.State.{new_journal}
use mine_and_die.Effects.Registry.{Registry}
use mine_and_die.Effects.Manager.{LifecycleEvent, ManagerConfig, Shuffle, new_manager}
use mine_and_die.Effects.Manager.Valid.{IsNaming, IsIteration, KeepsIds}
use mine_and_die.Effects.Manager.Runs.{Call, intents_in, run, run-numbered, run-unnamed}
use mine_and_die.Effects.Manager.Log.{event_id, event_seq, numbers}
use mine_and_die.Feed.Numbers.{first_seqs-from}
use mine_and_die.Feed.{Step, events_of, record_all, deliver, Delivered}
use mine_and_die.Feed.Accepted.{Ready, introduced, all_recorded}
use mine_and_die.Feed.Delivered.{deliver-Delivered}

named_of : (es : List LifecycleEvent) → numbers "" es ≡ [] → All (λ e. event_id e ≢ "") es
unfolding numbers
named_of [] h = tt
named_of (e ∷ es) h = (
  λ p.
      filled (
        sym (if_pos (str_dec (event_id e) "") p (event_seq e ∷ numbers "" es) (numbers "" es)) ∙ h),
  named_of es (ground (arith, h)),
)
  where
    filled : event_seq e ∷ numbers "" es ≡ [] → ⊥
    filled h = cc

module _ {F R Y W : Type 0} (cfg : ManagerConfig F R Y W) (keeps : KeepsIds cfg) (name : ℕ → String)
    (naming : IsNaming name) (shuffle : Shuffle) (iteration : IsIteration shuffle) where
  -- Let a new manager, whose hooks rename no instance and whose ids of different numbers are
  -- different and not empty, get any calls, below 2^64 of them with an intent, and emit below 2^63
  -- events, of which the first of each instance is a spawn. Then a new journal that gets these
  -- events, with drains in between at any place, answers each of them as it is, with the number that
  -- the manager gave it; and the spawns that the drains hand out, and after them those that are still
  -- staged at the end, are the spawns of these events, each once and in order; so are the updates,
  -- and so are the ends.
  pub record_all-run :
      (D P : Type 0) (registry : Registry F R) (world : W) (calls : List Call)
      → intents_in calls < 2 ^ 64
      → length (run cfg name shuffle calls (new_manager registry world) []) < 2 ^ 63
      → ((id : String)
          → introduced id false (run cfg name shuffle calls (new_manager registry world) []) ≡ true)
      → (steps : List Step)
      → events_of steps ≡ run cfg name shuffle calls (new_manager registry world) []
      → (keyframe_capacity max_age : ℤ)
      → let j = new_journal {D = D} {P = P} keyframe_capacity max_age in
        let log = run cfg name shuffle calls (new_manager registry world) [] in
        (record_all steps j ≡ log) × Delivered log (deliver steps j)
  unfolding new_journal lookup
  record_all-run D P registry world calls h l f steps e capacity max_age =
      let log = run cfg name shuffle calls (new_manager registry world) [] in
      let j = new_journal {D = D} {P = P} capacity max_age in
      let named = subst (All (λ e. event_id e ≢ "")) (sym e) (
        named_of log
          (run-unnamed cfg keeps name naming shuffle iteration registry world calls h)) in
      let ready = λ (id : String).
        subst (λ es. Ready {D = D} {P = P} id (new_journal capacity max_age) es) (sym e)
          (let r = run-numbered cfg keeps name naming shuffle iteration registry world calls h id in
            record {
              counted = 0;
              over = 0;
              rest = r.0;
              nums = r.1 ∙ first_seqs-from r.0;
              in_time = r.2;
              first = f id;
              bound = omega (arith, l);
              known = λ c o. absurd (omega (arith, c));
              running = λ o. record { recent = refl; waiting = refl };
            }) in
      (
        all_recorded steps j named ready ∙ e,
        subst (λ es. Delivered es (deliver steps j)) e
            (deliver-Delivered steps j (refl, refl, refl) named ready),
      )
