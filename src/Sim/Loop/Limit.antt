-- ===== src/Sim/Loop/Limit.antt =====
-- However commands arrive and drains fall, an actor has no more commands staged than its limit.
use mine_and_die.Prelude.{
  ℕ, ◌+◌, ◌≤◌, ◌≡◌, ◌≢◌, refl, ap, subst, ◌∙◌, ◌⊎◌, inl, inr, Bool, List, [], ◌∷◌, ◌++◌, Option,
  ite, String, str_dec, arith, lookup_or-insert, lookup_or, lookup,
}
use mine_and_die.Prelude.Int.{pos, ◌<ℤ◌, ◌≤ℤ◌}
use mine_and_die.Sim.Command.{Command}
use mine_and_die.Sim.Buffer.{MetricCall}
use mine_and_die.Sim.Buffer.Valid.{IsValid, new_buffer-IsValid, drain-IsValid}
use mine_and_die.Sim.Buffer.Refine.{contents, contents-new_buffer, drain_refines}
use mine_and_die.Sim.Loop.{Loop, LoopConfig, Hooks, new_loop, count_of, enqueue, drain_commands}
use mine_and_die.Sim.Loop.Throttle.{Charged, Unnamed, Grown, Kept, ReplyCases, enqueue-ReplyCases}

module _ {F T : Type 0} where
  -- How many of the commands are the actor's.
  unfoldable pub staged_of : String → List (Command F T) → ℕ
  staged_of a [] = 0
  staged_of a (c ∷ cs) = ite (str_dec c.actor_id a) (staged_of a cs + 1) (staged_of a cs)

  staged_of-append :
      (a : String) (xs ys : List (Command F T))
      → staged_of a (xs ++ ys) ≡ staged_of a xs + staged_of a ys
  unfolding staged_of
  staged_of-append a [] ys = omega arith
  staged_of-append a (x ∷ xs) ys = ground (arith, staged_of-append a xs ys)

  module _ (blank : Command F T) where
    -- Under a positive limit, every named actor's commands in the queue are charged to it.
    pub record IsThrottled (l : Loop F T) : Type 0 where
      pub ring : IsValid l.buffer
      pub positive : pos 0 <ℤ l.config.per_actor_limit
      pub charged : (a : String) → a ≢ "" → staged_of a (contents blank l.buffer) ≤ count_of a l
      pub limited : (a : String) → pos (count_of a l) ≤ℤ l.config.per_actor_limit

    count_of-Charged :
        (cmd : Command F T) (l l' : Loop F T) (a : String)
        → Charged cmd l l'
        → count_of a l' ≡ ite (str_dec a cmd.actor_id) (count_of cmd.actor_id l + 1) (count_of a l)
    count_of-Charged cmd l l' a (_, _, _, e) =
        rw e (
          lookup_or-insert str_dec 0 cmd.actor_id a (count_of cmd.actor_id l + 1) l.per_actor_count)

    count_of-same :
        (l l' : Loop F T) (a : String)
        → l'.per_actor_count ≡ l.per_actor_count
        → count_of a l' ≡ count_of a l
    count_of-same l l' a e = ap (lookup_or str_dec 0 a) e

    limited_charged :
        (cmd : Command F T) (l l' : Loop F T)
        → IsThrottled l
        → Charged cmd l l'
        → (a : String) → pos (count_of a l') ≤ℤ l.config.per_actor_limit
    limited_charged cmd l l' t ch a =
        ground (arith, count_of-Charged cmd l l' a ch, t.limited a, ch)

    staged_of-Grown :
        (cmd : Command F T) (l l' : Loop F T) (a : String)
        → Grown blank cmd l l'
        → staged_of a (contents blank l'.buffer)
          ≡ staged_of a (contents blank l.buffer) + ite (str_dec cmd.actor_id a) 1 0
    unfolding staged_of
    staged_of-Grown cmd l l' a g =
        rw g (ground (arith, staged_of-append a (contents blank l.buffer) (cmd ∷ [])))

    Charged-Grown :
        (cmd : Command F T) (l l' : Loop F T)
        → IsThrottled l
        → Grown blank cmd l l'
        → Charged cmd l l' ⊎ Unnamed cmd l l'
        → (a : String) → a ≢ ""
        → staged_of a (contents blank l'.buffer) ≤ count_of a l'
    Charged-Grown cmd l l' t g (inl ch) a n =
        ground (arith, count_of-Charged cmd l l' a ch, staged_of-Grown cmd l l' a g, t.charged a n)
    Charged-Grown cmd l l' t g (inr (inl off, same)) a n = absurd (omega (arith, t.positive))
    Charged-Grown cmd l l' t g (inr (inr anon, same)) a n =
        ground (arith, count_of-same l l' a same, staged_of-Grown cmd l l' a g, t.charged a n)

    charged-Kept :
        (cmd : Command F T) (l l' : Loop F T)
        → IsThrottled l
        → Kept blank l l'
        → (a : String) → count_of a l ≤ count_of a l'
        → a ≢ ""
        → staged_of a (contents blank l'.buffer) ≤ count_of a l'
    charged-Kept cmd l l' t k a h n = rw k (omega (arith, t.charged a n))

    -- `Enqueue` keeps the invariant.
    pub enqueue-IsThrottled :
        (cmd : Command F T) (l : Loop F T) → IsThrottled l → IsThrottled (enqueue cmd l).0
    enqueue-IsThrottled cmd l t = from (enqueue cmd l) (enqueue-ReplyCases blank cmd l t.ring)
      where
        limits :
            (l' : Loop F T)
            → Charged cmd l l' ⊎ Unnamed cmd l l'
            → (a : String) → pos (count_of a l') ≤ℤ l.config.per_actor_limit
        limits l' (inl ch) a = limited_charged cmd l l' t ch a
        limits l' (inr (why, same)) a = rw (count_of-same l l' a same) (t.limited a)

        grows :
            (l' : Loop F T)
            → Charged cmd l l' ⊎ Unnamed cmd l l'
            → (a : String) → count_of a l ≤ count_of a l'
        grows l' (inl ch) a = ground (arith, count_of-Charged cmd l l' a ch)
        grows l' (inr (why, same)) a = omega (arith, count_of-same l l' a same)

        from : (r : Loop F T × Bool × Option String) → ReplyCases blank cmd l r → IsThrottled r.0
        from (r, done, reason) (v, c, inl (accepted, why, room, grown, ch)) = record {
          ring = v;
          positive = rw c t.positive;
          charged = Charged-Grown cmd l r t grown ch;
          limited = λ a. rw c (limits r ch a);
        }
        from (r, done, reason) (v, c, inr (refused, why, kept, inl (at, same))) = record {
          ring = v;
          positive = rw c t.positive;
          charged = λ a. charged-Kept cmd l r t kept a (omega (arith, count_of-same l r a same));
          limited = λ a. rw (c, count_of-same l r a same) (t.limited a);
        }
        from (r, done, reason) (v, c, inr (refused, why, kept, inr (full, ch))) = record {
          ring = v;
          positive = rw c t.positive;
          charged = λ a. charged-Kept cmd l r t kept a (grows r ch a);
          limited = λ a. rw c (limits r ch a);
        }

    drain_commands-IsThrottled :
        (l : Loop F T) → IsThrottled l → IsThrottled (drain_commands blank l).0
    unfolding drain_commands staged_of lookup_or lookup
    drain_commands-IsThrottled l t = record {
      ring = drain-IsValid blank l.buffer t.ring;
      positive = t.positive;
      charged = λ a n. rw (drain_refines blank l.buffer).1 (omega arith);
      limited = λ a. omega (arith, t.positive);
    }

-- A call on the queue: a command arrives, or a step drains what is staged.
pub data Call (F T : Type 0) : Type 0 where
  enqueues : Command F T → Call F T
  drains : Call F T

module _ {F T : Type 0} (blank : Command F T) where
  pub after : List (Call F T) → Loop F T → Loop F T
  after [] l = l
  after (enqueues cmd ∷ calls) l = after calls (enqueue cmd l).0
  after (drains ∷ calls) l = after calls (drain_commands blank l).0

  abbrev Limited : LoopConfig → Loop F T → Type 0
  Limited cfg l = IsThrottled blank l × (l.config ≡ cfg)

  after-Limited :
      (cfg : LoopConfig) (calls : List (Call F T)) (l : Loop F T)
      → Limited cfg l
      → Limited cfg (after calls l)
  unfolding after drain_commands
  after-Limited cfg [] l h = h
  after-Limited cfg (enqueues cmd ∷ calls) l (t, e) =
      after-Limited cfg calls (enqueue cmd l).0
        (enqueue-IsThrottled blank cmd l t, (enqueue-ReplyCases blank cmd l t.ring).1 ∙ e)
  after-Limited cfg (drains ∷ calls) l (t, e) =
      after-Limited cfg calls (drain_commands blank l).0 (drain_commands-IsThrottled blank l t, e)

  new_loop-IsThrottled :
      (cfg : LoopConfig) (hooks : Hooks) (logger : Bool) (m : Option (List MetricCall))
      → pos 0 <ℤ cfg.per_actor_limit
      → IsThrottled blank (new_loop blank cfg hooks logger m)
  unfolding new_loop staged_of lookup_or lookup
  new_loop-IsThrottled cfg hooks logger m h = record {
    ring = new_buffer-IsValid blank cfg.command_capacity m;
    positive = h;
    charged = λ a n. rw (contents-new_buffer blank cfg.command_capacity m) (omega arith);
    limited = λ a. omega (arith, h);
  }

  -- Under a positive per-actor limit, whatever calls a new loop has taken, the queue never holds
  -- more commands of one named actor than the limit.
  pub staged_of-le-limit :
      (cfg : LoopConfig) (hooks : Hooks) (logger : Bool) (m : Option (List MetricCall))
      (calls : List (Call F T)) (a : String)
      → pos 0 <ℤ cfg.per_actor_limit
      → a ≢ ""
      → pos (staged_of a (contents blank (after calls (new_loop blank cfg hooks logger m)).buffer))
        ≤ℤ cfg.per_actor_limit
  unfolding new_loop
  staged_of-le-limit cfg hooks logger m calls a h n =
      let start = new_loop blank cfg hooks logger m in
      let l = after calls start in
      let (t, e) =
        after-Limited cfg calls start (new_loop-IsThrottled cfg hooks logger m h, refl) in
      let bound = subst (λ c. pos (count_of a l) ≤ℤ c.per_actor_limit) e (t.limited a) in
      omega (arith, t.charged a n, bound)
