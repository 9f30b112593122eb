-- ===== src/Sim/Loop/Order.antt =====
-- The order in which `Advance` hands staged commands to the core.
use mine_and_die.Prelude.{
  ◌≡◌, refl, sym, ap, ◌∙◌, inl, inr, Bool, true, false, List, [], ◌∷◌, ◌++◌, Option, String,
  append-nil, append_assoc, if◌then◌else◌,
}
use mine_and_die.Sim.Command.{Command}
use mine_and_die.Sim.Buffer.Valid.{IsValid}
use mine_and_die.Sim.Buffer.Refine.{contents, drain_refines}
use mine_and_die.Sim.Loop.{Loop, Core, TickContext, enqueue, drain_commands, advance, prepared}
use mine_and_die.Sim.Loop.Throttle.{ReplyCases, enqueue-ReplyCases}

module _ {F T : Type 0} where
  -- The loop after a series of arrivals, and the commands that `Enqueue` answered with true.
  unfoldable pub enqueue_all : List (Command F T) → Loop F T → Loop F T × List (Command F T)
  enqueue_all [] l = (l, [])
  enqueue_all (c ∷ cs) l =
      let (l', accepted, _) = enqueue c l in
      let (l'', rest) = enqueue_all cs l' in (l'', if accepted then c ∷ rest else rest)

  module _ (blank : Command F T) where
    enqueue-contents :
        (c : Command F T) (l : Loop F T) (r : Loop F T × Bool × Option String)
        → ReplyCases blank c l r
        → contents blank r.0.buffer ≡ contents blank l.buffer ++ (if r.1 then c ∷ [] else [])
    enqueue-contents c l (r, true, why) (v, k, inl (a, b, room, grown, ch)) = grown
    enqueue-contents c l (r, true, why) (v, k, inr (a, b, kept, ch)) = cc
    enqueue-contents c l (r, false, why) (v, k, inl (a, b, room, grown, ch)) = cc
    enqueue-contents c l (r, false, why) (v, k, inr (a, b, kept, ch)) =
        kept ∙ sym (append-nil (contents blank l.buffer))

    if-append :
        (b : Bool) (c : Command F T) (xs ys : List (Command F T))
        → (xs ++ (if b then c ∷ [] else [])) ++ ys ≡ xs ++ (if b then c ∷ ys else ys)
    if-append true c xs ys = append_assoc xs (c ∷ []) ys
    if-append false c xs ys = rw append-nil

    contents-enqueue_all :
        (cs : List (Command F T)) (l : Loop F T)
        → IsValid l.buffer
        → contents blank (enqueue_all cs l).0.buffer
          ≡ contents blank l.buffer ++ (enqueue_all cs l).1
    unfolding enqueue_all
    contents-enqueue_all [] l v = sym (append-nil (contents blank l.buffer))
    contents-enqueue_all (c ∷ cs) l v =
        let r = enqueue-ReplyCases blank c l v in
        contents-enqueue_all cs (enqueue c l).0 r.0
        ∙ ap (λ xs. xs ++ (enqueue_all cs (enqueue c l).0).1) (enqueue-contents c l (enqueue c l) r)
        ∙ if-append (enqueue c l).1 c (contents blank l.buffer) (enqueue_all cs (enqueue c l).0).1

    module _ {S Snap : Type 0} (core : Core F T S Snap) where
      -- A step applies to the core what was staged before, then the commands accepted since, in the
      -- order of their arrival and each once, after the `Prepare` hook and before `Step`. It reports
      -- the same commands, and leaves the queue empty.
      pub advance_lem :
          (ctx : TickContext F T) (cs : List (Command F T)) (l : Loop F T) (s : S)
          → IsValid l.buffer
          → let (l', accepted) = enqueue_all cs l in
            let staged = contents blank l.buffer ++ accepted in
            let (l'', s', result) = advance core blank ctx l' s in
            (s' ≡ core.step (core.apply staged (prepared core ctx s)))
            × (result.commands ≡ staged)
            × (result.snapshot ≡ core.snapshot s')
            × (contents blank l''.buffer ≡ [])
      unfolding advance drain_commands
      advance_lem ctx cs l s v =
          let l' = (enqueue_all cs l).0 in
          let d = drain_refines blank l'.buffer in
          let f = d.0 ∙ contents-enqueue_all cs l v in
          (ap (λ xs. core.step (core.apply xs (prepared core ctx s))) f, f, refl, d.1)
