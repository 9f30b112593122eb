-- ===== src/Effects/Manager/Tracks.antt =====
-- server/internal/world/effects/manager.go: what `emit` does to the events of one instance. An
-- instance is live while the next number follows the last one emitted and no end was; it is sound as
-- long as the numbers are those of a counter and nothing follows an end.
use mine_and_die.Prelude.{
  ℕ, suc, ◌≡◌, ◌≢◌, refl, sym, ap, ◌∙◌, Bool, false, ◌&&◌, List, [], ◌∷◌, ◌++◌, append-nil, String,
  str_dec, if_pos, if_neg, if_cases, lookup_or, lookup_or-insert, arith,
}
use mine_and_die.Prelude.Int.{ℤ, pos, add_int64}
use mine_and_die.Effects.Manager.{LifecycleEvent, Output, next_sequence_for, taken, emit}
use mine_and_die.Effects.Manager.Log.{
  event_id, event_seq, is_end, numbers, ends, late, nth_seq, first_seqs, numbers-snoc, ends-snoc,
  late-snoc,
}

-- What an output holds of one instance.
pub record View : Type 0 where
  pub seq : ℤ
  pub numbers : List ℤ
  pub ends : ℕ
  pub late : ℕ

abbrev pub view : String → Output → View
view id out = record {
  seq = lookup_or str_dec (pos 0) id out.seqs;
  numbers = numbers id out.sink.events;
  ends = ends id out.sink.events;
  late = late id 0 out.sink.events;
}

pub record IsLive (v : View) : Type 0 where
  pub length : ℕ
  pub next : v.seq ≡ nth_seq length
  pub counted : v.numbers ≡ first_seqs length
  pub unended : v.ends ≡ 0
  pub in_time : v.late ≡ 0

pub record IsSound (v : View) : Type 0 where
  pub length : ℕ
  pub counted : v.numbers ≡ first_seqs length
  pub in_time : v.late ≡ 0

pub IsLive-IsSound : (v : View) → IsLive v → IsSound v
IsLive-IsSound v l = record { length = l.length; counted = l.counted; in_time = l.in_time }

-- An event that carries this id and the number that it is given.
pub record Carries (id : String) (final : Bool) (event : ℤ → LifecycleEvent) : Type 0 where
  pub ids : (seq : ℤ) → event_id (event seq) ≡ id
  pub seqs : (seq : ℤ) → event_seq (event seq) ≡ seq
  pub kind : (seq : ℤ) → is_end (event seq) ≡ final

module _ (id : String) (named : id ≢ "") (final : Bool) (event : ℤ → LifecycleEvent)
    (c : Carries id final event) (out : Output) where
  abbrev number : ℤ
  number = next_sequence_for id out.seqs

  abbrev sent : Output
  sent = record {
    seqs = taken id out.seqs;
    sink = record out.sink { events = out.sink.events ++ event number ∷ [] };
  }

  sent-other : (j : String) → j ≢ id → view j sent ≡ view j out
  sent-other j n =
      let away : event_id (event number) ≢ j = λ e. n (sym e ∙ c.ids number) in
      let p = numbers-snoc j out.sink.events (event number) in
      let q = ends-snoc j out.sink.events (event number) in
      let r = late-snoc j 0 out.sink.events (event number) in
      let s : lookup_or str_dec (pos 0) j (taken id out.seqs)
          ≡ lookup_or str_dec (pos 0) j out.seqs =
        ground (arith, lookup_or-insert str_dec (pos 0) id j number out.seqs) in
      let p' =
        p
        ∙ ap (λ l. numbers j out.sink.events ++ l)
            (if_neg (str_dec (event_id (event number)) j) away (event_seq (event number) ∷ []) [])
        ∙ append-nil (numbers j out.sink.events) in
      let q' : ends j sent.sink.events ≡ ends j out.sink.events = ground (arith, q) in
      let r' : late j 0 sent.sink.events ≡ late j 0 out.sink.events = ground (arith, r) in
      λ i. record { seq = s i; numbers = p' i; ends = q' i; late = r' i }

  module _ (l : IsLive (view id out)) where
    number-nth : number ≡ nth_seq (suc l.length)
    unfolding nth_seq
    number-nth =
        if_neg (str_dec id "") named (pos 0)
          (add_int64 (lookup_or str_dec (pos 0) id out.seqs) (pos 1))
        ∙ ap (λ z. add_int64 z (pos 1)) l.next

    sent-counted : numbers id sent.sink.events ≡ first_seqs (suc l.length)
    unfolding first_seqs
    sent-counted =
        numbers-snoc id out.sink.events (event number)
        ∙ ap (λ m. numbers id out.sink.events ++ m)
            (if_pos (str_dec (event_id (event number)) id) (c.ids number)
              (event_seq (event number) ∷ []) [])
        ∙ ap (λ z. numbers id out.sink.events ++ z ∷ []) (c.seqs number ∙ number-nth)
        ∙ ap (λ m. m ++ nth_seq (suc l.length) ∷ []) l.counted

    sent-late : late id 0 sent.sink.events ≡ 0
    sent-late = ground (arith, late-snoc id 0 out.sink.events (event number), l.unended, l.in_time)

    sent-IsSound : IsSound (view id sent)
    sent-IsSound = record { length = suc l.length; counted = sent-counted; in_time = sent-late }

    sent-IsLive : final ≡ false → IsLive (view id sent)
    sent-IsLive f = record {
      length = suc l.length;
      next = ground (arith, lookup_or-insert str_dec (pos 0) id id number out.seqs, number-nth);
      counted = sent-counted;
      unended =
          ground (arith, ends-snoc id out.sink.events (event number), l.unended, c.kind number, f);
      in_time = sent-late;
    }

  -- `emit` leaves the other instances alone; on a live one it keeps what `emit` finds, or ends it.
  pub emit-other :
      (wanted : Bool) (j : String) → j ≢ id → view j (emit wanted id event out) ≡ view j out
  unfolding emit
  emit-other wanted j n =
      if_cases (λ o. view j o ≡ view j out) (wanted && out.sink.listening) sent out
        (λ _. sent-other j n) (λ _. refl)

  pub emit-IsLive :
      (wanted : Bool)
      → final ≡ false
      → IsLive (view id out)
      → IsLive (view id (emit wanted id event out))
  unfolding emit
  emit-IsLive wanted f l =
      if_cases (λ o. IsLive (view id o)) (wanted && out.sink.listening) sent out
        (λ _. sent-IsLive l f) (λ _. l)

  pub emit-IsSound :
      (wanted : Bool) → IsLive (view id out) → IsSound (view id (emit wanted id event out))
  unfolding emit
  emit-IsSound wanted l =
      if_cases (λ o. IsSound (view id o)) (wanted && out.sink.listening) sent out
        (λ _. sent-IsSound l) (λ _. IsLive-IsSound (view id out) l)
