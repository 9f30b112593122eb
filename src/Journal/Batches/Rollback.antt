-- ===== src/Journal/Batches/Rollback.antt =====
-- A drained batch that is put back leaves the journal as it was.
use mine_and_die.Prelude.{
  ◌≡◌, ◌≢◌, refl, sym, ap, subst, ◌∙◌, inl, inr, List, [], ◌∷◌, ◌++◌, map, true, false, Option,
  none, some, ite, String, str_dec, lookup, insert, delete, arith, if_cases, Option-cases,
  append-nil, lookup-insert, lookup-delete, if◌then◌else◌, All, Unique,
}
use mine_and_die.Prelude.Int.{ℤ, ltb_ℤ}
use mine_and_die.Journal.Contract.{EffectEndEvent}
use mine_and_die.Journal.State.{Journal}
use mine_and_die.Journal.Effects.{EffectEventBatch}
use mine_and_die.Journal.Batches.{
  delete_all, contains, restored_ids, mark_ended, restore_cursor, restore_cursors, no_events,
  drain_effect_events, restore_effect_events, restore_ends,
}

-- What putting back the saved cursor `s` makes of a present one.
abbrev merged : Option ℤ → Option ℤ → Option ℤ
merged none c = c
merged (some s) none = some s
merged (some s) (some c) = if ltb_ℤ s c then some c else some s

lookup-restore_cursor :
    (k id : String) (s : ℤ) (m : List (String × ℤ))
    → lookup str_dec id (restore_cursor k s m)
      ≡ ite (str_dec id k) (merged (some s) (lookup str_dec id m)) (lookup str_dec id m)
unfolding restore_cursor
lookup-restore_cursor k id s m = ground (arith, lookup-insert str_dec k id s m)

lookup-restore_cursors :
    (saved m : List (String × ℤ)) (id : String)
    → Unique str_dec saved
    → id ≢ ""
    → lookup str_dec id (restore_cursors saved m)
      ≡ merged (lookup str_dec id saved) (lookup str_dec id m)
unfolding restore_cursors lookup
lookup-restore_cursors [] m id u n = refl
lookup-restore_cursors ((k, s) ∷ saved) m id (new, u) n = ground (
  arith,
  lookup-restore_cursors saved (ite (str_dec k "") m (restore_cursor k s m)) id u n,
  lookup-restore_cursor k id s m,
)

pub lookup-delete_all :
    (ids : List String) (m : List (String × ℤ)) (id : String)
    → lookup str_dec id (delete_all ids m) ≡ (if contains id ids then none else lookup str_dec id m)
unfolding delete_all contains
lookup-delete_all [] m id = refl
lookup-delete_all (x ∷ ids) m id =
    ground (arith, lookup-delete_all ids (delete str_dec x m) id, lookup-delete str_dec x id m)

-- The tick of the last end of an effect.
unfoldable pub last_end : String → List EffectEndEvent → Option ℤ
last_end id [] = none
last_end id (e ∷ es) = elim (last_end id es) [
  | some t ↦ some t
  | none ↦ ite (str_dec id e.id) (some e.tick) none
]

lookup-mark_ended :
    (es : List EffectEndEvent) (m : List (String × ℤ)) (id : String)
    → All (λ e. e.id ≢ "") es
    → lookup str_dec id (mark_ended es m)
      ≡ elim (last_end id es) [ some t ↦ some t | none ↦ lookup str_dec id m ]
unfolding mark_ended last_end
lookup-mark_ended [] m id a = refl
lookup-mark_ended (e ∷ es) m id (n, a) = ground (
  arith,
  lookup-mark_ended es (ite (str_dec e.id "") m (insert str_dec e.id e.tick m)) id a,
  lookup-insert str_dec e.id id e.tick m,
)

abbrev pub ids_of : List EffectEndEvent → List String
ids_of = map (λ e. e.id)

contains-ids_of :
    (id : String) (es : List EffectEndEvent)
    → contains id (ids_of es) ≡ elim (last_end id es) [ some t ↦ true | none ↦ false ]
unfolding contains last_end
contains-ids_of id [] = refl
contains-ids_of id (e ∷ es) = ground (arith, contains-ids_of id es)

restored_ids-ids_of :
    (es : List EffectEndEvent) → All (λ e. e.id ≢ "") es → restored_ids es ≡ ids_of es
unfolding restored_ids
restored_ids-ids_of [] a = refl
restored_ids-ids_of (e ∷ es) (n, a) = ground (arith, restored_ids-ids_of es a)

contains-empty :
    (es : List EffectEndEvent) → All (λ e. e.id ≢ "") es → contains "" (ids_of es) ≡ false
unfolding contains
contains-empty [] a = refl
contains-empty (e ∷ es) (n, a) = ground (arith, contains-empty es a)

restore_cursors-empty :
    (saved m : List (String × ℤ))
    → lookup str_dec "" (restore_cursors saved m) ≡ lookup str_dec "" m
unfolding restore_cursors
restore_cursors-empty [] m = refl
restore_cursors-empty ((k, s) ∷ saved) m = ground (
  arith,
  restore_cursors-empty saved (ite (str_dec k "") m (restore_cursor k s m)),
  lookup-restore_cursor k "" s m,
)

module _ {D P : Type 0} where
  -- The ended ids are those of the staged ends, and each recent end is the last staged of its id.
  pub record IsSynced (j : Journal D P) : Type 0 where
    pub ids : j.ended_ids ≡ ids_of j.ends
    pub named : All (λ e. e.id ≢ "") j.ends
    pub marked :
        (id : String) (t : ℤ)
        → last_end id j.ends ≡ some t
        → lookup str_dec id j.recently_ended ≡ some t
    pub unique : Unique str_dec j.effect_seq

  restore_ends_lem :
      (es : List EffectEndEvent) (j : Journal D P)
      → All (λ e. e.id ≢ "") es
      → j.ended_ids ≡ []
      → restore_ends es j ≡ record j {
        ends = es ++ j.ends;
        recently_ended = mark_ended es j.recently_ended;
        ended_ids = ids_of es;
      }
  unfolding restore_ends mark_ended
  restore_ends_lem [] j a unended = ap (λ x. record j { ended_ids = x }) unended
  restore_ends_lem (e ∷ es) j a unended =
      ap
        (λ x. record j {
          ends = (e ∷ es) ++ j.ends;
          recently_ended = mark_ended (e ∷ es) j.recently_ended;
          ended_ids = x;
        })
        (rw (unended, restored_ids-ids_of (e ∷ es) a) (append-nil (ids_of (e ∷ es))))

  -- The two journals differ at most in the order of entries in two maps.
  pub record SameJournal (j k : Journal D P) : Type 0 where
    pub rest : k ≡ record j { effect_seq = k.effect_seq; recently_ended = k.recently_ended }
    pub cursors : (id : String) → lookup str_dec id k.effect_seq ≡ lookup str_dec id j.effect_seq
    pub recent :
        (id : String) → lookup str_dec id k.recently_ended ≡ lookup str_dec id j.recently_ended

  cursors_back :
      (j : Journal D P) (id : String)
      → IsSynced j
      → lookup str_dec id (restore_cursors j.effect_seq (delete_all j.ended_ids j.effect_seq))
        ≡ lookup str_dec id j.effect_seq
  cursors_back j id s = elim (str_dec id "") [
    | yes e ↦ rw e (
        restore_cursors-empty j.effect_seq (delete_all j.ended_ids j.effect_seq)
        ∙ lookup-delete_all j.ended_ids j.effect_seq ""
        ∙ rw (s.ids, contains-empty j.ends s.named))
    | no n ↦ ground (
      arith,
      lookup-restore_cursors j.effect_seq (delete_all j.ended_ids j.effect_seq) id s.unique n,
      lookup-delete_all j.ended_ids j.effect_seq id,
    )
  ]

  recent_back :
      (j : Journal D P) (id : String)
      → IsSynced j
      → lookup str_dec id (mark_ended j.ends (delete_all j.ended_ids j.recently_ended))
        ≡ lookup str_dec id j.recently_ended
  recent_back j id s = elim (Option-cases (last_end id j.ends)) [
    | inl e ↦ ground (
      arith,
      e,
      lookup-mark_ended j.ends (delete_all j.ended_ids j.recently_ended) id s.named,
      lookup-delete_all j.ended_ids j.recently_ended id,
      s.ids,
      contains-ids_of id j.ends,
    )
    | inr (t, e) ↦ ground (
      arith,
      e,
      s.marked id t e,
      lookup-mark_ended j.ends (delete_all j.ended_ids j.recently_ended) id s.named,
    )
  ]

  -- The journal after the drain, and after the batch is put back.
  abbrev drained : Journal D P → Journal D P
  drained j = record j {
    spawns = [];
    updates = [];
    ends = [];
    effect_seq = delete_all j.ended_ids j.effect_seq;
    recently_ended = delete_all j.ended_ids j.recently_ended;
    ended_ids = [];
  }

  abbrev put_back : Journal D P → Journal D P → Journal D P
  put_back j k = record k {
    spawns = j.spawns ++ [];
    updates = j.updates ++ [];
    effect_seq = restore_cursors j.effect_seq (delete_all j.ended_ids j.effect_seq);
  }

  abbrev ends_back : Journal D P → Journal D P
  ends_back j = record (drained j) {
    ends = j.ends ++ [];
    recently_ended = mark_ended j.ends (delete_all j.ended_ids j.recently_ended);
    ended_ids = ids_of j.ends;
  }

  put_back-Same : (j : Journal D P) → IsSynced j → SameJournal j (put_back j (ends_back j))
  put_back-Same j s = record {
    rest = ground (arith, append-nil j.spawns, append-nil j.updates, append-nil j.ends, s.ids);
    cursors = λ id. cursors_back j id s;
    recent = λ id. recent_back j id s;
  }

  SameJournal-refl : (j : Journal D P) → SameJournal j j
  SameJournal-refl j = record { rest = refl; cursors = λ id. refl; recent = λ id. refl }

  -- A journal whose batch is drained and then put back is as before the drain: the staged events
  -- and the ended ids are the same lists, every cursor and every recent end is there again, and the
  -- rest is unchanged. It holds where the ended ids are those of the staged ends, which all have an
  -- id, each id's last staged end is its recent end, and no id has two cursors.
  pub restore_effect_events-drain_effect_events :
      (j : Journal D P)
      → IsSynced j
      → let (j', batch) = drain_effect_events j in SameJournal j (restore_effect_events batch j')
  unfolding drain_effect_events restore_effect_events
  restore_effect_events-drain_effect_events j s =
      if_cases Q (no_events j) _ _ (λ e. SameJournal-refl j)
        (λ e.
          subst (λ k. SameJournal j (put_back j k))
            (sym (restore_ends_lem j.ends (drained j) s.named refl)) (put_back-Same j s))
    where
      Q : Journal D P × EffectEventBatch → Type 0
      Q (j', batch) = SameJournal j (restore_effect_events batch j')
