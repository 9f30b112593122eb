-- ===== src/Sim/Patches/Replay.antt =====
-- What a replay of player patches does, in one go or in parts.
use mine_and_die.Prelude.{
  ◌≡◌, ◌≢◌, refl, sym, ap, subst, ◌∙◌, List, [], ◌∷◌, ◌++◌, Bool, none, some, String, str_dec,
  lookup, delete, arith, ite_cases, option_cases, ◌⊎◌, inl, inr, All, lookup-insert, lookup-delete,
  lookup-delete_self,
}
use mine_and_die.Sim.Patches.{
  PlayerView, Patch, PatchError, unknown_entity, patch_player_removed, Views, apply_view, stored,
  apply_patch, apply_players,
}

module _ {F : Type 0} (is_positive : F → Bool) where
  -- Continuing a replay that has not failed.
  abbrev then_apply : Views F ⊎ PatchError → List (Patch F) → Views F ⊎ PatchError
  then_apply (inl next) ps = apply_players is_positive next ps
  then_apply (inr e) ps = inr e

  -- Replaying two lists of patches one after the other is replaying their concatenation: the first
  -- error ends the replay, in whichever of the lists it is.
  apply_players-append :
      (base : Views F) (ps qs : List (Patch F))
      → apply_players is_positive base (ps ++ qs)
        ≡ then_apply (apply_players is_positive base ps) qs
  unfolding apply_players
  apply_players-append base [] qs = refl
  apply_players-append base (p ∷ ps) qs =
      resume (apply_patch is_positive p base) (λ next. apply_players-append next ps qs)
    where
      resume :
          (r : Views F ⊎ PatchError)
          → ((next : Views F)
              → apply_players is_positive next (ps ++ qs)
                ≡ then_apply (apply_players is_positive next ps) qs)
          → elim r as (λ _. Views F ⊎ PatchError) [
            | inl next ↦ apply_players is_positive next (ps ++ qs)
            | inr e ↦ inr e
          ]
            ≡ then_apply
                (elim r as (λ _. Views F ⊎ PatchError) [
                  | inl next ↦ apply_players is_positive next ps
                  | inr e ↦ inr e
                ])
                qs
      resume (inl next) ih = ih next
      resume (inr e) ih = refl

  -- What a round leaves to the entities it does not name, and what it takes of the one it names.
  abbrev Kept : Patch F → Views F → Views F ⊎ PatchError → Type 0
  Kept p base (inr e) = Unit
  Kept p base (inl next) =
      ((id : String) → p.entity_id ≢ id → lookup str_dec id next ≡ lookup str_dec id base)
      × (lookup str_dec p.entity_id base ≡ none → lookup str_dec p.entity_id next ≡ none)

  stored-Kept :
      (p : Patch F) (base : Views F) (view : PlayerView F) (r : PlayerView F ⊎ PatchError)
      → lookup str_dec p.entity_id base ≡ some view
      → Kept p base (stored is_positive p.entity_id base r)
  unfolding stored
  stored-Kept p base view (inr e) found = tt
  stored-Kept p base view (inl v) found = (
    λ id n. ground (arith, lookup-insert str_dec p.entity_id id v base, n),
    λ missing. ground (arith, found, missing),
  )

  apply_patch-Kept : (p : Patch F) (base : Views F) → Kept p base (apply_patch is_positive p base)
  unfolding apply_patch
  apply_patch-Kept p base =
      ite_cases (Kept p base) (str_dec p.entity_id "") _ _ (λ e. tt)
        (λ n.
          ite_cases (Kept p base) (str_dec p.kind patch_player_removed) _ _
            (λ e. (
              λ id n. ground (arith, lookup-delete str_dec p.entity_id id base, n),
              λ missing. ground (arith, lookup-delete str_dec p.entity_id p.entity_id base),
            ))
            (λ k.
              option_cases (Kept p base) (lookup str_dec p.entity_id base) _ _ (λ e. tt)
                (λ view found. stored-Kept p base view (apply_view is_positive p view) found)))

  -- What a replay that succeeds does to one entity.
  abbrev Framed : String → List (Patch F) → Views F → Views F ⊎ PatchError → Type 0
  Framed id ps base (inr e) = Unit
  Framed id ps base (inl next) =
      (All (λ (p : Patch F). p.entity_id ≢ id) ps → lookup str_dec id next ≡ lookup str_dec id base)
      × (lookup str_dec id base ≡ none → lookup str_dec id next ≡ none)

  then-Framed :
      (id : String) (p : Patch F) (ps : List (Patch F)) (base next : Views F)
      → Kept p base (inl next)
      → (r : Views F ⊎ PatchError) → Framed id ps next r
      → Framed id (p ∷ ps) base r
  then-Framed id p ps base next k (inr e) f = tt
  then-Framed id p ps base next k (inl last) f = (
    λ all. f.0 all.1 ∙ k.0 id all.0,
    λ missing. f.1 (elim (str_dec p.entity_id id) [
      | yes e ↦
          subst (λ i. lookup str_dec i next ≡ none) e
            (k.1 (subst (λ i. lookup str_dec i base ≡ none) (sym e) missing))
      | no n ↦ k.0 id n ∙ missing
    ]),
  )

  apply_players-Framed :
      (id : String) (ps : List (Patch F)) (base : Views F)
      → Framed id ps base (apply_players is_positive base ps)
  unfolding apply_players
  apply_players-Framed id [] base = (λ all. refl, λ missing. missing)
  apply_players-Framed id (p ∷ ps) base =
      resume (apply_patch is_positive p base) (apply_patch-Kept p base)
        (λ next. apply_players-Framed id ps next)
    where
      resume :
          (r : Views F ⊎ PatchError)
          → Kept p base r
          → ((next : Views F) → Framed id ps next (apply_players is_positive next ps))
          → Framed id (p ∷ ps) base (elim r as (λ _. Views F ⊎ PatchError) [
            | inl next ↦ apply_players is_positive next ps
            | inr e ↦ inr e
          ])
      resume (inl next) k ih = then-Framed id p ps base next k _ (ih next)
      resume (inr e) k ih = tt

  -- A replay that succeeds leaves the view of every entity that no patch names as it was.
  pub apply_players-frame :
      (id : String) (ps : List (Patch F)) (base next : Views F)
      → apply_players is_positive base ps ≡ inl next
      → All (λ (p : Patch F). p.entity_id ≢ id) ps
      → lookup str_dec id next ≡ lookup str_dec id base
  apply_players-frame id ps base next e all =
      (subst (Framed id ps base) e (apply_players-Framed id ps base)).0 all

  -- A replay that succeeds makes no entity: one that has no view before it has none after it.
  pub apply_players-none :
      (id : String) (ps : List (Patch F)) (base next : Views F)
      → apply_players is_positive base ps ≡ inl next
      → lookup str_dec id base ≡ none
      → lookup str_dec id next ≡ none
  apply_players-none id ps base next e missing =
      (subst (Framed id ps base) e (apply_players-Framed id ps base)).1 missing

  apply_patch-removal :
      (r : Patch F) (base : Views F)
      → r.kind ≡ patch_player_removed
      → r.entity_id ≢ ""
      → apply_patch is_positive r base ≡ inl (delete str_dec r.entity_id base)
  unfolding apply_patch
  apply_patch-removal r base k n = ground (arith, k, n)

  apply_players-unknown :
      (p : Patch F) (ps : List (Patch F)) (base : Views F)
      → p.entity_id ≢ ""
      → p.kind ≢ patch_player_removed
      → lookup str_dec p.entity_id base ≡ none
      → apply_players is_positive base (p ∷ ps) ≡ inr (unknown_entity p.entity_id p.kind)
  unfolding apply_players apply_patch
  apply_players-unknown p ps base n k missing = ground (arith, k, n, missing)

  apply_players-cons :
      (p : Patch F) (ps : List (Patch F)) (base next : Views F)
      → apply_patch is_positive p base ≡ inl next
      → apply_players is_positive base (p ∷ ps) ≡ apply_players is_positive next ps
  unfolding apply_players
  apply_players-cons p ps base next e =
      ap
        (λ (r : Views F ⊎ PatchError). elim r as (λ _. Views F ⊎ PatchError) [
          | inl next' ↦ apply_players is_positive next' ps
          | inr x ↦ inr x
        ])
        e

  -- Where a replay that begins with the removal of a player succeeds, and its further patches name
  -- other entities, a next patch that names the player again, and is not a removal, ends the replay
  -- with the error that the entity is unknown. The player's id is not empty.
  pub apply_players-removed :
      (id : String) (removal p : Patch F) (ps qs : List (Patch F)) (base next : Views F)
      → removal.entity_id ≡ id
      → removal.kind ≡ patch_player_removed
      → p.entity_id ≡ id
      → p.kind ≢ patch_player_removed
      → id ≢ ""
      → apply_players is_positive base (removal ∷ ps) ≡ inl next
      → All (λ (q : Patch F). q.entity_id ≢ id) ps
      → apply_players is_positive base ((removal ∷ ps) ++ (p ∷ qs)) ≡ inr (unknown_entity id p.kind)
  apply_players-removed id removal p ps qs base next ri rk pi pk n e all =
      apply_players-append base (removal ∷ ps) (p ∷ qs)
      ∙ ap (λ r. then_apply r (p ∷ qs)) e
      ∙ apply_players-unknown p qs next (rw pi n) pk (rw pi gone)
      ∙ ap (λ i. inr (unknown_entity i p.kind)) pi
    where
      rest : apply_players is_positive (delete str_dec removal.entity_id base) ps ≡ inl next
      rest =
          sym (apply_players-cons removal ps base _ (apply_patch-removal removal base rk (rw ri n)))
          ∙ e

      gone : lookup str_dec id next ≡ none
      gone =
          apply_players-frame id ps (delete str_dec removal.entity_id base) next rest all
          ∙ rw ri (lookup-delete_self str_dec id base)
