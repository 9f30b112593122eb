-- ===== src/Prelude/Sort.antt =====
-- Sorting by a Boolean order, as `sort.Slice` does. Where the keys differ there is one sorted list,
-- so the algorithm does not matter: an insertion stands for it.
use mathlib.Core.Path.{◌≡◌, refl, sym, ap, ap₂, ◌∙◌}
use mathlib.Core.Logic.{◌≢◌, ite, inl, inr}
use mathlib.Core.Bool.{Bool, true, false}
use mathlib.Core.List.{List, [], ◌∷◌, lookup}
use mathlib.Core.Option.{none, some}
use native.Mathlib.Omega.{arith}
use mine_and_die.Prelude.Lists.{All}
use mine_and_die.Prelude.Maps.{Unique}
use mine_and_die.Prelude.Tests.{if◌then◌else◌, if_cases, Bool-cases}
use mine_and_die.Prelude.Texts.{text_less, text_less_irrefl, text_less_trans, text_less_connex}

module _ {ℓ} {A : Type ℓ} (less : A → A → Bool) where
  unfoldable pub insert_by : A → List A → List A
  insert_by x [] = x ∷ []
  insert_by x (y ∷ ys) = if less y x then y ∷ insert_by x ys else x ∷ y ∷ ys

  unfoldable pub sort_by : List A → List A
  unfolding insert_by
  sort_by [] = []
  sort_by (x ∷ xs) = insert_by x (sort_by xs)

  pub All-insert_by {κ} :
      (P : A → Type κ) (x : A) (xs : List A) → P x → All P xs → All P (insert_by x xs)
  unfolding insert_by
  All-insert_by P x [] p a = (p, tt)
  All-insert_by P x (y ∷ ys) p a =
      if_cases (All P) (less y x) _ _ (λ e. (a.0, All-insert_by P x ys p a.1)) (λ e. (p, a))

  pub All-sort_by {κ} : (P : A → Type κ) (xs : List A) → All P xs → All P (sort_by xs)
  unfolding sort_by
  All-sort_by P [] a = tt
  All-sort_by P (x ∷ xs) a = All-insert_by P x (sort_by xs) a.0 (All-sort_by P xs a.1)

-- A strict linear order.
pub record IsOrder {ℓ} {K : Type ℓ} (less : K → K → Bool) : Type ℓ where
  pub irrefl : (k : K) → less k k ≡ false
  pub trans : (i j k : K) → less i j ≡ true → less j k ≡ true → less i k ≡ true
  pub connex : (j k : K) → less j k ≡ false → less k j ≡ false → j ≡ k

pub text_less-IsOrder : IsOrder text_less
text_less-IsOrder = record {
  irrefl = text_less_irrefl;
  trans = text_less_trans;
  connex = text_less_connex;
}

module _ {ℓ} {K : Type ℓ} (less : K → K → Bool) (o : IsOrder less) where
  less_ne : (j k : K) → less j k ≡ true → j ≢ k
  less_ne j k h e = false_true (sym (o.irrefl k) ∙ ap (λ i. less i k) (sym e) ∙ h)
    where
      false_true : false ≡ true → ⊥
      false_true p = cc

  less_of_ne : (j k : K) → less j k ≡ false → j ≢ k → less k j ≡ true
  less_of_ne j k h n = elim (Bool-cases (less k j)) [
    | inl e ↦ e
    | inr e ↦ absurd (n (o.connex j k h e))
  ]

module _ {ℓ} {K V : Type ℓ} (dec : Discrete K) (less : K → K → Bool) where
  -- The keys go up, each below all that follow.
  abbrev pub IsSorted : List (K × V) → Type ℓ
  IsSorted [] = Unit
  IsSorted (e ∷ m) = All (λ (f : K × V). less e.0 f.0 ≡ true) m × IsSorted m

  abbrev pub entry_less : K × V → K × V → Bool
  entry_less e f = less e.0 f.0

  abbrev pub sort_entries : List (K × V) → List (K × V)
  sort_entries = sort_by entry_less

  module _ (o : IsOrder less) where
    pub lookup-insert_by :
        (k : K) (x : K × V) (m : List (K × V))
        → lookup dec k (insert_by entry_less x m) ≡ lookup dec k (x ∷ m)
    unfolding insert_by lookup
    lookup-insert_by k x [] = refl
    lookup-insert_by k x (y ∷ m) =
        if_cases (λ r. lookup dec k r ≡ lookup dec k (x ∷ y ∷ m)) (less y.0 x.0) _ _
          (λ e. ground (arith, lookup-insert_by k x m, less_ne less o y.0 x.0 e)) (λ e. refl)

    pub lookup-sort_entries :
        (k : K) (m : List (K × V)) → lookup dec k (sort_entries m) ≡ lookup dec k m
    unfolding sort_by lookup
    lookup-sort_entries k [] = refl
    lookup-sort_entries k (x ∷ m) =
        lookup-insert_by k x (sort_entries m)
        ∙ ap (ite (dec k x.0) (some x.1)) (lookup-sort_entries k m)

    above :
        (j k : K) (m : List (K × V))
        → less j k ≡ true
        → All (λ (f : K × V). less k f.0 ≡ true) m
        → All (λ (f : K × V). less j f.0 ≡ true) m
    above j k [] h a = tt
    above j k (e ∷ m) h a = (o.trans j k e.0 h a.0, above j k m h a.1)

    insert_by-IsSorted :
        (x : K × V) (m : List (K × V))
        → lookup dec x.0 m ≡ none
        → IsSorted m
        → IsSorted (insert_by entry_less x m)
    unfolding insert_by lookup
    insert_by-IsSorted x [] n s = (tt, tt)
    insert_by-IsSorted x (y ∷ m) n s =
        if_cases IsSorted (less y.0 x.0) _ _
          (λ e. (
            All-insert_by entry_less (λ (f : K × V). less y.0 f.0 ≡ true) x m e s.0,
            insert_by-IsSorted x m (ground (arith, n)) s.1,
          ))
          (λ e.
            let new : x.0 ≢ y.0 = ground (arith, n) in
            let below = less_of_ne less o y.0 x.0 e (λ p. new (sym p)) in
            ((below, above x.0 y.0 m below s.0), s))

    pub sort_entries-IsSorted : (m : List (K × V)) → Unique dec m → IsSorted (sort_entries m)
    unfolding sort_by
    sort_entries-IsSorted [] u = tt
    sort_entries-IsSorted (x ∷ m) u =
        insert_by-IsSorted x (sort_entries m) (lookup-sort_entries x.0 m ∙ u.0)
          (sort_entries-IsSorted m u.1)

    lookup-above :
        (k : K) (m : List (K × V))
        → All (λ (f : K × V). less k f.0 ≡ true) m
        → lookup dec k m ≡ none
    unfolding lookup
    lookup-above k [] a = refl
    lookup-above k (e ∷ m) a = ground (arith, less_ne less o k e.0 a.0, lookup-above k m a.1)

    -- A sorted list that finds a key does not begin above it.
    head_not_less :
        (e f : K × V) (l m : List (K × V))
        → IsSorted (f ∷ m)
        → lookup dec e.0 (e ∷ l) ≡ lookup dec e.0 (f ∷ m)
        → less e.0 f.0 ≡ false
    unfolding lookup
    head_not_less e f l m t h = elim (Bool-cases (less e.0 f.0)) [
      | inr level ↦ level
      | inl up ↦ absurd (ground (arith, h, lookup-above e.0 (f ∷ m) (up, above e.0 f.0 m up t.0)))
    ]

    tails :
        (e f : K × V) (l m : List (K × V)) (k : K)
        → IsSorted (e ∷ l)
        → IsSorted (f ∷ m)
        → e.0 ≡ f.0
        → lookup dec k (e ∷ l) ≡ lookup dec k (f ∷ m)
        → lookup dec k l ≡ lookup dec k m
    unfolding lookup
    tails e f l m k s t same h =
        ground (arith, h, same, lookup-above e.0 l s.0, lookup-above f.0 m t.0)

    -- A sorted list is found again from what it answers.
    IsSorted-eq :
        (l m : List (K × V))
        → IsSorted l
        → IsSorted m
        → ((k : K) → lookup dec k l ≡ lookup dec k m)
        → l ≡ m
    unfolding lookup
    IsSorted-eq [] [] s t h = refl
    IsSorted-eq [] (f ∷ m) s t h = absurd (ground (arith, h f.0))
    IsSorted-eq (e ∷ l) [] s t h = absurd (ground (arith, h e.0))
    IsSorted-eq (e ∷ l) (f ∷ m) s t h =
        let same =
          o.connex e.0 f.0 (head_not_less e f l m t (h e.0))
            (head_not_less f e m l s (sym (h f.0))) in
        ap₂ (◌∷◌) (ground (arith, same, h e.0))
          (IsSorted-eq l m s.1 t.1 (λ k. tails e f l m k s t same (h k)))

    -- The sorted entries depend on what the map answers alone, not on the order of its entries.
    pub sort_entries-eq :
        (l m : List (K × V))
        → Unique dec l
        → Unique dec m
        → ((k : K) → lookup dec k l ≡ lookup dec k m)
        → sort_entries l ≡ sort_entries m
    sort_entries-eq l m u v h =
        IsSorted-eq (sort_entries l) (sort_entries m) (sort_entries-IsSorted l u)
          (sort_entries-IsSorted m v)
          (λ k. lookup-sort_entries k l ∙ h k ∙ sym (lookup-sort_entries k m))
