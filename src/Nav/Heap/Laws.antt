-- ===== src/Nav/Heap/Laws.antt =====
-- container/heap only swaps the elements of its slice: `push` adds its element, and `pop` takes one
-- element out, whatever the comparison is.
use mine_and_die.Prelude.{
  ℕ, zero, suc, ◌+◌, ◌-◌, ◌*◌, ◌/◌, ◌<◌, ◌≤◌, ◌≡◌, refl, Bool, not, ◌||◌, List, [], ◌∷◌, ◌++◌, leb,
  ◌==◌, get_or, set, take, length, if_cases, arith, All, length-set, length-append, ap, subst,
  ℕ_discrete, get_or-set_self, get_or-set_ne, All-append,
}
use mine_and_die.Nav.Heap.{swap, up, child, down, push, pop}

module _ {A : Type 0} where
  -- The sum of the elements' weights.
  abbrev pub sum : (A → ℕ) → List A → ℕ
  sum w [] = 0
  sum w (x ∷ xs) = w x + sum w xs

  pub sum-append : (w : A → ℕ) (xs ys : List A) → sum w (xs ++ ys) ≡ sum w xs + sum w ys
  sum-append w [] ys = omega arith
  sum-append w (x ∷ xs) ys = omega (arith, sum-append w xs ys)

  sum-set :
      (w : A → ℕ) (xs : List A) (i : ℕ) (v d : A)
      → i < length xs
      → sum w (set xs i v) + w (get_or xs i d) ≡ sum w xs + w v
  sum-set w [] i v d h = absurd (omega arith)
  sum-set w (x ∷ xs) zero v d h = omega arith
  sum-set w (x ∷ xs) (suc i) v d h = omega (arith, sum-set w xs i v d (omega arith))

  All-set : (P : A → Type 0) (xs : List A) (i : ℕ) (v : A) → P v → All P xs → All P (set xs i v)
  All-set P [] i v p h = tt
  All-set P (x ∷ xs) zero v p h = (p, h.1)
  All-set P (x ∷ xs) (suc i) v p h = (h.0, All-set P xs i v p h.1)

  All-get_or :
      (P : A → Type 0) (xs : List A) (i : ℕ) (d : A) → i < length xs → All P xs → P (get_or xs i d)
  All-get_or P [] i d h a = absurd (omega arith)
  All-get_or P (x ∷ xs) zero d h a = a.0
  All-get_or P (x ∷ xs) (suc i) d h a = All-get_or P xs i d (omega arith) a.1

  All-take : (P : A → Type 0) (n : ℕ) (xs : List A) → All P xs → All P (take n xs)
  All-take P zero xs a = tt
  All-take P (suc n) [] a = tt
  All-take P (suc n) (x ∷ xs) a = (a.0, All-take P n xs a.1)

  sum-take :
      (w : A → ℕ) (n : ℕ) (xs : List A) (d : A)
      → length xs ≡ suc n
      → w (get_or xs n d) + sum w (take n xs) ≡ sum w xs
  sum-take w n [] d h = absurd (omega arith)
  sum-take w zero (x ∷ []) d h = omega arith
  sum-take w zero (x ∷ y ∷ ys) d h = absurd (omega arith)
  sum-take w (suc n) (x ∷ xs) d h = omega (arith, sum-take w n xs d (omega arith))

  get_or-set_read :
      (h : List A) (i j : ℕ) (d : A)
      → i < length h
      → get_or (set h i (get_or h j d)) j d ≡ get_or h j d
  get_or-set_read h i j d l = elim (ℕ_discrete i j) [
    | yes e ↦
        subst (λ k. get_or (set h i (get_or h k d)) k d ≡ get_or h k d) e
          (get_or-set_self h i (get_or h i d) d l)
    | no e ↦ get_or-set_ne h (get_or h j d) d e
  ]

  -- What a swap keeps: the length, each sum of weights, a property of all elements.
  record Same (P : A → Type 0) (w : A → ℕ) (n s : ℕ) (h : List A) : Type 0 where
    pub size : length h ≡ n
    pub total : sum w h ≡ s
    pub every : All P h

module _ {A : Type 0} (less : A → A → Bool) (d : A) (P : A → Type 0) (w : A → ℕ) (n s : ℕ) where
  swap-Same :
      (h : List A) (i j : ℕ) → i < n → j < n → Same P w n s h → Same P w n s (swap less d h i j)
  swap-Same h i j p q k =
      let a = get_or h i d in
      let b = get_or h j d in
      let li : i < length h = omega (arith, k.size) in
      let lj : j < length h = omega (arith, k.size) in
      let l1 = length-set h i b in
      let l2 = length-set (set h i b) j a in
      record {
        size = omega (arith, l1, l2, k.size);
        total = omega (
          arith,
          sum-set w h i b d li,
          sum-set w (set h i b) j a d (omega (arith, l1)),
          ap w (get_or-set_read h i j d li),
          k.total,
        );
        every =
            All-set P (set h i b) j a (All-get_or P h i d li k.every)
              (All-set P h i b (All-get_or P h j d lj k.every) k.every);
      }

  up-Same :
      (fuel : ℕ) (h : List A) (j : ℕ) → j < n → Same P w n s h → Same P w n s (up less d fuel h j)
  unfolding up
  up-Same zero h j p k = k
  up-Same (suc fuel) h j p k =
      let i = (j - 1) / 2 in
      if_cases (Same P w n s) (i == j || not (less (get_or h j d) (get_or h i d))) h
        (up less d fuel (swap less d h i j) i) (λ _. k)
        (λ _. up-Same fuel (swap less d h i j) i (omega arith) (swap-Same h i j (omega arith) p k))

  child-lt : (h : List A) (i m : ℕ) → 2 * i + 1 < m → child less d h i m < m
  child-lt h i m p = ground arith

  down-Same :
      (fuel : ℕ) (h : List A) (i m : ℕ)
      → m ≤ n
      → i < n
      → Same P w n s h
      → Same P w n s (down less d fuel h i m)
  unfolding down
  down-Same zero h i m q p k = k
  down-Same (suc fuel) h i m q p k =
      let j = child less d h i m in
      if_cases (Same P w n s) (leb m (2 * i + 1) || not (less (get_or h j d) (get_or h i d))) h
        (down less d fuel (swap less d h i j) j m) (λ _. k)
        (λ e.
          let c : j < m = child-lt h i m (ground arith) in
          down-Same fuel (swap less d h i j) j m q (omega arith)
            (swap-Same h i j p (omega arith) k))

-- A push adds the element.
pub push_lem :
    {A : Type 0} (less : A → A → Bool) (P : A → Type 0) (w : A → ℕ) (x : A) (xs : List A)
    → P x
    → All P xs
    → (length (push less x xs) ≡ suc (length xs))
      × (sum w (push less x xs) ≡ w x + sum w xs)
      × All P (push less x xs)
unfolding push
push_lem less P w x xs p k =
    let h = xs ++ x ∷ [] in
    let s : Same P w (length h) (sum w h) h = record {
      size = refl;
      total = refl;
      every = All-append P xs (x ∷ []) k (p, tt);
    } in
    let l = length-append xs (x ∷ []) in
    let r =
      up-Same less x P w (length h) (sum w h) (suc (length xs)) h (length xs) (omega (arith, l))
        s in
    (omega (arith, l, r.size), omega (arith, r.total, sum-append w xs (x ∷ [])), r.every)

-- A pop takes one element out.
pub pop_lem :
    {A : Type 0} (less : A → A → Bool) (P : A → Type 0) (w : A → ℕ) (x : A) (xs : List A)
    → All P (x ∷ xs)
    → P (pop less x xs).0
      × (w (pop less x xs).0 + sum w (pop less x xs).1 ≡ w x + sum w xs)
      × All P (pop less x xs).1
unfolding pop
pop_lem less P w x xs k =
    let n = length xs in
    let s : Same P w (suc n) (w x + sum w xs) (x ∷ xs) = record {
      size = refl;
      total = refl;
      every = k;
    } in
    let r =
      down-Same less x P w (suc n) (w x + sum w xs) (suc n) (swap less x (x ∷ xs) 0 n) 0 n
        (omega arith) (omega arith)
        (swap-Same less x P w (suc n) (w x + sum w xs) (x ∷ xs) 0 n (omega arith) (omega arith)
          s) in
    let h = down less x (suc n) (swap less x (x ∷ xs) 0 n) 0 n in
    (
      All-get_or P h n x (omega (arith, r.size)) r.every,
      omega (arith, sum-take w n h x r.size, r.total),
      All-take P n h r.every,
    )
