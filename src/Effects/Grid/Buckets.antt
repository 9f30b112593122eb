-- ===== src/Effects/Grid/Buckets.antt =====
-- server/internal/effects/runtime/spatial_index.go: what the loops over the cells do to a bucket.
use mine_and_die.Prelude.{
  ℕ, zero, suc, ◌+◌, ◌-◌, ◌<◌, ◌≤◌, ◌≡◌, refl, sym, ap, List, [], ◌∷◌, ◌++◌, none, some, ite,
  String, str_dec, arith, option_cases, subst, insert, delete, lookup_or, lookup-insert,
  lookup-delete, lookup_or-insert, length, take, set, get_or, count, count-append, count-set,
  count-take, length-append, length-set, get_or-set_self, get_or-set_ne, ℕ_discrete,
}
use mine_and_die.Effects.Grid.{
  Cell, cell_dec, Cells, bucket, index_of, swap_out, take_out, remove_from_cells, add_to_cells,
}

-- Where an id is found it stands, before the end of the list.
index_of-some :
    (id : String) (ids : List String) (i : ℕ)
    → index_of id ids ≡ some i
    → (i < length ids) × (get_or ids i "" ≡ id)
unfolding index_of
index_of-some id [] i h = absurd (ground (arith, h))
index_of-some id (x ∷ xs) zero h = (omega arith, ground (arith, h))
index_of-some id (x ∷ xs) (suc i) h =
    let later = index_of-some id xs i (ground (arith, h)) in (omega (arith, later.0), later.1)

index_of-none :
    (id : String) (ids : List String) → index_of id ids ≡ none → count str_dec id ids ≡ 0
unfolding index_of
index_of-none id [] h = refl
index_of-none id (x ∷ xs) h = ground (arith, h, index_of-none id xs)

length-take : (n : ℕ) (xs : List String) → length xs ≡ suc n → length (take n xs) ≡ n
length-take zero xs h = refl
length-take (suc n) [] h = absurd (omega arith)
length-take (suc n) (x ∷ xs) h = ap suc (length-take n xs (omega arith))

-- A write of the last element leaves it the last one.
last-set :
    (xs : List String) (i : ℕ)
    → i < length xs
    → let last = get_or xs (length xs - 1) "" in get_or (set xs i last) (length xs - 1) "" ≡ last
last-set xs i h = elim (ℕ_discrete i (length xs - 1)) [
  | yes e ↦
      subst (λ j. get_or (set xs j last) (length xs - 1) "" ≡ last) (sym e)
        (get_or-set_self xs (length xs - 1) last "" (omega arith))
  | no n ↦ get_or-set_ne xs last "" n
]
  where
    last : String
    last = get_or xs (length xs - 1) ""

-- The write and the cut, where `id` stands at `i`.
count-swapped :
    (j id : String) (ids : List String) (i : ℕ)
    → i < length ids
    → get_or ids i "" ≡ id
    → count str_dec j (take (length ids - 1) (set ids i (get_or ids (length ids - 1) "")))
      ≡ count str_dec j ids - ite (str_dec j id) 1 0
count-swapped j id ids i h e = ground (arith, cut, count-set str_dec j ids i last "" h, e)
  where
    last : String
    last = get_or ids (length ids - 1) ""

    cut :
        count str_dec j (take (length ids - 1) (set ids i last)) + ite (str_dec j last) 1 0
        ≡ count str_dec j (set ids i last)
    cut =
        let same = length-set ids i last in
        subst
          (λ v.
            count str_dec j (take (length ids - 1) (set ids i last)) + ite (str_dec j v) 1 0
            ≡ count str_dec j (set ids i last))
          (last-set ids i h)
          (count-take str_dec j (length ids - 1) (set ids i last) "" (omega arith))

pub count-swap_out :
    (j id : String) (ids : List String)
    → count str_dec j (swap_out id ids) ≡ count str_dec j ids - ite (str_dec j id) 1 0
unfolding swap_out
count-swap_out j id ids =
    option_cases (λ r. count str_dec j r ≡ count str_dec j ids - ite (str_dec j id) 1 0)
      (index_of id ids) ids _ (λ e. ground (arith, index_of-none id ids e))
      (λ i e. let at = index_of-some id ids i e in count-swapped j id ids i at.0 at.1)

pub length-swap_out :
    (id : String) (ids : List String)
    → 0 < count str_dec id ids
    → suc (length (swap_out id ids)) ≡ length ids
unfolding swap_out
length-swap_out id ids h =
    option_cases (λ r. suc (length r) ≡ length ids) (index_of id ids) ids _
      (λ e. absurd (omega (arith, index_of-none id ids e)))
      (λ i e.
        let at = index_of-some id ids i e in
        let same = length-set ids i (get_or ids (length ids - 1) "") in
        omega (
          arith,
          length-take (length ids - 1) (set ids i (get_or ids (length ids - 1) "")) (omega arith),
        ))

pub bucket-take_out :
    (id : String) (c d : Cell) (m : Cells)
    → bucket c (take_out id d m) ≡ ite (cell_dec c d) (swap_out id (bucket d m)) (bucket c m)
unfolding take_out swap_out index_of lookup_or
bucket-take_out id c d m = at (bucket d m) refl
  where
    stored :
        (r : List String)
        → bucket c (elim r [ [] ↦ delete cell_dec d m | y ∷ ys ↦ insert cell_dec d (y ∷ ys) m ])
          ≡ ite (cell_dec c d) r (bucket c m)
    stored [] = ground (arith, lookup-delete cell_dec d c m)
    stored (y ∷ ys) = ground (arith, lookup-insert cell_dec d c (y ∷ ys) m)

    at :
        (b : List String)
        → bucket d m ≡ b
        → bucket c (elim b [
          | [] ↦ m
          | x ∷ xs ↦ elim (swap_out id (x ∷ xs)) [
            | [] ↦ delete cell_dec d m
            | y ∷ ys ↦ insert cell_dec d (y ∷ ys) m
          ]
        ])
          ≡ ite (cell_dec c d) (swap_out id b) (bucket c m)
    at [] e = ground (arith, e)
    at (x ∷ xs) e = stored (swap_out id (x ∷ xs))

pub count-remove_from_cells :
    (j id : String) (c : Cell) (cells : List Cell) (m : Cells)
    → count str_dec j (bucket c (remove_from_cells id cells m))
      ≡ count str_dec j (bucket c m) - ite (str_dec j id) (count cell_dec c cells) 0
unfolding remove_from_cells
count-remove_from_cells j id c [] m = ground arith
count-remove_from_cells j id c (d ∷ rest) m = ground (
  arith,
  count-remove_from_cells j id c rest (take_out id d m),
  bucket-take_out id c d m,
  count-swap_out j id (bucket d m),
)

pub length-remove_from_cells :
    (id : String) (c : Cell) (cells : List Cell) (m : Cells)
    → count cell_dec c cells ≤ count str_dec id (bucket c m)
    → length (bucket c (remove_from_cells id cells m)) + count cell_dec c cells
      ≡ length (bucket c m)
unfolding remove_from_cells
length-remove_from_cells id c [] m h = omega arith
length-remove_from_cells id c (d ∷ rest) m h = ground (
  arith,
  length-remove_from_cells id c rest (take_out id d m),
  bucket-take_out id c d m,
  count-swap_out id id (bucket d m),
  length-swap_out id (bucket d m),
  h,
)

pub count-add_to_cells :
    (j id : String) (c : Cell) (cells : List Cell) (m : Cells)
    → count str_dec j (bucket c (add_to_cells id cells m))
      ≡ count str_dec j (bucket c m) + ite (str_dec j id) (count cell_dec c cells) 0
unfolding add_to_cells
count-add_to_cells j id c [] m = ground arith
count-add_to_cells j id c (d ∷ rest) m = ground (
  arith,
  count-add_to_cells j id c rest (insert cell_dec d (bucket d m ++ (id ∷ [])) m),
  lookup_or-insert cell_dec [] d c (bucket d m ++ (id ∷ [])) m,
  count-append str_dec j (bucket d m) (id ∷ []),
)

pub length-add_to_cells :
    (id : String) (c : Cell) (cells : List Cell) (m : Cells)
    → length (bucket c (add_to_cells id cells m)) ≡ length (bucket c m) + count cell_dec c cells
unfolding add_to_cells
length-add_to_cells id c [] m = omega arith
length-add_to_cells id c (d ∷ rest) m = ground (
  arith,
  length-add_to_cells id c rest (insert cell_dec d (bucket d m ++ (id ∷ [])) m),
  lookup_or-insert cell_dec [] d c (bucket d m ++ (id ∷ [])) m,
  length-append (bucket d m) (id ∷ []),
)
