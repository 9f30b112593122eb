-- ===== src/Effects/Manager/Entries.antt =====
-- Lists of entries by key: which keys stand in them after a write or a removal.
use mine_and_die.Prelude.{
  ◌+◌, ◌≡◌, List, [], ◌∷◌, String, str_dec, ite, ite_cases, insert, delete, count, map, arith, All,
}

module _ {V : Type 0} where
  abbrev pub keys : List (String × V) → List String
  keys l = map (λ e. e.0) l

  pub count-insert :
      (j k : String) (v : V) (l : List (String × V))
      → count str_dec k (keys l) ≡ 0
      → count str_dec j (keys (insert str_dec k v l))
        ≡ count str_dec j (keys l) + ite (str_dec j k) 1 0
  unfolding insert
  count-insert j k v [] h = omega arith
  count-insert j k v (e ∷ l) h =
      ite_cases
        (λ m.
          count str_dec j (keys m)
          ≡ ite (str_dec j e.0) 1 0 + count str_dec j (keys l) + ite (str_dec j k) 1 0)
        (str_dec k e.0) ((k, v) ∷ l) (e ∷ insert str_dec k v l) (λ p. absurd (ground arith))
        (λ n. omega (arith, count-insert j k v l (ground arith)))

  pub count-delete :
      (j k : String) (l : List (String × V))
      → count str_dec j (keys (delete str_dec k l)) ≡ ite (str_dec j k) 0 (count str_dec j (keys l))
  unfolding delete
  count-delete j k [] = ground arith
  count-delete j k (e ∷ l) =
      ite_cases
        (λ m.
          count str_dec j (keys m)
          ≡ ite (str_dec j k) 0 (ite (str_dec j e.0) 1 0 + count str_dec j (keys l)))
        (str_dec k e.0) (delete str_dec k l) (e ∷ delete str_dec k l)
        (λ p. ground (arith, count-delete j k l)) (λ n. ground (arith, count-delete j k l))

  module _ (P : String × V → Type 0) where
    pub All-insert :
        (k : String) (v : V) (l : List (String × V))
        → P (k, v)
        → All P l
        → All P (insert str_dec k v l)
    unfolding insert
    All-insert k v [] p h = (p, tt)
    All-insert k v (e ∷ l) p h =
        ite_cases (All P) (str_dec k e.0) ((k, v) ∷ l) (e ∷ insert str_dec k v l) (λ q. (p, h.1))
          (λ n. (h.0, All-insert k v l p h.1))

    pub All-delete : (k : String) (l : List (String × V)) → All P l → All P (delete str_dec k l)
    unfolding delete
    All-delete k [] h = tt
    All-delete k (e ∷ l) h =
        ite_cases (All P) (str_dec k e.0) (delete str_dec k l) (e ∷ delete str_dec k l)
          (λ q. All-delete k l h.1) (λ n. (h.0, All-delete k l h.1))
