-- ===== src/Feed/Numbers.antt =====
-- The numbers that the effect manager gives to the events of an instance, server/internal/world/effects/manager.go.
use mine_and_die.Prelude.{
  ℕ, zero, suc, ◌+◌, ◌^◌, ◌<◌, ◌≡◌, ◌≢◌, refl, sym, ap, ◌∙◌, subst, List, [], ◌∷◌, ◌++◌, arith,
}
use mine_and_die.Prelude.Int.{ℤ, pos, ◌<ℤ◌, add_int64, add_int64-pos}
use mine_and_die.Effects.Manager.Log.{nth_seq, first_seqs}

pub nth_seq-pos : (k : ℕ) → k < 2 ^ 63 → nth_seq k ≡ pos k
unfolding nth_seq
nth_seq-pos zero h = refl
nth_seq-pos (suc k) h =
    ap (λ z. add_int64 z (pos 1)) (nth_seq-pos k (omega arith))
    ∙ add_int64-pos k 1 (omega arith)
    ∙ ap pos (omega arith)

-- The numbers after the first `c`.
pub seqs_from : ℕ → ℕ → List ℤ
seqs_from c zero = []
seqs_from c (suc m) = nth_seq (suc c) ∷ seqs_from (suc c) m

seqs_from-snoc : (c m : ℕ) → seqs_from c m ++ nth_seq (suc (c + m)) ∷ [] ≡ seqs_from c (suc m)
unfolding seqs_from
seqs_from-snoc c zero = ap (λ n. nth_seq (suc n) ∷ []) (omega arith)
seqs_from-snoc c (suc m) =
    ap (λ n. nth_seq (suc c) ∷ (seqs_from (suc c) m ++ nth_seq (suc n) ∷ [])) (omega arith)
    ∙ ap (◌∷◌ (nth_seq (suc c))) (seqs_from-snoc (suc c) m)

pub first_seqs-from : (k : ℕ) → first_seqs k ≡ seqs_from 0 k
unfolding first_seqs seqs_from
first_seqs-from zero = refl
first_seqs-from (suc k) =
    ap (λ l. l ++ nth_seq (suc k) ∷ []) (first_seqs-from k)
    ∙ ap (λ n. seqs_from 0 k ++ nth_seq (suc n) ∷ []) (omega arith)
    ∙ seqs_from-snoc 0 k

pub head_number :
    (c rest : ℕ) (x : ℤ) (xs : List ℤ)
    → x ∷ xs ≡ seqs_from c rest
    → (m : ℕ) × (x ≡ nth_seq (suc c)) × (xs ≡ seqs_from (suc c) m)
unfolding seqs_from
head_number c zero x xs h = absurd (empty h)
  where
    empty : x ∷ xs ≡ [] → ⊥
    empty h = cc
head_number c (suc m) x xs h = (m, cc, cc)

pub positive : (c : ℕ) (z : ℤ) → z ≡ nth_seq (suc c) → suc c < 2 ^ 63 → pos 0 <ℤ z
positive c z e h = subst (λ x. pos 0 <ℤ x) (sym (e ∙ nth_seq-pos (suc c) h)) (omega arith)

pub nonzero : (c : ℕ) → 0 < c → c < 2 ^ 63 → nth_seq c ≢ pos 0
nonzero c p h e = absurd (ground (arith, nth_seq-pos c h))

pub above : (c : ℕ) (z : ℤ) → z ≡ nth_seq (suc c) → suc c < 2 ^ 63 → nth_seq c <ℤ z
above c z e h =
    subst (λ x. x <ℤ z) (sym (nth_seq-pos c (omega arith)))
      (subst (λ x. pos c <ℤ x) (sym (e ∙ nth_seq-pos (suc c) h)) (omega arith))
