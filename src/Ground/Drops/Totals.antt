-- ===== src/Ground/Drops/Totals.antt =====
-- server/internal/items/ground_items.go: dropping stacks is upserting them one by one.
use mine_and_die.Prelude.{
  ℕ, false, ◌+◌, ◌<◌, ◌^◌, ◌≡◌, refl, List, [], ◌∷◌, String, str_dec, ite, arith, if◌then◌else◌, ap,
}
use mine_and_die.Prelude.Int.{ℤ, pos, negsuc, pos_part, leb_ℤ, add_int64, add_int64-pos}
use mine_and_die.World.Items.{ItemStack}
use mine_and_die.Ground.Store.{Actor, Ground}
use mine_and_die.Ground.{Setting, upsert_ground_item}
use mine_and_die.Ground.Index.Run.{Call, upserts, run}
use mine_and_die.Ground.Drops.{drop_stacks}

-- The quantity of the stacks that have a type and some quantity.
abbrev pub whole : List ItemStack → ℕ
whole [] = 0
whole (stack ∷ stacks) =
    ite (str_dec stack.type "") (whole stacks) (pos_part stack.quantity + whole stacks)

-- Their upserts.
abbrev pub puts : {F : Type 0} → Actor F → String → List ItemStack → List (Call F)
puts actor reason [] = []
puts actor reason (stack ∷ stacks) = ite (str_dec stack.type "") (puts actor reason stacks) (
    if leb_ℤ stack.quantity (pos 0)
    then puts actor reason stacks
    else upserts actor stack reason ∷ puts actor reason stacks)

add_positive :
    (t : ℕ) (q : ℤ)
    → leb_ℤ q (pos 0) ≡ false
    → t + pos_part q < 2 ^ 63
    → add_int64 (pos t) q ≡ pos (t + pos_part q)
add_positive t (pos n) e h = add_int64-pos t n h
add_positive t (negsuc n) e h = absurd (ground (arith, e))

-- Dropping stacks comes to the upserts of those that have a type and some quantity, in order, and
-- reports their whole quantity, where the total is below 2 ^ 63.
pub drop_stacks_lem :
    {F : Type 0} (w : Setting F) (actor : Actor F) (reason : String) (stacks : List ItemStack)
    (t : ℕ) (g : Ground F)
    → t + whole stacks < 2 ^ 63
    → let r = drop_stacks w actor reason stacks (pos t) g in
      (r.0 ≡ pos (t + whole stacks)) × (r.1 ≡ run w (puts actor reason stacks) g)
unfolding drop_stacks
drop_stacks_lem w actor reason [] t g h = (ap pos (omega arith), refl)
drop_stacks_lem w actor reason (stack ∷ stacks) t g h =
    let r = upsert_ground_item w actor stack reason g in
    let t' = t + pos_part stack.quantity in
    ground (
      arith,
      h,
      drop_stacks_lem w actor reason stacks t g,
      drop_stacks_lem w actor reason stacks t' r.1,
      add_positive t stack.quantity,
    )
