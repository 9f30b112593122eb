-- ===== src/World/Equipment/Map.antt =====
-- The contract of an equipment: a finite map from slots to stacks.
use mine_and_die.Prelude.{List, [], ◌∷◌, Option, none, some, ite, String, str_dec, if◌then◌else◌}
use mine_and_die.Prelude.Int.{pos, ltb_ℤ}
use mine_and_die.World.Items.{ItemStack}
use mine_and_die.World.Equipment.{EquippedItem, Equipment, get, set, remove, drain_all}

pub data Call : Type 0 where
  gets removes : String → Call
  sets : String → ItemStack → Call
  drains : Call

-- An answer: that of `Get` or `Remove`, or what a drain hands out, slot by slot.
pub data Reply : Type 0 where
  stack : Option ItemStack → Reply
  handed : (String → List ItemStack) → Reply

-- The stacks handed out of a slot.
abbrev pub stacks_of : String → List EquippedItem → List ItemStack
stacks_of t [] = []
stacks_of t (e ∷ slots) =
    let rest = stacks_of t slots in ite (str_dec e.slot t) (e.item ∷ rest) rest

-- What the calls answer, in order.
unfoldable pub replies : Equipment → List Call → List Reply
replies e [] = []
replies e (gets s ∷ calls) = stack (get s e) ∷ replies e calls
replies e (removes s ∷ calls) = let (e', r) = remove s e in stack r ∷ replies e' calls
replies e (sets s item ∷ calls) = replies (set s item e) calls
replies e (drains ∷ calls) =
    let (e', items) = drain_all e in handed (λ t. stacks_of t items) ∷ replies e' calls

-- A map with another answer at `s`.
abbrev pub updated :
    String → Option ItemStack → (String → Option ItemStack) → String → Option ItemStack
updated s v m t = ite (str_dec s t) v (m t)

-- The stack as it is, but as one item where it has no positive quantity.
abbrev pub counted : ItemStack → ItemStack
counted item = record {
  type = item.type;
  fungibility_key = item.fungibility_key;
  quantity = if ltb_ℤ (pos 0) item.quantity then item.quantity else pos 1;
}

-- The stack of a slot, once, if it has one.
abbrev pub once_or_not : Option ItemStack → List ItemStack
once_or_not none = []
once_or_not (some item) = item ∷ []

unfoldable pub map_replies : (String → Option ItemStack) → List Call → List Reply
map_replies m [] = []
map_replies m (gets s ∷ calls) = stack (m s) ∷ map_replies m calls
map_replies m (removes s ∷ calls) = stack (m s) ∷ map_replies (updated s none m) calls
map_replies m (sets s item ∷ calls) = map_replies (updated s (some (counted item)) m) calls
map_replies m (drains ∷ calls) = handed (λ t. once_or_not (m t)) ∷ map_replies (λ t. none) calls
