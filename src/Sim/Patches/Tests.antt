-- ===== src/Sim/Patches/Tests.antt =====
-- The theorems on the replay of patches at concrete inputs, with numbers for floats.
use mine_and_die.Prelude.{
  ℕ, ◌≡◌, refl, [], ◌∷◌, ◌++◌, Bool, String, str_dec, lookup, insert, delete, ne_of_test, ltb, inl,
  inr,
}
use mine_and_die.Sim.Patches.{
  PlayerView, position, other, Patch, unknown_entity, patch_player_pos, patch_player_removed, Views,
  apply_view, with_payload, stored, apply_patch, apply_players,
}
use mine_and_die.Sim.Patches.Replay.{apply_players-frame, apply_players-removed}

abbrev view_of : String → PlayerView ℕ
view_of id = record {
  player = record {
    id = id;
    x = 0;
    y = 0;
    facing = "down";
    health = 9;
    max_health = 10;
    inventory = [];
    equipment = [];
    intent_dx = 0;
    intent_dy = 0;
  };
  intent_dx = 0;
  intent_dy = 0;
}

abbrev positive : ℕ → Bool
positive n = ltb 0 n

abbrev base : Views ℕ
base = ("a", view_of "a") ∷ ("b", view_of "b") ∷ []

abbrev move : String → Patch ℕ
move id = record { kind = patch_player_pos; entity_id = id; payload = position 3 4 }

abbrev removal : String → Patch ℕ
removal id = record { kind = patch_player_removed; entity_id = id; payload = other }

-- The views after "a" is removed and "b" has moved.
abbrev later : Views ℕ
later = ("b", record (view_of "b") { player = record (view_of "b").player { x = 3; y = 4 } }) ∷ []

replayed : apply_players positive base (removal "a" ∷ move "b" ∷ []) ≡ inl later
unfolding apply_players apply_patch stored apply_view with_payload lookup insert delete str_dec
replayed = refl

apply_players-frame_example : lookup str_dec "c" later ≡ lookup str_dec "c" base
apply_players-frame_example =
    apply_players-frame positive "c" (removal "a" ∷ move "b" ∷ []) base later replayed
      (ne_of_test "a" "c" refl, (ne_of_test "b" "c" refl, tt))

apply_players-removed_example :
    apply_players positive base ((removal "a" ∷ move "b" ∷ []) ++ (move "a" ∷ []))
    ≡ inr (unknown_entity "a" patch_player_pos)
apply_players-removed_example =
    apply_players-removed positive "a" (removal "a") (move "a") (move "b" ∷ []) [] base later refl
      refl refl (ne_of_test "player_pos" "player_removed" refl) (ne_of_test "a" "" refl) replayed
      (ne_of_test "b" "a" refl, tt)
