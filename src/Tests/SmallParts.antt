-- ===== src/Tests/SmallParts.antt =====
-- The clock and the tokens at concrete inputs.
use databricks_emulator.Base.{ℕ, ◌≡◌, false, some, List, [], ◌∷◌, String, arith, if◌then◌else◌}
use databricks_emulator.Base.Eq.{◌==◌, string_comparable}
use databricks_emulator.Base.Int64.{pos}
use databricks_emulator.Clock.{Clock, now, advance, freeze, unfreeze, add64}
use databricks_emulator.Clock.Continuous.{IsWord, now_lem}
use databricks_emulator.Store.Identity.{Identity, Token, lookup_pat, create_pat}
use databricks_emulator.Store.Identity.Tokens.{lookup_pat-create_pat}

abbrev moved : Clock
moved = record { offset = 100; frozen = false; frozen_at = 0 }

moved-IsWord : IsWord moved
moved-IsWord = record { offset_word = omega arith; frozen_at_word = omega arith }

now_lem_example :
    (now (freeze moved 1000) 1000 ≡ now moved 1000)
    × (now (unfreeze moved 1000) 1000 ≡ now moved 1000)
    × (now (advance moved 60) 1000 ≡ add64 (now moved 1000) 60)
    × (now (freeze moved 1000) 5000 ≡ now moved 1000)
now_lem_example = now_lem moved 1000 60 5000 moved-IsWord (omega arith)

-- A hash that keeps the text, and an encoding that tells only empty bytes apart.
abbrev plain_hash : String → String
plain_hash value = value

abbrev some_hex : List ℕ → String
some_hex [] = ""
some_hex (b ∷ bytes) = "ff"

abbrev first_token : Token
first_token = record {
  id = "t1";
  comment = "";
  user_name = "admin";
  created_at = pos 1;
  hash = "dapi00";
}

abbrev one_token : Identity
one_token = record { tokens = first_token ∷ []; clients = [] }

lookup_pat-create_pat_example :
    lookup_pat plain_hash
      (create_pat plain_hash some_hex one_token (7 ∷ []) "me" "" (pos 2)).0
      "dapiff"
    ≡ (if plain_hash (create_pat plain_hash some_hex one_token (7 ∷ []) "me" "" (pos 2)).1
          == "dapiff"
        then some (create_pat plain_hash some_hex one_token (7 ∷ []) "me" "" (pos 2)).2
        else lookup_pat plain_hash one_token "dapiff")
lookup_pat-create_pat_example =
    lookup_pat-create_pat plain_hash some_hex one_token (7 ∷ []) "me" "" (pos 2) "dapiff"
