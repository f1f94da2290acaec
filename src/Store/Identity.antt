-- ===== src/Store/Identity.antt =====
-- internal/store/identity.go: personal access tokens and OIDC clients.
--
-- Parameters: the hash of a secret (hex of SHA-256), hex.EncodeToString, and the random bytes,
-- which the operation takes as its input. `id.persist` is left out: its error is handed on and
-- changes nothing in memory.
pub mod Tokens
use databricks_emulator.Base.{
  ℕ, zero, suc, Bool, true, false, ◌&&◌, Option, none, some, List, [], ◌∷◌, ◌++◌, map, String, ◌<>◌,
  if◌then◌else◌, take,
}
use databricks_emulator.Base.Eq.{◌==◌, string_comparable}
use databricks_emulator.Base.Int64.{ℤ}

abbrev pub seeded_client_id : String
seeded_client_id = "databricks-emulator-client"

abbrev pub pat_prefix : String
pat_prefix = "dapi"

pub record Token : Type 0 where
  pub id : String
  pub comment : String
  pub user_name : String
  pub created_at : ℤ
  pub hash : String

pub record OidcClient : Type 0 where
  pub id : String
  pub secret_hash : String
  pub user_name : String

pub record Identity : Type 0 where
  pub tokens : List Token
  pub clients : List OidcClient

-- The last row that passes, or `found`: the loops look at every row.
last_match : {A : Type 0} → (A → Bool) → Option A → List A → Option A
last_match passes found [] = found
last_match passes found (x ∷ xs) = last_match passes (if passes x then some x else found) xs

in_front : Token → Option (List Token) → Option (List Token)
in_front tok none = none
in_front tok (some rest) = some (tok ∷ rest)

-- The rows without the first that has the id, if one has it.
without_first : String → List Token → Option (List Token)
unfolding in_front
without_first token_id [] = none
without_first token_id (tok ∷ rest) =
    let later = in_front tok (without_first token_id rest) in
    if tok.id == token_id then some rest else later

pat_deleted : Identity → Option (List Token) → Identity × Bool
pat_deleted i none = (i, false)
pat_deleted i (some rest) = (record i { tokens = rest }, true)

unfoldable pub delete_pat : Identity → String → Identity × Bool
unfolding pat_deleted without_first
delete_pat i token_id = pat_deleted i (without_first token_id i.tokens)

abbrev pub hidden : Token → Token
hidden tok = record tok { hash = "" }

unfoldable pub list_pats : Identity → List Token
list_pats i = map hidden i.tokens

unfoldable pub add_client : Identity → OidcClient → Identity
add_client i c = record i { clients = i.clients ++ c ∷ [] }

module _ (hash_secret : String → String) where
  abbrev pub has_hash : String → Token → Bool
  has_hash want tok = tok.hash == want

  abbrev pub is_client : String → String → OidcClient → Bool
  is_client client_id want c = c.id == client_id && c.secret_hash == want

  unfoldable pub lookup_pat : Identity → String → Option Token
  unfolding last_match
  lookup_pat i value = last_match (has_hash (hash_secret value)) none i.tokens

  unfoldable pub lookup_client : Identity → String → String → Option OidcClient
  unfolding last_match
  lookup_client i client_id secret =
      last_match (is_client client_id (hash_secret secret)) none i.clients

  module _ (hex : List ℕ → String) where
    abbrev pub pat_value : List ℕ → String
    pat_value raw = pat_prefix <> hex raw

    abbrev pub pat_info : List ℕ → String → String → ℤ → Token
    pat_info raw user comment now = record {
      id = hex (take 8 raw);
      comment = comment;
      user_name = user;
      created_at = now;
      hash = hash_secret (pat_value raw);
    }

    -- The 24 random bytes are `raw`.
    unfoldable pub create_pat : Identity → List ℕ → String → String → ℤ → Identity × String × Token
    create_pat i raw user comment now =
        let info = pat_info raw user comment now in
        (record i { tokens = i.tokens ++ info ∷ [] }, pat_value raw, info)
