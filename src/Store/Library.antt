-- ===== src/Store/Library.antt =====
-- What the store uses of Go's standard library: texts, digests and authenticated encryption.
use talkintent.Common.{ℕ, String, Bool, Option, some, ◌≡◌}
use talkintent.Store.Records.{FeishuBinding}

pub record Library : Type 0 where
  -- strings.TrimSpace, strings.ToLower, strings.ToUpper, strings.EqualFold, strings.Contains
  pub trim_space : String → String
  pub to_lower : String → String
  pub to_upper : String → String
  pub equal_fold : String → String → Bool
  pub contains : String → String → Bool
  -- the concatenation of two texts, and the first and the last eight bytes of a text
  pub join : String → String → String
  pub front_eight : String → String
  pub after_eight : String → String
  -- the number of bytes of a text
  pub byte_length : String → ℕ
  -- the hexadecimal digests SHA-256 and HMAC-SHA256 (key, text)
  pub sha256_hex : String → String
  pub hmac_sha256_hex : String → String → String
  -- json.Marshal of a binding, sealed by AES-GCM with a fresh nonce and encoded in base64; the
  -- first argument is the randomness. `unseal` is the way back.
  pub seal : String → FeishuBinding → Option String
  pub unseal : String → Option FeishuBinding

-- Decryption undoes encryption, and a sealed text has a nonce, so it is not empty.
pub record SealsBack (lib : Library) : Type 0 where
  pub unseal-seal :
      (nonce : String) (b : FeishuBinding) (c : String)
      → lib.seal nonce b ≡ some c
      → lib.unseal c ≡ some b
  pub seal_nonempty :
      (nonce : String) (b : FeishuBinding) (c : String) → lib.seal nonce b ≡ some c → ¬ (c ≡ "")
