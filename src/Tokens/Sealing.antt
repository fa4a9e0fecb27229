-- ===== src/Tokens/Sealing.antt =====
-- internal/auth/cache.go: `encryptRefreshToken` and `decryptRefreshToken`. The cipher is an argument:
-- `seal` is AES-GCM with a nonce and then base64, `unseal` goes back and may fail.
use Prim.Native.Char.{code}
use Prim.Native.String.{◌++◌ as join}
use m365_copilot2api_dsm.Prelude.{
  Bool, Option, none, some, String, ◌==◌, str_eq, if◌then◌else◌, is_some,
}

pub record Cipher : Type 0 where
  pub seal : String → String → String
  pub unseal : String → Option String

-- A text without a prefix, where it has it.
unfoldable pub strip : String → String → Option String
strip String.[] s = some s
strip (String.◌∷◌ p ps) String.[] = none
strip (String.◌∷◌ p ps) (String.◌∷◌ c s) = if code p == code c then strip ps s else none

abbrev pub enc_prefix : String
enc_prefix = "enc:v1:"

unfoldable pub is_encrypted : String → Bool
is_encrypted s = is_some (strip enc_prefix s)

abbrev pub sealed : Cipher → String → Option String → Option String
sealed c plain none = none
sealed c plain (some nonce) = some (join enc_prefix (c.seal nonce plain))

unfoldable pub encrypt_refresh_token : Cipher → Option String → String → Option String
encrypt_refresh_token c nonce plain =
    if str_eq plain ""
    then some ""
    else if is_encrypted plain
    then some plain
    else sealed c plain nonce

abbrev pub unsealed : Cipher → String → Option String → Option String
unsealed c enc none = some enc
unsealed c enc (some raw) = c.unseal raw

unfoldable pub decrypt_refresh_token : Cipher → String → Option String
decrypt_refresh_token c enc =
    if str_eq enc "" then some "" else unsealed c enc (strip enc_prefix enc)
