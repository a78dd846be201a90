-- ===== src/Crypto/Primitives.antt =====
-- The cryptography that the program takes from libraries, as one record: the calls of
-- crates/qw-crypto/src/hashing.rs, signing.rs and identity.rs, and of the crates hex and base64.
use quanta_watch.Prelude.{◌≡◌, Text, Bool, true, Option, some}

pub record Primitives : Type 0 where
  pub sha3_256 : Text → Text
  pub hex_encode : Text → Text
  pub base64_encode : Text → Text
  -- `none` is a decoding error.
  pub base64_decode : Text → Option Text
  -- `identity.sign`, which is deterministic; `none` is an error.
  pub sign : Text → Option Text
  -- `verify` of a public key, a message and a signature; `none` is an error.
  pub verify : Text → Text → Text → Option Bool

-- `sha3_256_hex` of hashing.rs.
abbrev pub sha3_256_hex : Primitives → Text → Text
sha3_256_hex c data' = c.hex_encode (c.sha3_256 data')

-- What base64 and ML-DSA are documented to do: a decoder undoes the encoder, and a signature that
-- was made verifies under the signer's public key.
pub record IsSound (c : Primitives) (public_key : Text) : Type 0 where
  pub decode_encode : (x : Text) → c.base64_decode (c.base64_encode x) ≡ some x
  pub verify_sign : (m s : Text) → c.sign m ≡ some s → c.verify public_key m s ≡ some true
