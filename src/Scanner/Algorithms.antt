-- ===== src/Scanner/Algorithms.antt =====
-- crates/qw-scanner/src/algorithms.rs: names for the object identifiers of algorithms.
pub mod Names
use quanta_watch.Prelude.{
  ℕ, Text, codes, text_eq, trim, split_on, Bool, true, false, not, ◌&&◌, Option, none, some, List,
  [], ◌∷◌, ◌++◌, length, all, leb, if◌then◌else◌,
}

abbrev pub oids : List (Text × Text)
oids =
    (codes "1.2.840.113549.1.1.1", codes "RSA")
    ∷ (codes "1.2.840.113549.1.1.4", codes "RSA-MD5")
    ∷ (codes "1.2.840.113549.1.1.5", codes "RSA-SHA1")
    ∷ (codes "1.2.840.113549.1.1.10", codes "RSASSA-PSS")
    ∷ (codes "1.2.840.113549.1.1.11", codes "RSA-SHA256")
    ∷ (codes "1.2.840.113549.1.1.12", codes "RSA-SHA384")
    ∷ (codes "1.2.840.113549.1.1.13", codes "RSA-SHA512")
    ∷ (codes "1.2.840.113549.1.1.14", codes "RSA-SHA224")
    ∷ (codes "1.2.840.10045.2.1", codes "ECDSA")
    ∷ (codes "1.2.840.10045.4.1", codes "ECDSA-SHA1")
    ∷ (codes "1.2.840.10045.4.3.1", codes "ECDSA-SHA224")
    ∷ (codes "1.2.840.10045.4.3.2", codes "ECDSA-SHA256")
    ∷ (codes "1.2.840.10045.4.3.3", codes "ECDSA-SHA384")
    ∷ (codes "1.2.840.10045.4.3.4", codes "ECDSA-SHA512")
    ∷ (codes "1.2.840.10045.3.1.7", codes "ECDSA P-256")
    ∷ (codes "1.3.132.0.34", codes "ECDSA P-384")
    ∷ (codes "1.3.132.0.35", codes "ECDSA P-521")
    ∷ (codes "1.3.132.0.10", codes "ECDSA secp256k1")
    ∷ (codes "1.3.101.110", codes "X25519")
    ∷ (codes "1.3.101.111", codes "X448")
    ∷ (codes "1.3.101.112", codes "Ed25519")
    ∷ (codes "1.3.101.113", codes "Ed448")
    ∷ (codes "1.2.840.10040.4.1", codes "DSA")
    ∷ (codes "1.2.840.10040.4.3", codes "DSA-SHA1")
    ∷ (codes "2.16.840.1.101.3.4.3.17", codes "ML-DSA-44")
    ∷ (codes "2.16.840.1.101.3.4.3.18", codes "ML-DSA-65")
    ∷ (codes "2.16.840.1.101.3.4.3.19", codes "ML-DSA-87")
    ∷ (codes "2.16.840.1.101.3.4.4.1", codes "ML-KEM-512")
    ∷ (codes "2.16.840.1.101.3.4.4.2", codes "ML-KEM-768")
    ∷ (codes "2.16.840.1.101.3.4.4.3", codes "ML-KEM-1024")
    ∷ (codes "1.3.14.3.2.26", codes "SHA-1")
    ∷ (codes "1.2.840.113549.2.5", codes "MD5")
    ∷ (codes "2.16.840.1.101.3.4.2.1", codes "SHA-256")
    ∷ (codes "2.16.840.1.101.3.4.2.2", codes "SHA-384")
    ∷ (codes "2.16.840.1.101.3.4.2.3", codes "SHA-512")
    ∷ (codes "2.16.840.1.101.3.4.2.4", codes "SHA-224")
    ∷ (codes "2.16.840.1.101.3.4.2.8", codes "SHA3-256")
    ∷ (codes "2.16.840.1.101.3.4.2.9", codes "SHA3-384")
    ∷ (codes "2.16.840.1.101.3.4.2.10", codes "SHA3-512")
    ∷ []

unfoldable pub name_of : Text → List (Text × Text) → Option Text
unfolding text_eq
name_of t [] = none
name_of t ((oid, name) ∷ rest) =
    let later = name_of t rest in if text_eq oid t then some name else later

abbrev pub is_ascii_digit : ℕ → Bool
is_ascii_digit c = leb b'0' c && leb c b'9'

abbrev pub is_arc : Text → Bool
is_arc [] = false
is_arc (c ∷ s) = is_ascii_digit c && all is_ascii_digit s

-- Four or more arcs of digits.
unfoldable pub is_oid : Text → Bool
unfolding split_on
is_oid s =
    let (first, others) = split_on b'.' s in
    leb 4 (length (first ∷ others)) && all is_arc (first ∷ others)

unfoldable pub resolve : Text → Text
unfolding trim name_of is_oid
resolve raw =
    let t = trim raw in
    elim (name_of t oids) [
      | some name ↦ name
      | none ↦ if is_oid t then codes "unknown (" ++ (t ++ codes ")") else t
    ]
