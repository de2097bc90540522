-- ===== src/Registry/Fingerprints.antt =====
-- SHA-256 fingerprints of certificates, src/pki.rs, as lists of code points.
use microtak_server.Prelude.{
  ℕ, ◌+◌, ◌-◌, ◌/◌, ◌%◌, ◌<◌, String, Bool, not, ◌&&◌, ◌||◌, List, [], ◌∷◌, ◌++◌, Option, none,
  some, ◌≡◌, nat_eqb, ltb, leb, all, filter, length, if◌then◌else◌, All,
}
use microtak_server.Prelude.Bytes.{Bytes}

-- The PEM parser and SHA-256: a digest has 32 bytes.
pub record Pki : Type 0 where
  pub cert_pem_to_der : String → Option Bytes
  pub sha256 : Bytes → Bytes
  pub length-sha256 : (der : Bytes) → length (sha256 der) ≡ 32
  pub sha256_bytes : (der : Bytes) → All (λ b. b < 256) (sha256 der)

-- One digit of `{byte:02X}`.
unfoldable pub hex_digit : ℕ → ℕ
hex_digit n = if ltb n 10 then 0x30 + n else 0x37 + n

-- `{byte:02X}`
unfoldable pub hex_pair : ℕ → Bytes
unfolding hex_digit
hex_pair b = hex_digit (b / 16) ∷ hex_digit (b % 16) ∷ []

-- `join(":")`
unfoldable pub join : List Bytes → Bytes
join [] = []
join (x ∷ []) = x
join (x ∷ y ∷ rest) = x ++ (0x3a ∷ join (y ∷ rest))

unfoldable pub hex_pairs : Bytes → List Bytes
hex_pairs [] = []
hex_pairs (b ∷ rest) = hex_pair b ∷ hex_pairs rest

unfoldable pub fingerprint_sha256_colon_hex_der : Pki → Bytes → Bytes
fingerprint_sha256_colon_hex_der pki der = join (hex_pairs (pki.sha256 der))

unfoldable pub fingerprint_sha256_colon_hex : Pki → String → Option Bytes
fingerprint_sha256_colon_hex pki cert_pem = elim (pki.cert_pem_to_der cert_pem) [
  | none ↦ none
  | some der ↦ some (fingerprint_sha256_colon_hex_der pki der)
]

unfoldable pub is_ascii_hexdigit : ℕ → Bool
is_ascii_hexdigit c =
    leb 0x30 c && leb c 0x39 || leb 0x41 c && leb c 0x46 || leb 0x61 c && leb c 0x66

unfoldable pub to_ascii_uppercase : ℕ → ℕ
to_ascii_uppercase c = if leb 0x61 c && leb c 0x7a then c - 0x20 else c

unfoldable pub upper : Bytes → Bytes
upper [] = []
upper (c ∷ rest) = to_ascii_uppercase c ∷ upper rest

-- `chunks(2)`
unfoldable pub chunks2 : Bytes → List Bytes
chunks2 [] = []
chunks2 (a ∷ []) = (a ∷ []) ∷ []
chunks2 (a ∷ b ∷ rest) = (a ∷ b ∷ []) ∷ chunks2 rest

abbrev pub without_colons : Bytes → Bytes
without_colons hash = filter (λ c. not (nat_eqb c 0x3a)) hash

-- With a code point that is not ASCII, `hex.len()` counts more; the hash is refused either way.
unfoldable pub normalize_fingerprint : Bytes → Option Bytes
normalize_fingerprint hash =
    if not (nat_eqb (length (without_colons hash)) 64)
      || not (all is_ascii_hexdigit (without_colons hash))
    then none
    else some (join (chunks2 (upper (without_colons hash))))
