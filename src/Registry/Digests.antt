-- ===== src/Registry/Digests.antt =====
-- A fingerprint as src/pki.rs prints it is its own normal form.
use microtak_server.Prelude.{
  ℕ, ◌*◌, ◌/◌, ◌%◌, ◌<◌, true, false, List, [], ◌∷◌, some, ◌≡◌, refl, ap, nat_eqb, all, length, All,
  arith,
}
use microtak_server.Prelude.Bytes.{Bytes}
use microtak_server.Registry.Fingerprints.{
  Pki, hex_digit, hex_pair, join, hex_pairs, fingerprint_sha256_colon_hex_der, is_ascii_hexdigit,
  to_ascii_uppercase, upper, chunks2, without_colons, normalize_fingerprint,
}

-- The digits of a digest with no colons between.
abbrev digits : Bytes → Bytes
digits [] = []
digits (b ∷ rest) = hex_digit (b / 16) ∷ hex_digit (b % 16) ∷ digits rest

hex_digit-is_ascii_hexdigit :
    (n : ℕ)
    → n < 16
    → (is_ascii_hexdigit (hex_digit n) ≡ true)
      × (to_ascii_uppercase (hex_digit n) ≡ hex_digit n)
      × (nat_eqb (hex_digit n) 0x3a ≡ false)
unfolding hex_digit is_ascii_hexdigit to_ascii_uppercase
hex_digit-is_ascii_hexdigit n h = ground arith

without_colons-join :
    (bs : Bytes) → All (λ b. b < 256) bs → without_colons (join (hex_pairs bs)) ≡ digits bs
unfolding join hex_pairs hex_pair
without_colons-join [] h = refl
without_colons-join (b ∷ []) (small, rest) = ground (
  arith,
  hex_digit-is_ascii_hexdigit (b / 16) (omega arith),
  hex_digit-is_ascii_hexdigit (b % 16) (omega arith),
)
without_colons-join (b ∷ c ∷ bs) (small, rest) = ground (
  arith,
  hex_digit-is_ascii_hexdigit (b / 16) (omega arith),
  hex_digit-is_ascii_hexdigit (b % 16) (omega arith),
  without_colons-join (c ∷ bs) rest,
)

length-digits : (bs : Bytes) → length (digits bs) ≡ 2 * length bs
length-digits [] = refl
length-digits (b ∷ bs) = omega (arith, length-digits bs)

digits-hexdigit : (bs : Bytes) → All (λ b. b < 256) bs → all is_ascii_hexdigit (digits bs) ≡ true
digits-hexdigit [] h = refl
digits-hexdigit (b ∷ bs) (small, rest) = ground (
  arith,
  hex_digit-is_ascii_hexdigit (b / 16) (omega arith),
  hex_digit-is_ascii_hexdigit (b % 16) (omega arith),
  digits-hexdigit bs rest,
)

upper-digits : (bs : Bytes) → All (λ b. b < 256) bs → upper (digits bs) ≡ digits bs
unfolding upper
upper-digits [] h = refl
upper-digits (b ∷ bs) (small, rest) = ground (
  arith,
  hex_digit-is_ascii_hexdigit (b / 16) (omega arith),
  hex_digit-is_ascii_hexdigit (b % 16) (omega arith),
  upper-digits bs rest,
)

chunks2-digits : (bs : Bytes) → chunks2 (digits bs) ≡ hex_pairs bs
unfolding chunks2 hex_pairs hex_pair
chunks2-digits [] = refl
chunks2-digits (b ∷ bs) =
    ap (λ (l : List Bytes). (hex_digit (b / 16) ∷ hex_digit (b % 16) ∷ []) ∷ l) (chunks2-digits bs)

-- The fingerprint of any certificate, as it is printed, normalizes to itself: revoking by a printed
-- fingerprint revokes that certificate.
pub normalize-fingerprint :
    (pki : Pki) (der : Bytes)
    → normalize_fingerprint (fingerprint_sha256_colon_hex_der pki der)
      ≡ some (fingerprint_sha256_colon_hex_der pki der)
unfolding normalize_fingerprint fingerprint_sha256_colon_hex_der
normalize-fingerprint pki der =
    let bs = pki.sha256 der in
    let bytes = pki.sha256_bytes der in
    rw
      (
        without_colons-join bs bytes,
        digits-hexdigit bs bytes,
        upper-digits bs bytes,
        chunks2-digits bs,
        length-digits bs,
        pki.length-sha256 der,
      )
      refl
