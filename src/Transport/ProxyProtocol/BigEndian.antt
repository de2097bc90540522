-- ===== src/Transport/ProxyProtocol/BigEndian.antt =====
-- Numbers as big-endian bytes, for src/transport/proxy_protocol.rs.
use microtak_server.Prelude.{
  ℕ, zero, suc, ◌+◌, ◌*◌, ◌/◌, ◌%◌, ◌<◌, [], ◌∷◌, ◌++◌, ◌≡◌, refl, ◌∙◌, arith, length,
  length-append,
}
use microtak_server.Prelude.Bytes.{Bytes}

abbrev pub be_bytes : (width : ℕ) → ℕ → Bytes
be_bytes zero n = []
be_bytes (suc width) n = be_bytes width (n / 256) ++ (n % 256) ∷ []

abbrev pub from_be : ℕ → Bytes → ℕ
from_be n [] = n
from_be n (b ∷ bytes) = from_be (n * 256 + b) bytes

from_be-append : (n : ℕ) (xs : Bytes) (b : ℕ) → from_be n (xs ++ b ∷ []) ≡ from_be n xs * 256 + b
from_be-append n [] b = refl
from_be-append n (x ∷ xs) b = from_be-append (n * 256 + x) xs b

pub length-be_bytes : (width n : ℕ) → length (be_bytes width n) ≡ width
length-be_bytes zero n = refl
length-be_bytes (suc width) n = omega (
  arith,
  length-append (be_bytes width (n / 256)) ((n % 256) ∷ []),
  length-be_bytes width (n / 256),
)

-- 256 to a power.
abbrev pub word : ℕ → ℕ
word zero = 1
word (suc width) = 256 * word width

pub from_be-be_bytes : (width n : ℕ) → n < word width → from_be 0 (be_bytes width n) ≡ n
from_be-be_bytes zero n h = omega arith
from_be-be_bytes (suc width) n h =
    from_be-append 0 (be_bytes width (n / 256)) (n % 256)
    ∙ (let ih = from_be-be_bytes width (n / 256) (omega arith) in omega arith)
