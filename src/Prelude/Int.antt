-- ===== src/Prelude/Int.antt =====
-- Signed integers (`i64` instants and durations) over the native numbers. Sums and orders go
-- through the two parts of an integer, which are numbers that `omega` reads.
use microtak_server.Prelude.{
  ℕ, suc, ◌+◌, ◌-◌, ◌^◌, ◌≤◌, ◌<◌, ◌≡◌, ◌↔◌, Bool, false, arith, ltb, leb, Eq, nat_eqb,
  if◌then◌else◌,
}

-- `negsuc n` is -(n + 1).
pub data ℤ : Type 0 where
  pos : ℕ → ℤ
  negsuc : ℕ → ℤ

abbrev pub pos_part : ℤ → ℕ
pos_part (pos n) = n
pos_part (negsuc n) = 0

abbrev pub neg_part : ℤ → ℕ
neg_part (pos n) = 0
neg_part (negsuc n) = suc n

abbrev pub sub_ℕ : ℕ → ℕ → ℤ
sub_ℕ a b = if leb b a then pos (a - b) else negsuc (b - a - 1)

infixl 65 ◌+ℤ◌
infix 50 ◌≤ℤ◌ ◌<ℤ◌
unfoldable pub ◌+ℤ◌ : ℤ → ℤ → ℤ
a +ℤ b = sub_ℕ (pos_part a + pos_part b) (neg_part a + neg_part b)

abbrev pub ◌≤ℤ◌ : ℤ → ℤ → Type 0
a ≤ℤ b = pos_part a + neg_part b ≤ pos_part b + neg_part a

abbrev pub ◌<ℤ◌ : ℤ → ℤ → Type 0
a <ℤ b = pos_part a + neg_part b < pos_part b + neg_part a

abbrev pub ltb_ℤ : ℤ → ℤ → Bool
ltb_ℤ a b = ltb (pos_part a + neg_part b) (pos_part b + neg_part a)

abbrev pub leb_ℤ : ℤ → ℤ → Bool
leb_ℤ a b = leb (pos_part a + neg_part b) (pos_part b + neg_part a)

abbrev pub int_eqb : ℤ → ℤ → Bool
int_eqb (pos a) (pos b) = nat_eqb a b
int_eqb (negsuc a) (negsuc b) = nat_eqb a b
int_eqb _ _ = false

pub int_eqb_iff : (a b : ℤ) → (int_eqb a b ≡ Bool.true) ↔ (a ≡ b)
int_eqb_iff (pos a) (pos b) = ground arith
int_eqb_iff (negsuc a) (negsuc b) = ground arith
int_eqb_iff (pos a) (negsuc b) = ground arith
int_eqb_iff (negsuc a) (pos b) = ground arith

instance abbrev pub int_eq : Eq ℤ
int_eq = record { beq = int_eqb; beq_iff = int_eqb_iff }

pub +ℤ_parts :
    (a b : ℤ)
    → pos_part (a +ℤ b) + neg_part a + neg_part b ≡ neg_part (a +ℤ b) + pos_part a + pos_part b
unfolding ◌+ℤ◌
+ℤ_parts a b = ground arith

-- The 64-bit two's complement value of an integer that is less than 2^64 out of range.
abbrev pub wrap_i64 : ℤ → ℤ
wrap_i64 a =
    if leb_ℤ (pos (2 ^ 63)) a
    then a +ℤ negsuc (2 ^ 64 - 1)
    else if ltb_ℤ a (negsuc (2 ^ 63 - 1))
    then a +ℤ pos (2 ^ 64)
    else a

-- `a + b` of two `i64`.
unfoldable pub add_i64 : ℤ → ℤ → ℤ
add_i64 a b = wrap_i64 (a +ℤ b)
