-- ===== src/Transport/Codec/Search.antt =====
-- Laws of the byte searches of src/transport/codec.rs: more input behind, and a resumed search.
use microtak_server.Prelude.{
  ℕ, zero, suc, ◌+◌, ◌-◌, ◌≤◌, ◌<◌, ◌⊎◌, ◌≡◌, refl, ap, sym, ◌∙◌, true, false, Option, none, [],
  ◌∷◌, ◌++◌, some, arith, length, take, drop, take-append, length-append,
}
use microtak_server.Prelude.Bytes.{Bytes}
use microtak_server.Transport.Codec.{starts_with, find}

-- A window that lies within the front does not see what is behind.
pub starts_with-append :
    (xs ys needle : Bytes)
    → length needle ≤ length xs
    → starts_with (xs ++ ys) needle ≡ starts_with xs needle
unfolding starts_with
starts_with-append xs ys needle h =
    ground (arith, take-append (length needle) xs ys h, length-append xs ys)

pub starts_with-length :
    (xs needle : Bytes) → starts_with xs needle ≡ true → length needle ≤ length xs
unfolding starts_with
starts_with-length xs needle h = ground arith

length-take_le : (n : ℕ) (xs : Bytes) → n ≤ length xs → length (take n xs) ≡ n
length-take_le zero xs h = refl
length-take_le (suc n) [] h = absurd (omega arith)
length-take_le (suc n) (x ∷ xs) h = ap suc (length-take_le n xs (omega arith))

take-append-drop : (n : ℕ) (xs : Bytes) → take n xs ++ drop n xs ≡ xs
take-append-drop zero xs = refl
take-append-drop (suc n) [] = refl
take-append-drop (suc n) (x ∷ xs) = ap (λ (l : Bytes). x ∷ l) (take-append-drop n xs)

starts_with-take :
    (n : ℕ) (xs needle : Bytes)
    → length needle ≤ n
    → n ≤ length xs
    → starts_with (take n xs) needle ≡ starts_with xs needle
starts_with-take n xs needle h k = sym (
    ap (λ (l : Bytes). starts_with l needle) (sym (take-append-drop n xs))
    ∙ starts_with-append (take n xs) (drop n xs) needle (omega (arith, length-take_le n xs k)))

-- A match ends within the haystack.
pub find-bound :
    (xs needle : Bytes) (i : ℕ) → find xs needle ≡ some i → i + length needle ≤ length xs
unfolding find
find-bound [] needle i h = cc
find-bound (x ∷ xs) needle i h =
    ground (arith, starts_with-length (x ∷ xs) needle, find-bound xs needle (i - 1))

-- The first match stays the first when more input arrives.
pub find-append :
    (xs ys needle : Bytes) (i : ℕ) → find xs needle ≡ some i → find (xs ++ ys) needle ≡ some i
unfolding find
find-append [] ys needle i h = cc
find-append (x ∷ xs) ys needle i h = ground (
  arith,
  starts_with-append (x ∷ xs) ys needle,
  starts_with-length (x ∷ xs) needle,
  find-bound (x ∷ xs) needle i h,
  find-bound xs needle (i - 1),
  find-append xs ys needle (i - 1),
)

-- A position counted from an earlier start.
abbrev pub shift : ℕ → Option ℕ → Option ℕ
shift n none = none
shift n (some i) = some (n + i)

shift-suc : (n : ℕ) (o : Option ℕ) → shift (suc n) o ≡ shift 1 (shift n o)
shift-suc n none = refl
shift-suc n (some i) = ap some (omega arith)

shift_zero : (o : Option ℕ) → shift 0 o ≡ o
shift_zero none = refl
shift_zero (some i) = ap some (omega arith)

find_step :
    (x : ℕ) (xs needle : Bytes)
    → starts_with (x ∷ xs) needle ≡ false
    → find (x ∷ xs) needle ≡ shift 1 (find xs needle)
unfolding find
find_step x xs needle h = ground arith

find-none :
    (x : ℕ) (xs needle : Bytes)
    → find (x ∷ xs) needle ≡ none
    → (starts_with (x ∷ xs) needle ≡ false) × (find xs needle ≡ none)
unfolding find
find-none x xs needle h = ground arith

-- Where no match ends within the first `s` bytes, a search that starts `length needle - 1` bytes
-- earlier finds what a search from the front finds.
pub find-resume :
    (start s : ℕ) (xs needle : Bytes)
    → 0 < length needle
    → s ≤ length xs
    → (start ≡ 0) ⊎ (start + (length needle - 1) ≤ s)
    → find (take s xs) needle ≡ none
    → find xs needle ≡ shift start (find (drop start xs) needle)
find-resume zero s xs needle pos hs h e = sym (shift_zero (find xs needle))
find-resume (suc start) zero xs needle pos hs h e = absurd (omega arith)
find-resume (suc start) (suc s) [] needle pos hs h e = absurd (omega arith)
find-resume (suc start) (suc s) (x ∷ xs) needle pos hs h e =
    let (here, rest) = find-none x (take s xs) needle e in
    find_step x xs needle
      (sym (starts_with-take (suc s) (x ∷ xs) needle (omega arith) (omega arith)) ∙ here)
    ∙ ap (shift 1) (find-resume start s xs needle pos (omega arith) (omega arith) rest)
    ∙ sym (shift-suc start (find (drop start xs) needle))
