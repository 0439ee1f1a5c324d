-- ===== src/PrintfToStream/Float/Fraction.antt =====
-- The digits that `dbl2stri` puts behind the point.
use slirp4tinc.Prelude.{
  ℕ, zero, suc, ◌+◌, ◌-◌, ◌/◌, ◌%◌, ◌^◌, ◌≤◌, ◌<◌, ◌≡◌, refl, ap, sym, ◌∙◌, false, List, [], ◌∷◌,
  ◌++◌, arith, ◌==◌, Bool-cases, inl, inr, ==→eq, eq→==, length, replicate, length-append,
  length-replicate,
}
use slirp4tinc.Prelude.Run.{ok}
use slirp4tinc.PrintfToStream.{
  pad_zero, printi, prints, digits, digit_char, magnitude, buffer_space,
}
use slirp4tinc.PrintfToStream.Padding.{prints_lem, printed-eq}
use slirp4tinc.PrintfToStream.Digits.{
  read_digits, IsDigits, finish_positive, shorter, power, read-zeros,
}
use slirp4tinc.PrintfToStream.Decimal.{IsDecimal, IsDecimal-digits, printi-finish}

-- A number less than 10 ^ k has at most k digits.
digits_few :
    (space u k : ℕ) (s : List ℕ) (left : ℕ) (out : List ℕ)
    → u < 10 ^ k
    → digits 10 97 space u s ≡ ok (left, out)
    → length out ≤ k + length s
unfolding digits
digits_few zero u k s left out less e = ground (arith, e)
digits_few (suc space) u zero s left out less e = ground (arith, e, less)
digits_few (suc space) u (suc k) s left out less e =
    let few =
      digits_few space (u / 10) k (digit_char 97 (u % 10) ∷ s) left out
        (shorter 10 97 (inl refl) (omega arith) u (10 ^ k) (omega (arith, less, power k))) in
    ground (arith, e, few)

-- Zeros in front of digits change nothing.
zeros-IsDigits : (n : ℕ) (s : List ℕ) → IsDigits s → IsDigits (replicate n 48 ++ s)
zeros-IsDigits zero s h = h
zeros-IsDigits (suc n) s h = (omega arith, omega arith, zeros-IsDigits n s h)

-- The fraction's number in exactly `k` digits.
abbrev pub IsFraction : ℕ → ℕ → List ℕ → Type 0
IsFraction k u t = IsDigits t × (read_digits 10 97 0 t ≡ u) × (length t ≡ k)

filled :
    (k u : ℕ) (s : List ℕ)
    → 0 < k
    → k < 2 ^ 31
    → IsDecimal u s
    → length s ≤ k
    → (t : List ℕ) × IsFraction k u t × (prints s k 2 ≡ (k, t))
filled k u s more less decimal short = (
  replicate (k - length s) 48 ++ s,
  (
    zeros-IsDigits (k - length s) s decimal.0,
    read-zeros 10 (k - length s) s ∙ decimal.1,
    omega (
      arith,
      length-append (replicate (k - length s) 48) s,
      length-replicate {A = ℕ} (k - length s) 48,
      short,
    ),
  ),
  prints_lem s k 2 (omega (arith, less, short)) ∙ printed-eq (ground (arith, short)) refl,
)

magnitude_unsigned : (u : ℕ) → u < 2 ^ 32 → magnitude u false pad_zero ≡ ok (false, u)
unfolding magnitude
magnitude_unsigned u small = ap (λ (k : ℕ). ok (false, k)) (omega (arith, small))

printi_zero : (k : ℕ) → printi 0 10 false k pad_zero 97 ≡ ok (prints (48 ∷ []) k pad_zero)
unfolding printi
printi_zero k = refl

pub printi-IsFraction :
    (k u : ℕ)
    → 0 < k
    → k < 2 ^ 31
    → u < 2 ^ 32
    → u < 10 ^ k
    → (t : List ℕ) × IsFraction k u t × (printi u 10 false k pad_zero 97 ≡ ok (k, t))
printi-IsFraction k u more less small few = elim (Bool-cases (u == 0)) [
  | inl e ↦
      let none : u ≡ 0 = ==→eq u 0 e in
      let (t, fraction, same) =
        filled k u (48 ∷ []) more less ((omega arith, omega arith, tt), sym none, omega arith)
          (omega (arith, more)) in
      (
        t,
        fraction,
        ap (λ (v : ℕ). printi v 10 false k pad_zero 97) none ∙ printi_zero k ∙ ap ok same,
      )
  | inr e ↦
      let (left, s, same, decimal) = IsDecimal-digits u (omega (arith, small)) in
      let (t, fraction, shown) =
        filled k u s more less decimal
          (omega (arith, digits_few buffer_space u k [] (suc left) s few same)) in
      (
        t,
        fraction,
        printi-finish 10 u u k pad_zero (suc left) false false s (λ h. absurd (cc (eq→== u 0 h)))
              (magnitude_unsigned u small) same
            ∙ finish_positive k pad_zero (suc left) s refl
            ∙ ap ok shown,
      )
]
