-- ===== src/PrintfToStream/Float/Text.antt =====
-- The text that `dbl2stri` makes of the whole part and the decimals.
use mathlib.Core.List.{append_assoc}
use slirp4tinc.Prelude.{
  ℕ, zero, suc, ◌+◌, ◌-◌, ◌*◌, ◌%◌, ◌^◌, ◌≤◌, ◌<◌, ◌≡◌, ◌≢◌, refl, ap, sym, ◌∙◌, Bool, true, false,
  List, [], ◌∷◌, ◌++◌, arith, if◌then◌else◌, leb, Bool-cases, inl, inr, length, length-append,
  length-replicate,
}
use slirp4tinc.Prelude.Run.{ok}
use slirp4tinc.PrintfToStream.{Printed, printi, prints, magnitude}
use slirp4tinc.PrintfToStream.Padding.{prints_lem, printed-eq, padded, fill}
use slirp4tinc.PrintfToStream.Digits.{power}
use slirp4tinc.PrintfToStream.Decimal.{IsDecimal, signed_text, signed_text_short, printi_digits}
use slirp4tinc.PrintfToStream.Float.{
  Doubles, dbl2stri, int_width, print_fraction, print_parts, multiplier, carry,
}
use slirp4tinc.PrintfToStream.Float.Fraction.{IsFraction, printi-IsFraction}

power_more : (k : ℕ) → 10 * k ≤ 10 ^ k
power_more zero = omega arith
power_more (suc zero) = omega arith
power_more (suc (suc k)) = omega (arith, power_more (suc k), power (suc k))

-- `mult` is the power of ten, if that fits.
multiplier_lem : (k : ℕ) → 10 ^ k < 2 ^ 32 → multiplier k ≡ 10 ^ k
unfolding multiplier
multiplier_lem zero less = omega arith
multiplier_lem (suc k) less =
    let before = multiplier_lem k (omega (arith, less, power k)) in
    omega (arith, less, power k, before)

negative_whole :
    (n : ℕ) → n ≢ 0 → n < 2 ^ 31 → magnitude ((2 ^ 32 - n) % 2 ^ 32) true 0 ≡ ok (true, n)
unfolding magnitude
negative_whole n other less = ground (arith, other, less)

positive_whole : (n : ℕ) → n < 2 ^ 31 → magnitude n true 0 ≡ ok (false, n)
unfolding magnitude
positive_whole n less = ground (arith, less)

-- The product `wholeNum * sign`.
abbrev signed_whole : Bool → ℕ → ℕ
signed_whole negative whole = if negative then (2 ^ 32 - whole) % 2 ^ 32 else whole

-- The sign of a negative number is lost if its whole part is zero.
abbrev pub shows_sign : Bool → ℕ → Bool
shows_sign negative zero = false
shows_sign negative (suc n) = negative

whole_digits :
    (negative : Bool) (whole width : ℕ)
    → whole < 2 ^ 31
    → (s : List ℕ) × IsDecimal whole s
      × (printi (signed_whole negative whole) 10 true width 0 97
          ≡ ok (prints (signed_text (shows_sign negative whole) s) width 0))
unfolding printi
whole_digits true zero width less =
    (48 ∷ [], ((omega arith, omega arith, tt), refl, omega arith), refl)
whole_digits false zero width less =
    (48 ∷ [], ((omega arith, omega arith, tt), refl, omega arith), refl)
whole_digits true (suc n) width less =
    let (s, decimal, same) =
      printi_digits ((2 ^ 32 - suc n) % 2 ^ 32) (suc n) width true true
        (λ e. omega (arith, e, less)) (omega (arith, less))
        (negative_whole (suc n) (λ e. omega (arith, e)) less) in
    (s, decimal, same)
whole_digits false (suc n) width less =
    let (s, decimal, same) =
      printi_digits (suc n) (suc n) width true false (λ e. omega (arith, e)) (omega (arith, less))
        (positive_whole (suc n) less) in
    (s, decimal, same)

int_width_lem :
    (width k : ℕ) → 0 < k → width < 2 ^ 31 → k < 2 ^ 31 → int_width width k 0 ≡ ok (width - suc k)
unfolding int_width
int_width_lem width zero more less small = absurd (omega (arith, more))
int_width_lem width (suc k) more less small = ground (arith, less, small)

length-padded :
    (s : List ℕ) (width : ℕ)
    → length (padded s width 0) ≡ (if leb width (length s) then length s else width)
length-padded s width = ground (
  arith,
  length-append (fill (width - length s) 0) s,
  length-replicate {A = ℕ} (width - length s) 32,
)

print_fraction_lem :
    (decimal width k n : ℕ) (t x : List ℕ)
    → 0 < k
    → n + 1 + k < 2 ^ 32
    → printi decimal 10 false k 2 97 ≡ ok (k, t)
    → print_fraction decimal width k 0 (n, x) ≡ ok (n + 1 + k, x ++ 46 ∷ t)
unfolding print_fraction
print_fraction_lem decimal width zero n t x more less e = absurd (omega (arith, more))
print_fraction_lem decimal width (suc k) n t x more less e =
    rw e (ap ok (printed-eq (omega (arith, less)) (append_assoc x (46 ∷ []) t)))

-- The text of a number: the whole part, padded with blanks on the left, a point, and the fraction.
abbrev pub IsFloat : Bool → ℕ → ℕ → ℕ → ℕ → List ℕ → Type 0
IsFloat negative whole decimal width k text =
    (s : List ℕ) × (t : List ℕ) × IsDecimal whole s
    × IsFraction k decimal t
    × (text ≡ padded (signed_text (shows_sign negative whole) s) (width - suc k) 0 ++ 46 ∷ t)

print_parts_lem :
    (negative : Bool) (whole decimal width k : ℕ)
    → whole < 2 ^ 31
    → width < 2 ^ 31
    → 0 < k
    → 10 ^ k < 2 ^ 32
    → decimal < 10 ^ k
    → (text : List ℕ) × IsFloat negative whole decimal width k text
      × (print_parts negative (whole, decimal) width k 0 ≡ ok (length text, text))
unfolding print_parts
print_parts_lem negative whole decimal width k small fits more power_fits few =
    let low : k < 2 ^ 30 = omega (arith, power_more k, power_fits) in
    let less : k < 2 ^ 31 = omega (arith, low) in
    let (s, whole_shown, e) = whole_digits negative whole (width - suc k) small in
    let (t, fraction, f) =
      printi-IsFraction k decimal more less (omega (arith, few, power_fits)) few in
    let x = padded (signed_text (shows_sign negative whole) s) (width - suc k) 0 in
    let x_short : length x ≤ width + 21 = ground (
      arith,
      length-padded (signed_text (shows_sign negative whole) s) (width - suc k),
      whole_shown.2,
      signed_text_short (shows_sign negative whole) s,
    ) in
    (
      x ++ 46 ∷ t,
      (s, t, whole_shown, fraction, refl),
      rw (int_width_lem width k more fits less, e)
          (ap (λ (o : Printed). print_fraction decimal width k 0 o)
              (prints_lem (signed_text (shows_sign negative whole) s) (width - suc k) 0 (
                  omega
                    (arith, fits, whole_shown.2, signed_text_short (shows_sign negative whole) s))
                ∙ printed-eq
                    (sym
                      (length-padded (signed_text (shows_sign negative whole) s) (width - suc k)))
                    refl)
            ∙ print_fraction_lem decimal width k (length x) t x more
                (omega (arith, x_short, low, fits)) f
            ∙ ap ok (printed-eq (omega (arith, length-append x (46 ∷ t), fraction.2)) refl)),
    )

-- The carry keeps the value, counted in units of the last decimal.
carry_lem :
    (whole decimal mult : ℕ)
    → whole < 2 ^ 31 - 1
    → decimal ≤ mult
    → 0 < mult
    → (w : ℕ) × (d : ℕ) × (carry whole decimal mult ≡ (w, d))
      × (w < 2 ^ 31)
      × (d < mult)
      × (w * mult + d ≡ whole * mult + decimal)
unfolding carry
carry_lem whole decimal mult small most more = elim (Bool-cases (leb mult decimal)) [
  | inl e ↦
      let exact : decimal ≡ mult = ground (arith, e, most) in
      (
        whole + 1,
        0,
        rw e (
            ap (λ (k : ℕ). (k, decimal - mult)) (omega (arith, small))
            ∙ ap (λ (k : ℕ). (whole + 1, k)) (omega (arith, exact))),
        omega (arith, small),
        more,
        grind (arith, exact),
      )
  | inr e ↦ (whole, decimal, rw e refl, omega (arith, small), ground (arith, e), refl)
]

-- `dbl2stri` without flags, for 1 to 9 decimals, returns, if the whole part and the rounded decimals
-- that the operations on `double` give are in range, with the number of characters put. They are
-- the digits of a whole number, padded with blanks on the left, a point, and exactly as many decimals
-- as were asked for, with the value of the whole part and the decimals together, so that the carry
-- of the rounding is kept. A minus sign stands in front of a negative number only if the whole
-- number is not zero.
pub dbl2stri_lem :
    {D : Type 0} (doubles : Doubles D) (dbl : D) (whole decimal width k : ℕ)
    → (let magnitude_of = if doubles.is_negative dbl then doubles.negated dbl else dbl in
        (doubles.to_uint magnitude_of ≡ ok whole)
        × (doubles.to_uint (
              doubles.plus_half (
                doubles.times
                  (doubles.minus magnitude_of (doubles.of_uint whole))
                  (doubles.of_uint (10 ^ k))))
            ≡ ok decimal))
    → whole < 2 ^ 31 - 1
    → width < 2 ^ 31
    → 0 < k
    → 10 ^ k < 2 ^ 32
    → decimal ≤ 10 ^ k
    → (w : ℕ) × (d : ℕ) × (text : List ℕ) × (w * 10 ^ k + d ≡ whole * 10 ^ k + decimal)
      × (d < 10 ^ k)
      × IsFloat (doubles.is_negative dbl) w d width k text
      × (dbl2stri doubles dbl width k 0 ≡ ok (length text, text))
unfolding dbl2stri
dbl2stri_lem doubles dbl whole decimal width k (e, f) small fits more power_fits most =
    let (w, d, same, w_small, few, value) =
      carry_lem whole decimal (10 ^ k) small most (omega (arith, power_more k, more)) in
    let (text, shown, returned) =
      print_parts_lem (doubles.is_negative dbl) w d width k w_small fits more power_fits few in
    (w, d, text, value, few, shown, rw (multiplier_lem k power_fits, e, f, same) returned)
