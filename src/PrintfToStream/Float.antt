-- ===== src/PrintfToStream/Float.antt =====
-- `dbl2stri`: floating-point numbers. The type `double` and its operations are parameters.
pub mod Fraction
pub mod Text
use slirp4tinc.Prelude.{
  ℕ, zero, suc, ◌+◌, ◌-◌, ◌*◌, ◌%◌, ◌^◌, Bool, true, false, ◌||◌, List, [], ◌∷◌, ◌++◌, ◌==◌,
  if◌then◌else◌, leb,
}
use slirp4tinc.Prelude.Run.{Run, ok, undefined, ◌>>=◌}
use slirp4tinc.PrintfToStream.{Printed, put_one, has_flag, pad_right, pad_zero, printi}

-- The operations that the code uses: `< 0.0`, `* -1.0`, the conversions from and to `uint`, of which
-- the latter is undefined out of range, `-`, `*`, and `+ 0.5`.
pub record Doubles (D : Type 0) : Type 0 where
  pub is_negative : D → Bool
  pub negated : D → D
  pub of_uint : ℕ → D
  pub to_uint : D → Run ℕ
  pub minus : D → D → D
  pub times : D → D → D
  pub plus_half : D → D

-- The loop that computes `mult`.
pub multiplier : ℕ → ℕ
multiplier zero = 1
multiplier (suc dec_digits) = multiplier dec_digits * 10 % 2 ^ 32

-- `if (decimalNum >= mult)`
pub carry : ℕ → ℕ → ℕ → ℕ × ℕ
carry whole decimal mult =
    if leb mult decimal then ((whole + 1) % 2 ^ 32, decimal - mult) else (whole, decimal)

-- `intWidth`, an `int` that is taken from an unsigned difference.
pub int_width : ℕ → ℕ → ℕ → Run ℕ
int_width width zero pad = ok width
int_width width (suc k) pad =
    let d = (width + 2 ^ 32 - suc k) % 2 ^ 32 in
    if has_flag pad pad_right
    then ok 0
    else if d == 2 ^ 31
    then undefined
    else if leb (2 ^ 31) d || (d == 0)
    then ok 0
    else ok (d - 1)

-- From `if (dec_digits > 0)` behind the integer portion on. The character 46 is '.'.
pub print_fraction : ℕ → ℕ → ℕ → ℕ → Printed → Run Printed
print_fraction decimal width zero pad o = ok o
print_fraction decimal width (suc k) pad o = do
  let o1 = put_one 46 o
  o2 ←
      if has_flag pad pad_right
      then printi decimal 10 false ((width + 2 ^ 32 - o1.0) % 2 ^ 32) pad_right 97
      else printi decimal 10 false (suc k) pad_zero 97
  ok (o1.0 + o2.0, o1.1 ++ o2.1)

-- Both portions, given the digits; `wholeNum * sign` is a product of 32 bits.
pub print_parts : Bool → ℕ × ℕ → ℕ → ℕ → ℕ → Run Printed
unfolding int_width print_fraction
print_parts negative (whole, decimal) width dec_digits pad = do
  w ← int_width width dec_digits pad
  o ← printi (if negative then (2 ^ 32 - whole) % 2 ^ 32 else whole) 10 true w pad 97
  print_fraction decimal width dec_digits pad o

-- `dbl2stri(dbl, width, dec_digits, pad)`
pub dbl2stri : {D : Type 0} → Doubles D → D → ℕ → ℕ → ℕ → Run Printed
unfolding multiplier carry print_parts
dbl2stri doubles dbl width dec_digits pad = do
  let negative = doubles.is_negative dbl
  let dbl1 = if negative then doubles.negated dbl else dbl
  let mult = multiplier dec_digits
  whole ← doubles.to_uint dbl1
  decimal ← doubles.to_uint (
      doubles.plus_half
        (doubles.times (doubles.minus dbl1 (doubles.of_uint whole)) (doubles.of_uint mult)))
  print_parts negative (carry whole decimal mult) width dec_digits pad
