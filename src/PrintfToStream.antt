-- ===== src/PrintfToStream.antt =====
-- src/Util/PrintfToStream.cpp: `prints` and `printi`. The characters given to `put_char`, whose result
-- is not used, are a result of the call, next to its count. A string is the list of its characters
-- without the terminating zero; an `intptr_t` is its 64-bit pattern. The flags are those of `pad`.
pub mod Padding
pub mod Digits
pub mod Decimal
pub mod Numbers
pub mod Float
pub mod Format
use slirp4tinc.Prelude.{
  ℕ, zero, suc, ◌+◌, ◌-◌, ◌/◌, ◌%◌, ◌^◌, Bool, true, false, not, ◌&&◌, List, [], ◌∷◌, ◌++◌, ◌==◌,
  if◌then◌else◌, ltb, leb, length,
}
use slirp4tinc.Prelude.Run.{Run, ok, undefined, ◌>>=◌}

-- `pad & flag`, for a flag that is a power of two
abbrev pub has_flag : ℕ → ℕ → Bool
has_flag pad flag = pad / flag % 2 == 1

abbrev pub pad_right : ℕ
pad_right = 1

abbrev pub pad_zero : ℕ
pad_zero = 2

abbrev pub pad_plus : ℕ
pad_plus = 4

abbrev pub pad_long : ℕ
pad_long = 128

abbrev pub Printed : Type 0
Printed = ℕ × List ℕ

-- `put_char(c); ++pc;`. The count is that of the characters put, without a bound.
abbrev pub put_one : ℕ → Printed → Printed
put_one c (pc, out) = (pc + 1, out ++ c ∷ [])

-- `pc` is an `int`: a count that it does not hold is an overflow, which is undefined. A count is only
-- added to, up to the one of `vprintf`, and is checked there.
unfoldable pub counted : Printed → Run Printed
counted (pc, out) = if ltb pc (2 ^ 31) then ok (pc, out) else undefined

-- The loops over `width` and over the string.
pub put_padding : ℕ → ℕ → Printed → Printed
put_padding zero c o = o
put_padding (suc width) c o = put_padding width c (put_one c o)

pub put_string : List ℕ → Printed → Printed
put_string [] o = o
put_string (c ∷ string) o = put_string string (put_one c o)

-- The character 32 is a blank, and 48 is '0'.
abbrev pub padding_char : ℕ → ℕ → ℕ
padding_char width pad = if ltb 0 width && has_flag pad pad_zero then 48 else 32

abbrev pub padding_width : List ℕ → ℕ → ℕ
padding_width string width = if leb width (length string) then 0 else width - length string

-- `prints(string, width, pad)`
pub prints : List ℕ → ℕ → ℕ → Printed
unfolding put_padding put_string
prints string width pad =
    let c = padding_char width pad in
    let rest = padding_width string width in
    if has_flag pad pad_right
    then put_padding rest c (put_string string (0, []))
    else put_string string (put_padding rest c (0, []))

-- A digit's character.
abbrev pub digit_char : ℕ → ℕ → ℕ
digit_char letter_base t = if leb 10 t then t + letter_base - 10 else t + 48

-- `*--s = c`, with `space` characters of `print_buf` in front of `s`.
abbrev pub push_char : ℕ → ℕ → List ℕ → Run (ℕ × List ℕ)
push_char zero c s = undefined
push_char (suc space) c s = ok (space, c ∷ s)

-- The loop `while (u)`
pub digits : ℕ → ℕ → ℕ → ℕ → List ℕ → Run (ℕ × List ℕ)
digits base letter_base zero u s = if u == 0 then ok (zero, s) else undefined
digits base letter_base (suc space) u s =
    let rest = digits base letter_base space (u / base) (digit_char letter_base (u % base) ∷ s) in
    if u == 0 then ok (suc space, s) else rest

-- The magnitude and the sign that is printed, for `i` of 32 bits, or of 64 bits if `PAD_LONG` is set.
-- The negation of the least `intptr_t` overflows.
pub magnitude : ℕ → Bool → ℕ → Run (Bool × ℕ)
magnitude i signed pad =
    if has_flag pad pad_long
    then (if signed && leb (2 ^ 63) i
        then (if i == 2 ^ 63 then undefined else ok (true, 2 ^ 64 - i))
        else ok (false, i))
    else (if signed && leb (2 ^ 31) (i % 2 ^ 32)
        then ok (true, 2 ^ 32 - i % 2 ^ 32)
        else ok (false, i % 2 ^ 32))

-- The sign, and `prints`. The character 45 is '-', and 43 is '+'.
pub finish : Bool → ℕ → ℕ → ℕ → List ℕ → Run Printed
unfolding prints
finish true width pad space s =
    if not (width == 0) && has_flag pad pad_zero
    then (let (pc, out) = prints s (width - 1) pad in ok (1 + pc, 45 ∷ out))
    else (do (space', s') ← push_char space 45 s; ok (prints s' width pad))
finish false width pad space s =
    if has_flag pad pad_plus
    then (do (space', s') ← push_char space 43 s; ok (prints s' width pad))
    else ok (prints s width pad)

-- PRINT_BUF_LEN - 1 for pointers of 64 bits: the characters in front of the terminating zero.
abbrev pub buffer_space : ℕ
buffer_space = 21

-- `printi(i, base, sign, width, pad, letterBase)`
pub printi : ℕ → ℕ → Bool → ℕ → ℕ → ℕ → Run Printed
unfolding magnitude digits finish
printi i base sign width pad letter_base = if i == 0 then ok (prints (48 ∷ []) width pad) else (do
  (neg, u) ← magnitude i (sign && (base == 10)) pad
  (space, s) ← digits base letter_base buffer_space u []
  finish neg width pad space s)
