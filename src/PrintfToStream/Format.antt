-- ===== src/PrintfToStream/Format.antt =====
-- `vprintf` and `printf`: the format string and its arguments. A pointer into the format is what of it
-- is left, so that the empty list is the terminating zero.
pub mod Directive
pub mod Hex
pub mod Pieces
pub mod Values
pub mod Tests
use slirp4tinc.Prelude.{
  ℕ, zero, suc, ◌+◌, ◌-◌, ◌*◌, ◌%◌, ◌^◌, Bool, true, false, ◌&&◌, Option, none, some, List, [], ◌∷◌,
  ◌++◌, ◌==◌, if◌then◌else◌, leb, length, ◌≡◌, ◌<◌, arith,
}
use slirp4tinc.Prelude.Run.{Run, ok, blocked, undefined, ◌>>=◌}
use slirp4tinc.PrintfToStream.{
  Printed, put_one, counted, has_flag, pad_right, pad_zero, pad_plus, pad_long, prints, printi,
}
use slirp4tinc.PrintfToStream.Float.{Doubles, dbl2stri}

-- An argument, with the type that it was passed with; a `char*` may be null.
pub data Argument (D : Type 0) : Type 0 where
  int_argument : ℕ → Argument D
  long_argument : ℕ → Argument D
  text_argument : Option (List ℕ) → Argument D
  double_argument : D → Argument D

-- `pad |= flag`
abbrev pub set_flag : ℕ → ℕ → ℕ
set_flag pad flag = if has_flag pad flag then pad else pad + flag

-- `if (*format == c) { ++format; pad |= flag; }`
pub parse_flag : ℕ → ℕ → List ℕ × ℕ → List ℕ × ℕ
parse_flag c flag ([], pad) = ([], pad)
parse_flag c flag (x ∷ format, pad) =
    if x == c then (format, set_flag pad flag) else (x ∷ format, pad)

-- `while (*format == '0')`
pub parse_zeros : List ℕ → ℕ → List ℕ × ℕ
parse_zeros [] pad = ([], pad)
parse_zeros (x ∷ format) pad =
    let rest = parse_zeros format (set_flag pad pad_zero) in
    if x == 48 then rest else (x ∷ format, pad)

abbrev pub is_digit : ℕ → Bool
is_digit x = leb 48 x && leb x 57

-- The loop over the digits of the two widths: what is left, `width` and `dec_width`. An overflow of the
-- `int` is undefined.
pub parse_width : List ℕ → Bool → ℕ → ℕ → Run (List ℕ × ℕ × ℕ)
parse_width [] post_decimal width dec_width = ok ([], width, dec_width)
parse_width (x ∷ format) post_decimal width dec_width =
    let point = parse_width format true width 0 in
    let decimal = parse_width format true width ((dec_width * 10 + (x - 48)) % 2 ^ 32) in
    let whole =
      if leb (2 ^ 31) (width * 10 + (x - 48))
      then undefined
      else parse_width format false (width * 10 + (x - 48)) dec_width in
    if x == 46
    then point
    else if is_digit x
    then (if post_decimal then decimal else whole)
    else ok (x ∷ format, width, dec_width)

-- `if ((*format == 't') || (*format == 'l'))`
pub parse_long : List ℕ → List ℕ × Bool
parse_long [] = ([], false)
parse_long (x ∷ format) =
    if x == 116 then (format, true) else if x == 108 then (format, true) else (x ∷ format, false)

-- An `int` as an `intptr_t`.
abbrev pub sign_extend : ℕ → ℕ
sign_extend i = if leb (2 ^ 31) i then i + 2 ^ 64 - 2 ^ 32 else i

-- The cases of the `switch`.
pub data Conversion : Type 0 where
  text decimal hex upper_hex unsigned_decimal character float other : Conversion

pub conversion_of : ℕ → Conversion
conversion_of c =
    if c == b's'
    then text
    else if c == b'd'
    then decimal
    else if c == b'x'
    then hex
    else if c == b'X'
    then upper_hex
    else if c == b'u'
    then unsigned_decimal
    else if c == b'c'
    then character
    else if c == b'f'
    then float
    else other

module _ {D : Type 0} (doubles : Doubles D) where
  abbrev pub Arguments : Type 0
  Arguments = List (Argument D)

  -- `printi(va_arg(args, int), ...)`, and with `long` and `PAD_LONG` if `isLong`; an `unsigned int` is
  -- not extended by its sign. An argument of another type, or none, is undefined.
  pub convert_number : Bool → ℕ → Bool → ℕ → ℕ → ℕ → Arguments → Run (Printed × Arguments)
  convert_number false base sign width pad letter_base (int_argument i ∷ args) = do
    o ←
        printi (if sign then sign_extend i else if base == 10 then i else sign_extend i) base sign
          width pad letter_base
    ok (o, args)
  convert_number true base sign width pad letter_base (long_argument i ∷ args) = do
    o ← printi i base sign width (set_flag pad pad_long) letter_base
    ok (o, args)
  convert_number is_long base sign width pad letter_base args = undefined

  -- "(null)"
  abbrev pub null_text : List ℕ
  null_text = 40 ∷ 110 ∷ 117 ∷ 108 ∷ 108 ∷ 41 ∷ []

  -- The string of one character: the character zero ends it at once.
  abbrev pub scr : ℕ → List ℕ
  scr c = if c % 2 ^ 8 == 0 then [] else (c % 2 ^ 8) ∷ []

  pub scr_lem : (c : ℕ) → 0 < c → c < 2 ^ 8 → scr c ≡ c ∷ []
  scr_lem c more less = ground (arith, more, less)

  pub convert_text : ℕ → ℕ → Arguments → Run (Printed × Arguments)
  convert_text width pad (text_argument none ∷ args) = ok (prints null_text width pad, args)
  convert_text width pad (text_argument (some s) ∷ args) = ok (prints s width pad, args)
  convert_text width pad args = undefined

  pub convert_character : ℕ → ℕ → Arguments → Run (Printed × Arguments)
  convert_character width pad (int_argument c ∷ args) = ok (prints (scr c) width pad, args)
  convert_character width pad args = undefined

  pub convert_float : ℕ → ℕ → ℕ → Arguments → Run (Printed × Arguments)
  convert_float width dec_width pad (double_argument d ∷ args) = do
    o ← dbl2stri doubles d width dec_width pad
    ok (o, args)
  convert_float width dec_width pad args = undefined

  -- The `switch`; the two characters of the default case are not counted.
  pub convert : Conversion → ℕ → Bool → ℕ → ℕ → ℕ → Arguments → Run (Printed × Arguments)
  unfolding convert_number convert_text convert_character convert_float
  convert text c is_long width dec_width pad args = convert_text width pad args
  convert decimal c is_long width dec_width pad args =
      convert_number is_long 10 true width pad b'a' args
  convert hex c is_long width dec_width pad args =
      convert_number is_long 16 false width pad b'a' args
  convert upper_hex c is_long width dec_width pad args =
      convert_number is_long 16 false width pad b'A' args
  convert unsigned_decimal c is_long width dec_width pad args =
      convert_number is_long 10 false width pad b'a' args
  convert character c is_long width dec_width pad args = convert_character width pad args
  convert float c is_long width dec_width pad args = convert_float width dec_width pad args
  convert other c is_long width dec_width pad args = ok ((0, 37 ∷ c ∷ []), args)

  -- What a directive leaves: what it printed, the format behind it, `dec_width` and the arguments.
  pub record After : Type 0 where
    pub printed : Printed
    pub format : List ℕ
    pub dec_width : ℕ
    pub args : Arguments

  -- The conversion character. At the terminating zero the default case puts the zero, and the loop
  -- goes on behind the end of the format.
  pub convert_at : List ℕ → Bool → ℕ → ℕ → ℕ → Arguments → Run After
  unfolding conversion_of convert
  convert_at [] is_long width dec_width pad args = undefined
  convert_at (c ∷ format) is_long width dec_width pad args = do
    (printed, args') ← convert (conversion_of c) c is_long width dec_width pad args
    ok (record { printed = printed; format = format; dec_width = dec_width; args = args' })

  -- From the character behind a '%' on, which is not the terminating zero.
  pub directive : List ℕ → ℕ → Arguments → Run After
  unfolding parse_flag parse_zeros parse_width parse_long convert_at
  directive format dec_width args = do
    let (format1, pad1) = parse_flag 45 pad_right (format, 0)
    let (format2, pad2) = parse_flag 43 pad_plus (format1, pad1)
    let (format3, pad) = parse_zeros format2 pad2
    (format4, width, dec_width') ← parse_width format3 false 0 dec_width
    let (format5, is_long) = parse_long format4
    convert_at format5 is_long width dec_width' pad args

  -- `pc += ...`, with what was put.
  abbrev pub add_printed : Printed → Printed → Printed
  add_printed (pc, out) (n, more) = (pc + n, out ++ more)

  -- What stands behind a '%': nothing, another '%', or a directive.
  pub percent : List ℕ → ℕ → Arguments → Run (Option After)
  unfolding directive
  percent [] dec_width args = ok none
  percent (c ∷ format) dec_width args =
      if c == 37
      then ok (
          some (record {
            printed = (1, 37 ∷ []);
            format = format;
            dec_width = dec_width;
            args = args;
          }))
      else (do after ← directive (c ∷ format) dec_width args; ok (some after))

  -- The loop over the format; without fuel it has not returned.
  pub vprintf_loop : ℕ → List ℕ → ℕ → Arguments → Printed → Run Printed
  unfolding percent counted
  vprintf_loop zero format dec_width args o = blocked
  vprintf_loop (suc fuel) [] dec_width args o = ok o
  vprintf_loop (suc fuel) (c ∷ format) dec_width args o = elim (c == 37) [
    | false ↦ (do o' ← counted (put_one c o); vprintf_loop fuel format dec_width args o')
    | true ↦ (do
      after ← percent format dec_width args
      elim after [
        | none ↦ ok o
        | some a ↦ (do
          o' ← counted (add_printed o a.printed)
          vprintf_loop fuel a.format a.dec_width a.args o')
      ])
  ]

  -- `vprintf(format, args)` and `printf(format, ...)`
  pub vprintf : List ℕ → Arguments → Run Printed
  unfolding vprintf_loop
  vprintf format args = vprintf_loop (suc (length format)) format 0 args (0, [])
