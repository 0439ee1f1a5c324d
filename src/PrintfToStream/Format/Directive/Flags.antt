-- ===== src/PrintfToStream/Format/Directive/Flags.antt =====
-- What `vprintf` reads of a directive.
use slirp4tinc.Prelude.{
  ℕ, zero, suc, ◌<◌, ◌≤◌, ◌≡◌, ◌≢◌, refl, ap, ◌∙◌, Bool, true, false, List, [], ◌∷◌, ◌++◌,
  if◌then◌else◌, arith, ne→==, length, length-append, replicate,
}
use slirp4tinc.Prelude.Run.{Run, ◌>>=◌}
use slirp4tinc.PrintfToStream.{pad_right, pad_plus}
use slirp4tinc.PrintfToStream.Float.{Doubles}
use slirp4tinc.PrintfToStream.Format.{
  set_flag, parse_flag, parse_zeros, parse_width, parse_long, Arguments, After, convert_at,
  directive,
}
use slirp4tinc.PrintfToStream.Format.Directive.{
  is_long, length_text, decimals_text, decimals_value, from_length, from_decimals, flag_text,
  HeadNot, IsBehind, IsLetter, value, Directive, IsDirective, from_width, directive_text,
  zeros_flag, flags,
}
use slirp4tinc.PrintfToStream.Format.Directive.Widths.{
  parse_width_lem, parse_length_lem, zeros-head, from_width-HeadNot,
}

parse_flag_set :
    (c flag pad : ℕ) (t : List ℕ) → parse_flag c flag (c ∷ t, pad) ≡ (t, set_flag pad flag)
unfolding parse_flag
parse_flag_set c flag pad t = ground arith

parse_flag_other :
    (c flag pad : ℕ) (t : List ℕ) → HeadNot c t → parse_flag c flag (t, pad) ≡ (t, pad)
unfolding parse_flag
parse_flag_other c flag pad [] h = refl
parse_flag_other c flag pad (x ∷ t) h = rw (ne→== x c h) refl

set_flag_twice : (pad : ℕ) → set_flag (set_flag pad 2) 2 ≡ set_flag pad 2
set_flag_twice pad = ground arith

parse_zeros_lem :
    (n pad : ℕ) (t : List ℕ)
    → HeadNot 48 t
    → parse_zeros (replicate n 48 ++ t) pad ≡ (t, zeros_flag n pad)
unfolding parse_zeros
parse_zeros_lem zero pad [] h = refl
parse_zeros_lem zero pad (x ∷ t) h = rw (ne→== x 48 h) refl
parse_zeros_lem (suc n) pad t h =
    parse_zeros_lem n (set_flag pad 2) t h ∙ ap (λ (k : ℕ). (t, k)) (again n)
  where
    again : (m : ℕ) → zeros_flag m (set_flag pad 2) ≡ set_flag pad 2
    again zero = refl
    again (suc m) = set_flag_twice pad

IsBehind-HeadNot : (c : ℕ) (t : List ℕ) → c < 46 → IsBehind t → HeadNot c t
IsBehind-HeadNot c [] less h = absurd h
IsBehind-HeadNot c (x ∷ t) less h = λ e. omega (arith, e, h, less)

-- `if (*format == '-')` and `if (*format == '+')`.
parse_both :
    (minus plus : Bool) (t : List ℕ)
    → IsBehind t
    → parse_flag 43 pad_plus
        (parse_flag 45 pad_right (flag_text minus 45 ++ (flag_text plus 43 ++ t), 0))
      ≡ (t, if plus then set_flag (if minus then 1 else 0) 4 else if minus then 1 else 0)
parse_both true true t h =
    ap (parse_flag 43 pad_plus) (parse_flag_set 45 1 0 (43 ∷ t)) ∙ parse_flag_set 43 4 1 t
parse_both true false t h =
    ap (parse_flag 43 pad_plus) (parse_flag_set 45 1 0 t)
    ∙ parse_flag_other 43 4 1 t (IsBehind-HeadNot 43 t (omega arith) h)
parse_both false true t h =
    ap (parse_flag 43 pad_plus) (parse_flag_other 45 1 0 (43 ∷ t) (λ e. omega (arith, e)))
    ∙ parse_flag_set 43 4 0 t
parse_both false false t h =
    ap (parse_flag 43 pad_plus) (parse_flag_other 45 1 0 t (IsBehind-HeadNot 45 t (omega arith) h))
    ∙ parse_flag_other 43 4 0 t (IsBehind-HeadNot 43 t (omega arith) h)

module _ {D : Type 0} (doubles : Doubles D) (args : Arguments doubles) where
  -- `directive` behind the length, the widths, the zeros and the flags.
  abbrev behind_length : ℕ → ℕ → ℕ → List ℕ × Bool → Run (After doubles)
  behind_length pad width dec_width (format, long) =
      convert_at doubles format long width dec_width pad args

  abbrev behind_width : ℕ → Run (List ℕ × ℕ × ℕ) → Run (After doubles)
  behind_width pad read = read >>= λ r. behind_length pad r.1 r.2 (parse_long r.0)

  abbrev behind_zeros : ℕ → List ℕ × ℕ → Run (After doubles)
  behind_zeros dec_width (format, pad) = behind_width pad (parse_width format false 0 dec_width)

  abbrev behind_flags : ℕ → List ℕ × ℕ → Run (After doubles)
  behind_flags dec_width (format, pad) = behind_zeros dec_width (parse_zeros format pad)

  -- Flags, zeros, a width, decimals and a mark for a `long` are read as they are written, in this
  -- order, in front of the letter of the conversion: it gets the flags as bits, and both widths as
  -- numbers. Without decimals those of an earlier directive stay.
  pub directive_lem :
      (d : Directive) (c dec_width : ℕ) (rest : List ℕ)
      → IsDirective d
      → IsLetter c
      → directive doubles (directive_text d (c ∷ rest)) dec_width args
        ≡ convert_at doubles
            (c ∷ rest)
            (is_long d.length)
            (value d.width)
            (decimals_value d.decimals dec_width)
            (flags d.minus d.plus d.zeros)
            args
  unfolding directive
  directive_lem d c dec_width rest h letter =
      ap (behind_flags dec_width) (
        parse_both d.minus d.plus (replicate d.zeros 48 ++ from_width d (c ∷ rest))
          (zeros-head c rest letter d h d.zeros d.width h.is_width))
      ∙ ap (behind_zeros dec_width) (
          parse_zeros_lem d.zeros (flags d.minus d.plus 0) (from_width d (c ∷ rest))
            (from_width-HeadNot c rest letter d h d.width h.is_width))
      ∙ ap (behind_width (flags d.minus d.plus d.zeros))
          (parse_width_lem c rest letter d h dec_width)
      ∙ ap
          (behind_length (flags d.minus d.plus d.zeros) (value d.width)
            (decimals_value d.decimals dec_width))
          (parse_length_lem c rest letter d.length)

-- The text begins with a character that is no percent sign.
abbrev pub BeginsDirective : List ℕ → Type 0
BeginsDirective [] = ⊥
BeginsDirective (x ∷ t) = x ≢ 37

pub directive_text-BeginsDirective :
    (d : Directive) (c : ℕ) (rest : List ℕ)
    → IsDirective d
    → IsLetter c
    → BeginsDirective (directive_text d (c ∷ rest))
directive_text-BeginsDirective d c rest h letter =
    begins d.minus d.plus _ (zeros-head c rest letter d h d.zeros d.width h.is_width)
  where
    behind : (t : List ℕ) → IsBehind t → BeginsDirective t
    behind [] is = is
    behind (x ∷ t) is = λ e. omega (arith, e, is)

    begins :
        (minus plus : Bool) (t : List ℕ)
        → IsBehind t
        → BeginsDirective (flag_text minus 45 ++ (flag_text plus 43 ++ t))
    begins true plus t is = λ e. omega (arith, e)
    begins false true t is = λ e. omega (arith, e)
    begins false false t is = behind t is

pub directive_text-longer :
    (d : Directive) (rest : List ℕ) → length rest ≤ length (directive_text d rest)
directive_text-longer d rest =
    let a = from_length d rest in
    let b = from_decimals d rest in
    let w = from_width d rest in
    let z = replicate d.zeros 48 ++ w in
    let p = flag_text d.plus 43 ++ z in
    omega (
      arith,
      length-append (length_text d.length) rest,
      length-append (decimals_text d.decimals) a,
      length-append d.width b,
      length-append (replicate d.zeros 48) w,
      length-append (flag_text d.plus 43) z,
      length-append (flag_text d.minus 45) p,
    )
