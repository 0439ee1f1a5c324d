-- ===== src/PrintfToStream/Format/Directive/Widths.antt =====
-- What `vprintf` reads of the widths and the length of a directive.
use slirp4tinc.Prelude.{
  ℕ, zero, suc, ◌+◌, ◌-◌, ◌*◌, ◌^◌, ◌≤◌, ◌<◌, ◌≡◌, refl, ◌∙◌, Bool, true, false, Option, none, some,
  List, [], ◌∷◌, ◌++◌, if◌then◌else◌, leb, arith, ne→==, replicate,
}
use slirp4tinc.Prelude.Run.{ok}
use slirp4tinc.PrintfToStream.Digits.{IsDigits, read_digits}
use slirp4tinc.PrintfToStream.Format.{parse_width, parse_long}
use slirp4tinc.PrintfToStream.Format.Directive.{
  AreDecimals, Length, no_length, t_length, l_length, length_text, is_long, decimals_text,
  decimals_value, HeadNot, IsBehind, IsLetter, IsWidth, value, Directive, IsDirective, from_length,
  from_decimals, from_width,
}

read_digits-le : (acc : ℕ) (s : List ℕ) → acc ≤ read_digits 10 97 acc s
read_digits-le acc [] = omega arith
read_digits-le acc (c ∷ s) =
    ground (arith, read_digits-le (acc * 10 + (if leb 58 c then c + 10 - 97 else c - 48)) s)

IsWidth-IsDigits : (s : List ℕ) → IsWidth s → IsDigits s
IsWidth-IsDigits [] h = tt
IsWidth-IsDigits (c ∷ s) h = (omega arith, h.1, h.2)

parse_width_letter :
    (c width dec_width : ℕ) (rest : List ℕ) (post_decimal : Bool)
    → 58 ≤ c
    → parse_width (c ∷ rest) post_decimal width dec_width ≡ ok (c ∷ rest, width, dec_width)
unfolding parse_width
parse_width_letter c width dec_width rest post_decimal h = ground arith

parse_width_whole :
    (s rest : List ℕ) (width dec_width : ℕ)
    → IsDigits s
    → read_digits 10 97 width s < 2 ^ 31
    → parse_width (s ++ rest) false width dec_width
      ≡ parse_width rest false (read_digits 10 97 width s) dec_width
unfolding parse_width
parse_width_whole [] rest width dec_width h fits = refl
parse_width_whole (c ∷ s) rest width dec_width h fits = ground (
  arith,
  read_digits-le (width * 10 + (c - 48)) s,
  parse_width_whole s rest (width * 10 + (c - 48)) dec_width,
)

parse_width_decimal :
    (s rest : List ℕ) (width dec_width : ℕ)
    → IsDigits s
    → read_digits 10 97 dec_width s < 2 ^ 32
    → parse_width (s ++ rest) true width dec_width
      ≡ parse_width rest true width (read_digits 10 97 dec_width s)
unfolding parse_width
parse_width_decimal [] rest width dec_width h fits = refl
parse_width_decimal (c ∷ s) rest width dec_width h fits = ground (
  arith,
  read_digits-le (dec_width * 10 + (c - 48)) s,
  parse_width_decimal s rest width (dec_width * 10 + (c - 48)),
)

module _ (c : ℕ) (rest : List ℕ) (letter : IsLetter c) where
  parse_width_length :
      (l : Length) (post_decimal : Bool) (width dec_width : ℕ)
      → parse_width (length_text l ++ c ∷ rest) post_decimal width dec_width
        ≡ ok (length_text l ++ c ∷ rest, width, dec_width)
  parse_width_length no_length post_decimal width dec_width =
      parse_width_letter c width dec_width rest post_decimal letter.0
  parse_width_length t_length post_decimal width dec_width =
      parse_width_letter 116 width dec_width (c ∷ rest) post_decimal (omega arith)
  parse_width_length l_length post_decimal width dec_width =
      parse_width_letter 108 width dec_width (c ∷ rest) post_decimal (omega arith)

  parse_width_decimals :
      (l : Length) (o : Option (List ℕ)) (width dec_width : ℕ)
      → AreDecimals o
      → parse_width (decimals_text o ++ (length_text l ++ c ∷ rest)) false width dec_width
        ≡ ok (length_text l ++ c ∷ rest, width, decimals_value o dec_width)
  unfolding parse_width
  parse_width_decimals l none width dec_width h = parse_width_length l false width dec_width
  parse_width_decimals l (some s) width dec_width h =
      parse_width_decimal s (length_text l ++ c ∷ rest) width 0 h.0 h.1
      ∙ parse_width_length l true width (value s)

  pub parse_length_lem :
      (l : Length) → parse_long (length_text l ++ c ∷ rest) ≡ (c ∷ rest, is_long l)
  unfolding parse_long
  parse_length_lem no_length = rw (ne→== c 116 letter.2, ne→== c 108 letter.1) refl
  parse_length_lem t_length = refl
  parse_length_lem l_length = refl

  from_length-head : (l : Length) → IsBehind (length_text l ++ c ∷ rest)
  from_length-head no_length = omega (arith, letter.0)
  from_length-head t_length = omega arith
  from_length-head l_length = omega arith

  module _ (d : Directive) (h : IsDirective d) where
    pub parse_width_lem :
        (dec_width : ℕ)
        → parse_width (from_width d (c ∷ rest)) false 0 dec_width
          ≡ ok (from_length d (c ∷ rest), value d.width, decimals_value d.decimals dec_width)
    parse_width_lem dec_width =
        parse_width_whole d.width (from_decimals d (c ∷ rest)) 0 dec_width
          (IsWidth-IsDigits d.width h.is_width) h.width_fits
        ∙ parse_width_decimals d.length d.decimals (value d.width) dec_width h.decimals_fit

    from_decimals-head :
        (o : Option (List ℕ)) → IsBehind (decimals_text o ++ from_length d (c ∷ rest))
    from_decimals-head none = from_length-head d.length
    from_decimals-head (some s) = omega arith

    from_decimals-HeadNot :
        (o : Option (List ℕ)) → HeadNot 48 (decimals_text o ++ from_length d (c ∷ rest))
    from_decimals-HeadNot none = go d.length
      where
        go : (l : Length) → HeadNot 48 (length_text l ++ c ∷ rest)
        go no_length = λ e. omega (arith, e, letter.0)
        go t_length = λ e. omega (arith, e)
        go l_length = λ e. omega (arith, e)
    from_decimals-HeadNot (some s) = λ e. omega (arith, e)

    pub from_width-HeadNot : (s : List ℕ) → IsWidth s → HeadNot 48 (s ++ from_decimals d (c ∷ rest))
    from_width-HeadNot [] is = from_decimals-HeadNot d.decimals
    from_width-HeadNot (x ∷ s) is = λ e. omega (arith, e, is.0)

    pub zeros-head :
        (n : ℕ) (s : List ℕ)
        → IsWidth s
        → IsBehind (replicate n 48 ++ (s ++ from_decimals d (c ∷ rest)))
    zeros-head zero [] is = from_decimals-head d.decimals
    zeros-head zero (x ∷ s) is = omega (arith, is.0)
    zeros-head (suc n) s is = omega arith
