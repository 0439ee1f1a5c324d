-- ===== src/Tests/Formats.antt =====
-- src/Util/PrintfToStream.cpp and HexdumpToByteStream.cpp: formats, a floating-point number and a dump.
use slirp4tinc.Prelude.{
  ℕ, ◌+◌, ◌-◌, ◌*◌, ◌/◌, ◌%◌, ◌^◌, ◌<◌, ◌≡◌, ◌≢◌, refl, Bool, true, false, not, length, List, [],
  none, some, ◌∷◌, arith, leb, ◌&&◌,
}
use slirp4tinc.Prelude.Run.{ok}
use slirp4tinc.PrintfToStream.Float.{Doubles, dbl2stri}
use slirp4tinc.PrintfToStream.Float.Text.{IsFloat, dbl2stri_lem}
use slirp4tinc.PrintfToStream.Format.{long_argument, directive, convert_at}
use slirp4tinc.PrintfToStream.Format.Pieces.{Piece, plain, percent_sign, conversion}
use slirp4tinc.PrintfToStream.Format.Directive.{Directive, no_length, l_length, IsDirective}
use slirp4tinc.PrintfToStream.Format.Directive.Flags.{directive_lem}
use slirp4tinc.PrintfToStream.Format.Values.{signed, hexadecimal, string}
use slirp4tinc.HexdumpToByteStream.{hexdump_to_byte_stream}
use slirp4tinc.HexdumpToByteStream.Rows.{IsDump, hexdump_to_byte_stream_lem}
use slirp4tinc.HexdumpToByteStream.Endless.{hexdump_endless}

-- Numbers of thousandths with a sign.
abbrev Thousandths : Type 0
Thousandths = Bool × ℕ

abbrev thousandths : Doubles Thousandths
thousandths = record {
  is_negative = λ d. d.0;
  negated = λ d. (not d.0, d.1);
  of_uint = λ n. (false, n * 1000);
  to_uint = λ d. ok (d.1 / 1000);
  minus = λ a b. (false, a.1 - b.1);
  times = λ a b. (false, a.1 * b.1 / 1000);
  plus_half = λ a. (false, a.1 + 500);
}

-- -2.75 with one decimal.
dbl2stri_lem_example :
    (w : ℕ) × (d : ℕ) × (text : List ℕ) × (w * 10 ^ 1 + d ≡ 28)
    × (d < 10)
    × IsFloat true w d 7 1 text
    × (dbl2stri thousandths (true, 2750) 7 1 0 ≡ ok (length text, text))
dbl2stri_lem_example =
    dbl2stri_lem thousandths (true, 2750) 2 8 7 1 (refl, refl) (omega arith) (omega arith)
      (omega arith) (omega arith) (omega arith)

-- "-6", "08l" and ".3" as directives.
abbrev left_six : Directive
left_six = record {
  minus = true;
  plus = false;
  zeros = 0;
  width = 54 ∷ [];
  decimals = none;
  length = no_length;
}

abbrev zeros_eight : Directive
zeros_eight = record {
  minus = false;
  plus = false;
  zeros = 1;
  width = 56 ∷ [];
  decimals = none;
  length = l_length;
}

abbrev three_decimals : Directive
three_decimals = record {
  minus = false;
  plus = false;
  zeros = 0;
  width = [];
  decimals = some (51 ∷ []);
  length = no_length;
}

zeros_eight-IsDirective : IsDirective zeros_eight
zeros_eight-IsDirective = record {
  is_width = (omega arith, omega arith, tt);
  width_fits = omega arith;
  decimals_fit = tt;
}

directive_lem_example :
    directive thousandths (48 ∷ 56 ∷ 108 ∷ 120 ∷ 37 ∷ []) 3 (long_argument 255 ∷ [])
    ≡ convert_at thousandths (120 ∷ 37 ∷ []) true 8 3 2 (long_argument 255 ∷ [])
directive_lem_example =
    directive_lem thousandths (long_argument 255 ∷ []) zeros_eight 120 3 (37 ∷ [])
      zeros_eight-IsDirective (omega arith, (λ e. omega (arith, e)), (λ e. omega (arith, e)))

-- "a%-6d%%%08lx%.3s" of -12, 255 and a null pointer.
abbrev pieces : List Piece
pieces =
    plain 97
    ∷ conversion left_six (signed (2 ^ 32 - 12))
    ∷ percent_sign
    ∷ conversion zeros_eight (hexadecimal 255)
    ∷ conversion three_decimals (string none)
    ∷ []

-- "%.1f" of -2.75
-- The printable characters of ASCII.
abbrev printable : ℕ → Bool
printable c = leb 32 c && leb c 126

hexdump_to_byte_stream_lem_example :
    (text : List ℕ) × IsDump printable 1 4096 (72 ∷ 0 ∷ []) text
    × (hexdump_to_byte_stream thousandths printable (72 ∷ 0 ∷ 7 ∷ []) 2 5 4096
        ≡ ok (length text % 2 ^ 32, text))
hexdump_to_byte_stream_lem_example =
    hexdump_to_byte_stream_lem thousandths printable refl (72 ∷ 0 ∷ 7 ∷ []) 2
      (omega arith, (omega arith, (omega arith, tt))) (omega arith) 5 4096 (omega arith)
      (omega arith) (omega arith)

hexdump_endless_example :
    hexdump_to_byte_stream thousandths printable [] (2 ^ 32 - 1) 5 4096 ≢ ok (0, [])
hexdump_endless_example =
    hexdump_endless thousandths printable [] (2 ^ 32 - 1) 5 4096 (0, []) (omega arith)
