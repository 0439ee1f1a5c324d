-- ===== src/PrintfToStream/Format/Pieces.antt =====
-- What `vprintf` makes of a format, read as a list of its pieces.
use slirp4tinc.Prelude.{ℕ, suc, ◌+◌, ◌≡◌, ◌≢◌, List, [], ◌∷◌, ◌++◌, length}
use slirp4tinc.PrintfToStream.Float.{Doubles}
use slirp4tinc.PrintfToStream.Format.{Argument, Arguments, vprintf_loop}
use slirp4tinc.PrintfToStream.Format.Directive.{
  Directive, IsDirective, directive_text, is_long, value, decimals_value, flags,
}
use slirp4tinc.PrintfToStream.Format.Values.{Value, IsValue, value_letter, value_args, ShowsValue}
use slirp4tinc.PrintfToStream.Format.Values.Converts.{value_room}

-- A character, "%%", and a directive with the argument that it is for.
pub data Piece : Type 0 where
  plain : ℕ → Piece
  percent_sign : Piece
  conversion : Directive → Value → Piece

abbrev pub IsPiece : Piece → Type 0
IsPiece (plain c) = c ≢ 37
IsPiece percent_sign = Unit
IsPiece (conversion d v) = IsDirective d × IsValue (is_long d.length) v

-- The piece in front of the rest of the format.
abbrev pub piece_format : Piece → List ℕ → List ℕ
piece_format (plain c) rest = c ∷ rest
piece_format percent_sign rest = 37 ∷ 37 ∷ rest
piece_format (conversion d v) rest = 37 ∷ directive_text d (value_letter v ∷ rest)

-- At most so many characters are put for the piece.
abbrev pub piece_room : Piece → ℕ
piece_room (plain c) = 1
piece_room percent_sign = 1
piece_room (conversion d v) = value_room v (value d.width)

-- What is put for the piece.
abbrev pub Shows : Piece → List ℕ → Type 0
Shows (plain c) s = s ≡ c ∷ []
Shows percent_sign s = s ≡ 37 ∷ []
Shows (conversion d v) s =
    ShowsValue (is_long d.length) v (value d.width) (flags d.minus d.plus d.zeros) s

abbrev piece_decimals : Piece → ℕ → ℕ
piece_decimals (plain c) dec_width = dec_width
piece_decimals percent_sign dec_width = dec_width
piece_decimals (conversion d v) dec_width = decimals_value d.decimals dec_width

module _ {D : Type 0} where
  abbrev pub piece_args : Piece → List (Argument D)
  piece_args (plain c) = []
  piece_args percent_sign = []
  piece_args (conversion d v) = value_args (is_long d.length) v

  abbrev pub all_args : List Piece → List (Argument D)
  all_args [] = []
  all_args (p ∷ ps) = piece_args p ++ all_args ps

abbrev pub AllPieces : List Piece → Type 0
AllPieces [] = Unit
AllPieces (p ∷ ps) = IsPiece p × AllPieces ps

abbrev pub all_format : List Piece → List ℕ
all_format [] = []
all_format (p ∷ ps) = piece_format p (all_format ps)

abbrev pub all_room : List Piece → ℕ
all_room [] = 0
all_room (p ∷ ps) = piece_room p + all_room ps

abbrev pub ShowsAll : List Piece → List ℕ → Type 0
ShowsAll [] text = text ≡ []
ShowsAll (p ∷ ps) text =
    (s : List ℕ) × (rest : List ℕ) × (text ≡ s ++ rest) × Shows p s × ShowsAll ps rest

module _ {D : Type 0} (doubles : Doubles D) where
  module _ (fuel dec_width pc : ℕ) (format out : List ℕ) (args : Arguments doubles) where
    -- A pass of the loop that prints `s`.
    abbrev Passes : Piece → List ℕ → Type 0
    Passes p s =
        vprintf_loop doubles (suc fuel) (piece_format p format) dec_width (piece_args p ++ args)
          (pc, out)
        ≡ vprintf_loop doubles fuel format (piece_decimals p dec_width) args
            (pc + length s, out ++ s)
