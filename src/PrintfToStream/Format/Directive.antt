-- ===== src/PrintfToStream/Format/Directive.antt =====
-- A directive written out, behind its '%'.
pub mod Widths
pub mod Flags
use slirp4tinc.Prelude.{
  ℕ, zero, suc, ◌+◌, ◌-◌, ◌*◌, ◌/◌, ◌%◌, ◌^◌, ◌≤◌, ◌<◌, ◌≡◌, ◌≢◌, refl, ap, sym, ◌∙◌, Bool, true,
  false, Option, none, some, List, [], ◌∷◌, ◌++◌, ◌==◌, if◌then◌else◌, leb, arith, ne→==, replicate,
}
use slirp4tinc.Prelude.Run.{Run, ok, ◌>>=◌}
use slirp4tinc.PrintfToStream.{has_flag, pad_right, pad_plus}
use slirp4tinc.PrintfToStream.Digits.{IsDigits, read_digits}
use slirp4tinc.PrintfToStream.Format.{set_flag}

abbrev pub zeros_flag : ℕ → ℕ → ℕ
zeros_flag zero pad = pad
zeros_flag (suc n) pad = set_flag pad 2

-- What marks a `long` number.
pub data Length : Type 0 where
  no_length t_length l_length : Length

-- The flags, and the digits of the width and of the decimals.
pub record Directive : Type 0 where
  pub minus : Bool
  pub plus : Bool
  pub zeros : ℕ
  pub width : List ℕ
  pub decimals : Option (List ℕ)
  pub length : Length

abbrev pub value : List ℕ → ℕ
value digits = read_digits 10 97 0 digits

-- A zero in front of the width is a flag.
abbrev pub IsWidth : List ℕ → Type 0
IsWidth [] = Unit
IsWidth (c ∷ s) = (49 ≤ c) × (c < 58) × IsDigits s

abbrev pub decimals_text : Option (List ℕ) → List ℕ
decimals_text none = []
decimals_text (some s) = 46 ∷ s

abbrev pub length_text : Length → List ℕ
length_text no_length = []
length_text t_length = 116 ∷ []
length_text l_length = 108 ∷ []

abbrev pub is_long : Length → Bool
is_long no_length = false
is_long t_length = true
is_long l_length = true

abbrev pub flag_text : Bool → ℕ → List ℕ
flag_text true c = c ∷ []
flag_text false c = []

abbrev pub HeadNot : ℕ → List ℕ → Type 0
HeadNot c [] = Unit
HeadNot c (x ∷ t) = x ≢ c

-- The text goes on with a character behind '-' and '+'.
abbrev pub IsBehind : List ℕ → Type 0
IsBehind [] = ⊥
IsBehind (x ∷ t) = 46 ≤ x

-- The letter of a conversion, behind the rest of the directive.
abbrev pub IsLetter : ℕ → Type 0
IsLetter c = (58 ≤ c) × (c ≢ 108) × (c ≢ 116)

module _ (d : Directive) (rest : List ℕ) where
  abbrev pub from_length : List ℕ
  from_length = length_text d.length ++ rest

  abbrev pub from_decimals : List ℕ
  from_decimals = decimals_text d.decimals ++ from_length

  abbrev pub from_width : List ℕ
  from_width = d.width ++ from_decimals

  -- The directive, and what stands behind it.
  abbrev pub directive_text : List ℕ
  directive_text =
      flag_text d.minus 45 ++ (flag_text d.plus 43 ++ (replicate d.zeros 48 ++ from_width))

abbrev pub AreDecimals : Option (List ℕ) → Type 0
AreDecimals none = Unit
AreDecimals (some s) = IsDigits s × (value s < 2 ^ 32)

-- A number below `2 ^ 31` as the width, without a zero in front, and one below `2 ^ 32` for the
-- decimals.
pub record IsDirective (d : Directive) : Type 0 where
  pub is_width : IsWidth d.width
  pub width_fits : value d.width < 2 ^ 31
  pub decimals_fit : AreDecimals d.decimals

abbrev pub decimals_value : Option (List ℕ) → ℕ → ℕ
decimals_value none dec_width = dec_width
decimals_value (some s) dec_width = value s

-- `pad`, as the flags set it.
abbrev pub flags : Bool → Bool → ℕ → ℕ
flags minus plus zeros =
    zeros_flag zeros (if plus then set_flag (if minus then 1 else 0) 4 else if minus then 1 else 0)
