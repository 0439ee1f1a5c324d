-- ===== src/PrintfToStream/Format/Values.antt =====
-- What a conversion prints of its argument, with any width and any flags.
pub mod Converts
use slirp4tinc.Prelude.{
  ℕ, zero, suc, ◌+◌, ◌-◌, ◌*◌, ◌/◌, ◌%◌, ◌^◌, ◌≤◌, ◌<◌, ◌≡◌, ◌≢◌, refl, ap, sym, ◌∙◌, ◌⊎◌, inl, inr,
  Bool, true, false, Option, none, some, List, [], ◌∷◌, ◌++◌, arith, ◌==◌, if◌then◌else◌, leb,
  Bool-cases, length,
}
use slirp4tinc.Prelude.Run.{ok}
use slirp4tinc.PrintfToStream.{has_flag, magnitude, printi}
use slirp4tinc.PrintfToStream.Padding.{padded}
use slirp4tinc.PrintfToStream.Numbers.{prints-padded, number_text, NumberText, printi-NumberText}
use slirp4tinc.PrintfToStream.Format.{
  Argument, int_argument, long_argument, text_argument, sign_extend, set_flag,
}
use slirp4tinc.PrintfToStream.Format.Directive.{flags}

-- An argument with the conversion that it is for: "%d", "%u", "%x", "%X", "%s" with a string that may
-- be null, and "%c".
pub data Value : Type 0 where
  signed unsigned hexadecimal upper_hexadecimal : ℕ → Value
  string : Option (List ℕ) → Value
  character : ℕ → Value

abbrev pub modulus : Bool → ℕ
modulus true = 2 ^ 64
modulus false = 2 ^ 32

abbrev pub half : Bool → ℕ
half true = 2 ^ 63
half false = 2 ^ 31

-- The magnitude of a number of that size, in two's complement.
abbrev pub absolute : Bool → ℕ → ℕ
absolute long i = if leb (half long) i then modulus long - i else i

-- The least `long` number has no magnitude.
abbrev pub IsValue : Bool → Value → Type 0
IsValue true (signed i) = (i < 2 ^ 64) × (i ≢ 2 ^ 63)
IsValue false (signed i) = i < 2 ^ 32
IsValue long (unsigned i) = i < modulus long
IsValue long (hexadecimal i) = i < modulus long
IsValue long (upper_hexadecimal i) = i < modulus long
IsValue long (string s) = Unit
IsValue long (character c) = (0 < c) × (c < 2 ^ 8)

abbrev pub value_letter : Value → ℕ
value_letter (signed i) = 100
value_letter (unsigned i) = 117
value_letter (hexadecimal i) = 120
value_letter (upper_hexadecimal i) = 88
value_letter (string s) = 115
value_letter (character c) = 99

abbrev pub string_text : Option (List ℕ) → List ℕ
string_text none = 40 ∷ 110 ∷ 117 ∷ 108 ∷ 108 ∷ 41 ∷ []
string_text (some s) = s

module _ {D : Type 0} where
  abbrev pub number_argument : Bool → ℕ → Argument D
  number_argument true i = long_argument i
  number_argument false i = int_argument i

  abbrev pub value_args : Bool → Value → List (Argument D)
  value_args long (signed i) = number_argument long i ∷ []
  value_args long (unsigned i) = number_argument long i ∷ []
  value_args long (hexadecimal i) = number_argument long i ∷ []
  value_args long (upper_hexadecimal i) = number_argument long i ∷ []
  value_args long (string s) = text_argument s ∷ []
  value_args long (character c) = int_argument c ∷ []

-- What is put for the value, in the width and with the flags.
abbrev pub ShowsValue : Bool → Value → ℕ → ℕ → List ℕ → Type 0
ShowsValue long (signed i) width pad t =
    NumberText 10 97 (leb (half long) i) (absolute long i) width pad t
ShowsValue long (unsigned i) width pad t = NumberText 10 97 false i width pad t
ShowsValue long (hexadecimal i) width pad t = NumberText 16 97 false i width pad t
ShowsValue long (upper_hexadecimal i) width pad t = NumberText 16 65 false i width pad t
ShowsValue long (string s) width pad t = t ≡ padded (string_text s) width pad
ShowsValue long (character c) width pad t = t ≡ padded (c ∷ []) width pad

module _ (pad : ℕ) where
  module _ (short : has_flag pad 128 ≡ false) (i : ℕ) (less : i < 2 ^ 32) where
    pub short_signed : magnitude (sign_extend i) true pad ≡ ok (leb (2 ^ 31) i, absolute false i)
    unfolding magnitude
    short_signed = rw short (ground (arith, less))

    pub short_unsigned : magnitude i false pad ≡ ok (false, i)
    unfolding magnitude
    short_unsigned = rw short (ground (arith, less))

    pub short_hexadecimal : magnitude (sign_extend i) false pad ≡ ok (false, i)
    unfolding magnitude
    short_hexadecimal = rw short (ground (arith, less))

  module _ (long : has_flag pad 128 ≡ true) (i : ℕ) where
    pub long_signed :
        i < 2 ^ 64 → i ≢ 2 ^ 63 → magnitude i true pad ≡ ok (leb (2 ^ 63) i, absolute true i)
    unfolding magnitude
    long_signed less other = rw long (ground (arith, less, other))

    pub long_unsigned : magnitude i false pad ≡ ok (false, i)
    unfolding magnitude
    long_unsigned = rw long refl

pub flags_bound : (minus plus : Bool) (zeros : ℕ) → flags minus plus zeros < 8
flags_bound minus plus zero = ground arith
flags_bound minus plus (suc n) = ground arith

-- The flag for a `long` number does not show.
module _ (pad : ℕ) (bound : pad < 8) where
  pub not_long : has_flag pad 128 ≡ false
  not_long = ground (arith, bound)

  pub set_long : has_flag (set_flag pad 128) 128 ≡ true
  set_long = ground (arith, bound)

  other_flags :
      (has_flag (set_flag pad 128) 1 ≡ has_flag pad 1)
      × (has_flag (set_flag pad 128) 2 ≡ has_flag pad 2)
      × (has_flag (set_flag pad 128) 4 ≡ has_flag pad 4)
  other_flags = (ground (arith, bound), ground (arith, bound), ground (arith, bound))

  padded-long : (s : List ℕ) (width : ℕ) → padded s width (set_flag pad 128) ≡ padded s width pad
  padded-long s width = rw (other_flags.0, other_flags.1) refl

  number_text-long :
      (neg : Bool) (width : ℕ) (s : List ℕ)
      → number_text neg width (set_flag pad 128) s ≡ number_text neg width pad s
  number_text-long true width s = rw (other_flags.0, other_flags.1) refl
  number_text-long false width s = rw (other_flags.0, other_flags.1, other_flags.2) refl

  pub NumberText-long :
      (base letter u width : ℕ) (neg : Bool) (t : List ℕ)
      → NumberText base letter neg u width (set_flag pad 128) t
      → NumberText base letter neg u width pad t
  NumberText-long base letter u width neg t (inl (nothing, e)) =
      inl (nothing, e ∙ padded-long (48 ∷ []) width)
  NumberText-long base letter u width neg t (inr (s, numeral, e)) =
      inr (s, numeral, e ∙ number_text-long neg width s)
