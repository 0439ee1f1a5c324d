-- ===== src/PrintfToStream/Format/Values/Converts.antt =====
-- Each conversion, with any width and any flags.
use slirp4tinc.Prelude.{
  ℕ, ◌+◌, ◌-◌, ◌^◌, ◌≤◌, ◌<◌, ◌≡◌, refl, ◌⊎◌, inl, inr, Bool, true, false, Option, none, some, List,
  [], ◌∷◌, ◌++◌, arith, ◌==◌, leb, length, ◌&&◌,
}
use slirp4tinc.Prelude.Run.{ok}
use slirp4tinc.PrintfToStream.{magnitude, printi}
use slirp4tinc.PrintfToStream.Padding.{padded}
use slirp4tinc.PrintfToStream.Numbers.{
  prints-padded, padded-short, number_text, NumberText, printi-NumberText,
}
use slirp4tinc.PrintfToStream.Float.{Doubles}
use slirp4tinc.PrintfToStream.Format.{
  Arguments, sign_extend, set_flag, conversion_of, convert, scr_lem,
}
use slirp4tinc.PrintfToStream.Format.Values.{
  Value, signed, unsigned, hexadecimal, upper_hexadecimal, string, character, IsValue, value_letter,
  value_args, ShowsValue, string_text, absolute, short_signed, short_unsigned, short_hexadecimal,
  long_signed, long_unsigned, not_long, set_long, NumberText-long,
}

-- At most so many characters are put for the value.
abbrev pub value_room : Value → ℕ → ℕ
value_room (string s) width = length (string_text s) + width
value_room v width = width + 21

number_text-short :
    (neg : Bool) (width pad : ℕ) (s : List ℕ)
    → length (number_text neg width pad s) ≤ length s + width + 1
number_text-short true width pad s =
    ground (arith, padded-short s (width - 1) pad, padded-short (45 ∷ s) width pad)
number_text-short false width pad s =
    ground (arith, padded-short s width pad, padded-short (43 ∷ s) width pad)

NumberText-short :
    (base letter u width pad : ℕ) (neg : Bool) (t : List ℕ)
    → NumberText base letter neg u width pad t
    → length t ≤ width + 21
NumberText-short base letter u width pad neg t (inl (nothing, e)) =
    rw e (omega (arith, padded-short (48 ∷ []) width pad))
NumberText-short base letter u width pad neg t (inr (s, numeral, e)) =
    rw e (omega (arith, number_text-short neg width pad s, numeral.3))

module _ {D : Type 0} (doubles : Doubles D) (width dec_width pad : ℕ) (args : Arguments doubles)
    (bound : pad < 8) (fits : width < 2 ^ 31) where
  -- The conversion prints the text of the value.
  abbrev Converts : Bool → Value → List ℕ → Type 0
  Converts long v t =
      convert doubles (conversion_of (value_letter v)) (value_letter v) long width dec_width pad
        (value_args long v ++ args)
      ≡ ok ((length t, t), args)

  short_number :
      (base letter i : ℕ)
      → (base ≡ 10) ⊎ (base ≡ 16)
      → 58 ≤ letter
      → i < 2 ^ 32
      → (t : List ℕ) × NumberText base letter false i width pad t
        × (printi i base false width pad letter ≡ ok (length t, t))
  short_number base letter i is_base letters less =
      printi-NumberText base letter is_base letters i i width pad false false (λ e. e) (λ e. e)
        (omega (arith, less)) fits (short_unsigned pad (not_long pad bound) i less)

  string_value :
      (long : Bool) (s : Option (List ℕ))
      → length (string_text s) + width < 2 ^ 32
      → Converts long (string s) (padded (string_text s) width pad)
  unfolding convert conversion_of
  string_value true none h = rw (prints-padded (string_text none) width pad h) refl
  string_value false none h = rw (prints-padded (string_text none) width pad h) refl
  string_value true (some s) h = rw (prints-padded s width pad h) refl
  string_value false (some s) h = rw (prints-padded s width pad h) refl

  character_value :
      (long : Bool) (c : ℕ)
      → IsValue long (character c)
      → Converts long (character c) (padded (c ∷ []) width pad)
  unfolding convert conversion_of
  character_value true c h =
      rw (scr_lem doubles c h.0 h.1, prints-padded (c ∷ []) width pad (omega (arith, fits))) refl
  character_value false c h =
      rw (scr_lem doubles c h.0 h.1, prints-padded (c ∷ []) width pad (omega (arith, fits))) refl

  short_value :
      (v : Value)
      → IsValue false v
      → value_room v width < 2 ^ 32
      → (t : List ℕ) × ShowsValue false v width pad t × Converts false v t
  unfolding convert conversion_of
  short_value (signed i) less room =
      let (t, shown, e) =
        printi-NumberText 10 97 (inl refl) (omega arith) (sign_extend i) (absolute false i) width
          pad true (leb (2 ^ 31) i) (ground (arith, less)) (ground (arith, less))
          (ground (arith, less)) fits (short_signed pad (not_long pad bound) i less) in
      (t, shown, rw e refl)
  short_value (unsigned i) less room =
      let (t, shown, e) = short_number 10 97 i (inl refl) (omega arith) less in
      (t, shown, rw e refl)
  short_value (hexadecimal i) less room =
      let (t, shown, e) =
        printi-NumberText 16 97 (inr refl) (omega arith) (sign_extend i) i width pad false false
          (ground (arith, less)) (ground (arith, less)) (omega (arith, less)) fits
          (short_hexadecimal pad (not_long pad bound) i less) in
      (t, shown, rw e refl)
  short_value (upper_hexadecimal i) less room =
      let (t, shown, e) =
        printi-NumberText 16 65 (inr refl) (omega arith) (sign_extend i) i width pad false false
          (ground (arith, less)) (ground (arith, less)) (omega (arith, less)) fits
          (short_hexadecimal pad (not_long pad bound) i less) in
      (t, shown, rw e refl)
  short_value (string s) h room =
      (padded (string_text s) width pad, refl, string_value false s room)
  short_value (character c) h room = (padded (c ∷ []) width pad, refl, character_value false c h)

  long_number :
      (base letter i u : ℕ) (sign neg : Bool)
      → (base ≡ 10) ⊎ (base ≡ 16)
      → 58 ≤ letter
      → (i ≡ 0 → u ≡ 0)
      → (u ≡ 0 → i ≡ 0)
      → u < 2 ^ 64
      → magnitude i (sign && (base == 10)) (set_flag pad 128) ≡ ok (neg, u)
      → (t : List ℕ) × NumberText base letter neg u width pad t
        × (printi i base sign width (set_flag pad 128) letter ≡ ok (length t, t))
  long_number base letter i u sign neg is_base letters nothing only less e =
      let (t, shown, same) =
        printi-NumberText base letter is_base letters i u width (set_flag pad 128) sign neg nothing
          only less fits e in
      (t, NumberText-long pad bound base letter u width neg t shown, same)

  long_plain :
      (base letter i : ℕ)
      → (base ≡ 10) ⊎ (base ≡ 16)
      → 58 ≤ letter
      → i < 2 ^ 64
      → (t : List ℕ) × NumberText base letter false i width pad t
        × (printi i base false width (set_flag pad 128) letter ≡ ok (length t, t))
  long_plain base letter i is_base letters less =
      long_number base letter i i false false is_base letters (λ e. e) (λ e. e) less
        (long_unsigned (set_flag pad 128) (set_long pad bound) i)

  long_value :
      (v : Value)
      → IsValue true v
      → value_room v width < 2 ^ 32
      → (t : List ℕ) × ShowsValue true v width pad t × Converts true v t
  unfolding convert conversion_of
  long_value (signed i) (less, other) room =
      let (t, shown, e) =
        long_number 10 97 i (absolute true i) true (leb (2 ^ 63) i) (inl refl) (omega arith)
          (ground (arith, less)) (ground (arith, less)) (ground (arith, less))
          (long_signed (set_flag pad 128) (set_long pad bound) i less other) in
      (t, shown, rw e refl)
  long_value (unsigned i) less room =
      let (t, shown, e) = long_plain 10 97 i (inl refl) (omega arith) less in (t, shown, rw e refl)
  long_value (hexadecimal i) less room =
      let (t, shown, e) = long_plain 16 97 i (inr refl) (omega arith) less in (t, shown, rw e refl)
  long_value (upper_hexadecimal i) less room =
      let (t, shown, e) = long_plain 16 65 i (inr refl) (omega arith) less in (t, shown, rw e refl)
  long_value (string s) h room = (padded (string_text s) width pad, refl, string_value true s room)
  long_value (character c) h room = (padded (c ∷ []) width pad, refl, character_value true c h)

  pub value-Converts :
      (long : Bool) (v : Value)
      → IsValue long v
      → value_room v width < 2 ^ 32
      → (t : List ℕ) × ShowsValue long v width pad t × Converts long v t
  value-Converts true v h room = long_value v h room
  value-Converts false v h room = short_value v h room

pub ShowsValue-short :
    (long : Bool) (v : Value) (width pad : ℕ) (t : List ℕ)
    → ShowsValue long v width pad t
    → length t ≤ value_room v width
ShowsValue-short long (signed i) width pad t h = NumberText-short 10 97 _ width pad _ t h
ShowsValue-short long (unsigned i) width pad t h = NumberText-short 10 97 i width pad false t h
ShowsValue-short long (hexadecimal i) width pad t h = NumberText-short 16 97 i width pad false t h
ShowsValue-short long (upper_hexadecimal i) width pad t h =
    NumberText-short 16 65 i width pad false t h
ShowsValue-short long (string s) width pad t h = rw h (padded-short (string_text s) width pad)
ShowsValue-short long (character c) width pad t h =
    rw h (omega (arith, padded-short (c ∷ []) width pad))
