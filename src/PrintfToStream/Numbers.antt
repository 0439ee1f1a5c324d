-- ===== src/PrintfToStream/Numbers.antt =====
-- What `printi` prints of a number, with any width and any flags.
use mathlib.Core.Path.{subst}
use slirp4tinc.Prelude.{
  ℕ, zero, suc, ◌+◌, ◌-◌, ◌/◌, ◌%◌, ◌^◌, ◌≤◌, ◌<◌, ◌≡◌, ◌≢◌, refl, ap, sym, ◌∙◌, ◌⊎◌, inl, inr,
  Bool, true, false, not, ◌&&◌, List, [], ◌∷◌, arith, ◌==◌, if◌then◌else◌, leb, Bool-cases, ==→eq,
  eq→==, ne→==, length, length-append, length-replicate,
}
use slirp4tinc.Prelude.Run.{ok, ok-injective}
use slirp4tinc.PrintfToStream.{
  has_flag, pad_right, pad_zero, pad_plus, printi, magnitude, finish, prints, digits, digit_char,
  buffer_space,
}
use slirp4tinc.PrintfToStream.Padding.{prints_lem, printed-eq, padded, fill}
use slirp4tinc.PrintfToStream.Digits.{digit_value, read_digits, digits_read}

-- A text of digits in the base, the letters of which begin with `letter`.
abbrev pub AreDigits : ℕ → ℕ → List ℕ → Type 0
AreDigits base letter [] = Unit
AreDigits base letter (c ∷ s) =
    (digit_char letter (digit_value letter c) ≡ c)
    × (digit_value letter c < base)
    × AreDigits base letter s

abbrev pub BeginsNonzero : List ℕ → Type 0
BeginsNonzero [] = ⊥
BeginsNonzero (c ∷ s) = c ≢ 48

-- The digits of a number that is not zero, without a zero in front.
abbrev pub IsNumeral : ℕ → ℕ → ℕ → List ℕ → Type 0
IsNumeral base letter u s =
    AreDigits base letter s × BeginsNonzero s × (read_digits base letter 0 s ≡ u) × (length s ≤ 20)

padded-length :
    (string : List ℕ) (width pad : ℕ)
    → (if leb width (length string) then length string else width)
      ≡ length (padded string width pad)
padded-length string width pad = elim (Bool-cases (has_flag pad pad_right)) [
  | inl e ↦ rw e (ground (arith, length-append string (fill (width - length string) pad), filled))
  | inr e ↦ rw e (ground (arith, length-append (fill (width - length string) pad) string, filled))
]
  where
    filled : length (fill (width - length string) pad) ≡ width - length string
    filled = length-replicate (width - length string) _

pub padded-short :
    (string : List ℕ) (width pad : ℕ) → length (padded string width pad) ≤ length string + width
padded-short string width pad = rw (← padded-length string width pad) (ground arith)

-- The text, padded to the width, and its length.
pub prints-padded :
    (string : List ℕ) (width pad : ℕ)
    → length string + width < 2 ^ 32
    → prints string width pad ≡ (length (padded string width pad), padded string width pad)
prints-padded string width pad less =
    prints_lem string width pad less ∙ printed-eq (padded-length string width pad) refl

-- A number's digits with their sign: padding with zeros goes between a minus sign and the digits,
-- and in front of a plus sign.
abbrev pub number_text : Bool → ℕ → ℕ → List ℕ → List ℕ
number_text true width pad s =
    if not (width == 0) && has_flag pad pad_zero
    then 45 ∷ padded s (width - 1) pad
    else padded (45 ∷ s) width pad
number_text false width pad s =
    if has_flag pad pad_plus then padded (43 ∷ s) width pad else padded s width pad

module _ (width pad left : ℕ) (s : List ℕ) (short : length s ≤ 20) (fits : width < 2 ^ 31) where
  finish-number_text :
      (neg : Bool)
      → finish neg width pad (suc left) s
        ≡ ok (length (number_text neg width pad s), number_text neg width pad s)
  unfolding finish
  finish-number_text true = elim (Bool-cases (not (width == 0) && has_flag pad pad_zero)) [
    | inl e ↦
        rw (e, prints-padded s (width - 1) pad (omega (arith, short, fits)))
          (ap ok (printed-eq (omega (arith, padded-short s (width - 1) pad, short, fits)) refl))
    | inr e ↦ rw (e, prints-padded (45 ∷ s) width pad (omega (arith, short, fits))) refl
  ]
  finish-number_text false = elim (Bool-cases (has_flag pad pad_plus)) [
    | inl e ↦ rw (e, prints-padded (43 ∷ s) width pad (omega (arith, short, fits))) refl
    | inr e ↦ rw (e, prints-padded s width pad (omega (arith, short, fits))) refl
  ]

-- The number zero has no sign.
abbrev pub NumberText : ℕ → ℕ → Bool → ℕ → ℕ → ℕ → List ℕ → Type 0
NumberText base letter neg u width pad t =
    ((u ≡ 0) × (t ≡ padded (48 ∷ []) width pad))
    ⊎ ((s : List ℕ) × IsNumeral base letter u s × (t ≡ number_text neg width pad s))

module _ (base letter : ℕ) (is_base : (base ≡ 10) ⊎ (base ≡ 16)) (letters : 58 ≤ letter) where
  digit_value_lem : (t : ℕ) → digit_value letter (digit_char letter t) ≡ t
  digit_value_lem t = ground (arith, letters)

  digit-below : (u : ℕ) → u % base < base
  digit-below u = elim is_base [ inl e ↦ rw e (omega arith) | inr e ↦ rw e (omega arith) ]

  digits-AreDigits :
      (space u : ℕ) (s : List ℕ) (left : ℕ) (out : List ℕ)
      → AreDigits base letter s
      → digits base letter space u s ≡ ok (left, out)
      → AreDigits base letter out
  unfolding digits
  digits-AreDigits zero u s left out before e =
      let same : s ≡ out = ground (arith, e) in subst (AreDigits base letter) same before
  digits-AreDigits (suc space) u s left out before e = elim (Bool-cases (u == 0)) [
    | inl h ↦
        let stopped : digits base letter (suc space) u s ≡ ok (suc space, s) = rw h refl in
        let same : s ≡ out = cc in subst (AreDigits base letter) same before
    | inr h ↦
        let next : digits base letter (suc space) u s
            ≡ digits base letter space (u / base) (digit_char letter (u % base) ∷ s) =
          rw h refl in
        let value = digit_value_lem (u % base) in
        digits-AreDigits space (u / base) (digit_char letter (u % base) ∷ s) left out
          (ap (digit_char letter) value, rw value (digit-below u), before) (sym next ∙ e)
  ]

  -- The last digit that is found is the first one.
  digits-BeginsNonzero :
      (space u : ℕ) (s : List ℕ) (left : ℕ) (out : List ℕ)
      → u ≢ 0
      → digits base letter space u s ≡ ok (left, out)
      → BeginsNonzero out
  unfolding digits
  digits-BeginsNonzero zero u s left out other e = absurd (ground (arith, e, other))
  digits-BeginsNonzero (suc space) u s left out other e = elim (Bool-cases (u / base == 0)) [
    | inl h ↦
        let last : digits base letter space (u / base) (digit_char letter (u % base) ∷ s)
            ≡ ok (space, digit_char letter (u % base) ∷ s) =
          stops space (u / base) _ (==→eq _ 0 h) in
        let same : digit_char letter (u % base) ∷ s ≡ out =
          ap (λ (r : ℕ × List ℕ). r.1) (ok-injective (sym last ∙ sym next ∙ e)) in
        subst BeginsNonzero same (is_digit (==→eq _ 0 h))
    | inr h ↦
        digits-BeginsNonzero space (u / base) (digit_char letter (u % base) ∷ s) left out
          (λ z. absurd (cc (eq→== (u / base) 0 z))) (sym next ∙ e)
  ]
    where
      next :
          digits base letter (suc space) u s
          ≡ digits base letter space (u / base) (digit_char letter (u % base) ∷ s)
      next = rw (ne→== u 0 other) refl

      stops : (k v : ℕ) (t : List ℕ) → v ≡ 0 → digits base letter k v t ≡ ok (k, t)
      stops zero v t z = rw z refl
      stops (suc k) v t z = rw z refl

      is_digit : u / base ≡ 0 → digit_char letter (u % base) ≢ 48
      is_digit z = λ zero_char. (elim is_base [
        | inl b ↦ ground (arith, b, z, zero_char, other, letters)
        | inr b ↦ ground (arith, b, z, zero_char, other, letters)
      ])

  IsNumeral-digits :
      (u : ℕ)
      → u ≢ 0
      → u < 2 ^ 64
      → (left : ℕ) × (s : List ℕ) × (digits base letter buffer_space u [] ≡ ok (suc left, s))
        × IsNumeral base letter u s
  IsNumeral-digits u other less =
      let (left, s, same, value, short) = digits_read base letter is_base letters u less in
      (
        left,
        s,
        same,
        (
          digits-AreDigits 21 u [] (suc left) s tt same,
          digits-BeginsNonzero 21 u [] (suc left) s other same,
          value,
          short,
        ),
      )

  -- What `printi` prints, with the sign and the magnitude that it finds.
  pub printi-NumberText :
      (i u width pad : ℕ) (sign neg : Bool)
      → (i ≡ 0 → u ≡ 0)
      → (u ≡ 0 → i ≡ 0)
      → u < 2 ^ 64
      → width < 2 ^ 31
      → magnitude i (sign && (base == 10)) pad ≡ ok (neg, u)
      → (t : List ℕ) × NumberText base letter neg u width pad t
        × (printi i base sign width pad letter ≡ ok (length t, t))
  unfolding printi
  printi-NumberText i u width pad sign neg nothing only less fits e = elim (Bool-cases (i == 0)) [
    | inl z ↦ (
      padded (48 ∷ []) width pad,
      inl (nothing (==→eq i 0 z), refl),
      rw (z, prints-padded (48 ∷ []) width pad (omega (arith, fits))) refl,
    )
    | inr other ↦
        let (left, s, same, numeral) =
          IsNumeral-digits u (λ z. absurd (cc (eq→== i 0 (only z)))) less in
        (
          number_text neg width pad s,
          inr (s, numeral, refl),
          rw (other, e, same, finish-number_text width pad left s numeral.3 fits neg) refl,
        )
  ]
