-- ===== src/PrintfToStream/Digits.antt =====
-- The digits that `printi` makes of a number.
use slirp4tinc.Prelude.{
  ℕ, zero, suc, ◌+◌, ◌-◌, ◌*◌, ◌/◌, ◌%◌, ◌^◌, ◌≤◌, ◌<◌, ◌≡◌, refl, ap, sym, ◌∙◌, ◌⊎◌, true, false,
  List, [], ◌∷◌, ◌++◌, replicate, arith, ◌==◌, if◌then◌else◌, ltb, Bool-cases, inl, inr, ==→eq,
  ne→==, length,
}
use mathlib.Core.Path.{subst}
use native.Mathlib.Numerals.{unary_clauses}
use slirp4tinc.Prelude.Run.{ok}
use slirp4tinc.PrintfToStream.{
  has_flag, pad_zero, pad_plus, pad_long, printi, magnitude, finish, prints, digits, digit_char,
  buffer_space,
}

-- What a digit's character stands for.
abbrev pub digit_value : ℕ → ℕ → ℕ
digit_value letter_base c = if ltb c 58 then c - 48 else c + 10 - letter_base

-- A number read from its digits, the first of which is the most significant one.
abbrev pub read_digits : ℕ → ℕ → ℕ → List ℕ → ℕ
read_digits base letter_base v [] = v
read_digits base letter_base v (c ∷ s) =
    read_digits base letter_base (v * base + digit_value letter_base c) s

-- Zeros in front of digits do not change the number that is read.
pub read-zeros :
    (base n : ℕ) (s : List ℕ)
    → read_digits base 97 0 (replicate n 48 ++ s) ≡ read_digits base 97 0 s
read-zeros base zero s = refl
read-zeros base (suc n) s =
    let nothing : 0 * base + 0 ≡ 0 = omega arith in
    ap (λ (v : ℕ). read_digits base 97 v (replicate n 48 ++ s)) nothing ∙ read-zeros base n s

pub power : (n : ℕ) → 10 ^ suc n ≡ 10 * 10 ^ n
power n = simp unary_clauses (omega arith)

module _ (base letter_base : ℕ) (is_base : (base ≡ 10) ⊎ (base ≡ 16))
    (letters : 58 ≤ letter_base) where
  pub shorter : (u k : ℕ) → u < 10 * k → u / base < k
  shorter u k h = elim is_base [ inl e ↦ rw e (omega (arith, h)) | inr e ↦ rw e (omega (arith, h)) ]

  put_together :
      (u : ℕ) → u / base * base + digit_value letter_base (digit_char letter_base (u % base)) ≡ u
  put_together u = elim is_base [
    | inl e ↦ rw e (ground (arith, letters))
    | inr e ↦ rw e (ground (arith, letters))
  ]

  digits_lem :
      (space u : ℕ) (s : List ℕ)
      → u < 10 ^ space
      → (left : ℕ) × (out : List ℕ) × (digits base letter_base space u s ≡ ok (left, out))
        × (read_digits base letter_base 0 out ≡ read_digits base letter_base u s)
  unfolding digits
  digits_lem zero u s h =
      let none : u ≡ 0 = omega (arith, h) in
      (0, s, rw none, ap (λ (k : ℕ). read_digits base letter_base k s) (sym none))
  digits_lem (suc space) u s h = elim (Bool-cases (u == 0)) [
    | inl e ↦
        (suc space, s, rw e, ap (λ (k : ℕ). read_digits base letter_base k s) (sym (==→eq u 0 e)))
    | inr e ↦
        let (left, out, same, value) =
          digits_lem space (u / base) (digit_char letter_base (u % base) ∷ s)
            (shorter u (10 ^ space) (omega (arith, h, power space))) in
        (
          left,
          out,
          rw e same,
          value ∙ ap (λ (k : ℕ). read_digits base letter_base k s) (put_together u),
        )
  ]

  digits_room :
      (space u : ℕ) (s : List ℕ) (left : ℕ) (out : List ℕ)
      → digits base letter_base space u s ≡ ok (left, out)
      → digits base letter_base (suc space) u s ≡ ok (suc left, out)
  unfolding digits
  digits_room zero u s left out e = ground (arith, e)
  digits_room (suc space) u s left out e =
      ground
        (arith, e, digits_room space (u / base) (digit_char letter_base (u % base) ∷ s) left out)

  digits-length :
      (space u : ℕ) (s : List ℕ) (left : ℕ) (out : List ℕ)
      → digits base letter_base space u s ≡ ok (left, out)
      → left + length out ≡ space + length s
  unfolding digits
  digits-length zero u s left out e = ground (arith, e)
  digits-length (suc space) u s left out e =
      ground
        (arith, e, digits-length space (u / base) (digit_char letter_base (u % base) ∷ s) left out)

  -- Every 64-bit number has digits in base 10 and in base 16 that fit into the buffer of `printi`
  -- and leave room for a sign, and, if the letter for ten is no digit, the number can be read back
  -- from them. They are at most 20.
  pub digits_read :
      (u : ℕ)
      → u < 2 ^ 64
      → (left : ℕ) × (out : List ℕ) × (digits base letter_base buffer_space u []
          ≡ ok (suc left, out))
        × (read_digits base letter_base 0 out ≡ u)
        × (length out ≤ 20)
  digits_read u h =
      let (left, out, same, value) = digits_lem 20 u [] (omega (arith, h)) in
      (
        left,
        out,
        digits_room 20 u [] left out same,
        value,
        omega (arith, digits-length 20 u [] left out same),
      )

module _ (pad : ℕ) (long : has_flag pad pad_long ≡ false) where
  magnitude_positive : (n : ℕ) → n < 2 ^ 31 → magnitude n true pad ≡ ok (false, n)
  unfolding magnitude
  magnitude_positive n less = rw long (ground (arith, less))

  magnitude_negative : (n : ℕ) → 0 < n → n < 2 ^ 31 → magnitude (2 ^ 64 - n) true pad ≡ ok (true, n)
  unfolding magnitude
  magnitude_negative n more less = rw long (ground (arith, more, less))

pub finish_positive :
    (width pad space : ℕ) (s : List ℕ)
    → has_flag pad pad_plus ≡ false
    → finish false width pad space s ≡ ok (prints s width pad)
unfolding finish
finish_positive width pad space s plus = rw plus

pub finish_negative :
    (width pad left : ℕ) (s : List ℕ)
    → has_flag pad pad_zero ≡ false
    → finish true width pad (suc left) s ≡ ok (prints (45 ∷ s) width pad)
unfolding finish
finish_negative width pad left s zeros = elim (Bool-cases (width == 0)) [
  | inl e ↦ rw e
  | inr e ↦ rw (e, zeros)
]

-- A text of decimal digits.
abbrev pub IsDigits : List ℕ → Type 0
IsDigits [] = Unit
IsDigits (c ∷ s) = (48 ≤ c) × (c < 58) × IsDigits s

pub digits-IsDigits :
    (space u : ℕ) (s : List ℕ) (left : ℕ) (out : List ℕ)
    → IsDigits s
    → digits 10 97 space u s ≡ ok (left, out)
    → IsDigits out
unfolding digits
digits-IsDigits zero u s left out before e =
    let same : s ≡ out = ground (arith, e) in subst IsDigits same before
digits-IsDigits (suc space) u s left out before e = elim (Bool-cases (u == 0)) [
  | inl h ↦
      let stopped : digits 10 97 (suc space) u s ≡ ok (suc space, s) = rw h refl in
      let same : s ≡ out = cc in subst IsDigits same before
  | inr h ↦
      let next : digits 10 97 (suc space) u s
          ≡ digits 10 97 space (u / 10) (digit_char 97 (u % 10) ∷ s) =
        rw h refl in
      digits-IsDigits space (u / 10) (digit_char 97 (u % 10) ∷ s) left out
        (ground arith, ground arith, before) (sym next ∙ e)
]

-- `printi` in base 10 of a positive `int` and of its negation, in any width, without the flags for
-- zeros, a plus sign and a `long`, and with a letter for ten that is no digit: both return, the
-- number is put as its digits, at most 20, from which it can be read back, and the negation as the same digits
-- behind a minus sign.
pub printi_decimal :
    (n width pad letter_base : ℕ)
    → 0 < n
    → n < 2 ^ 31
    → 58 ≤ letter_base
    → has_flag pad pad_zero ≡ false
    → has_flag pad pad_plus ≡ false
    → has_flag pad pad_long ≡ false
    → (s : List ℕ) × (read_digits 10 letter_base 0 s ≡ n)
      × (length s ≤ 20)
      × (printi n 10 true width pad letter_base ≡ ok (prints s width pad))
      × (printi (2 ^ 64 - n) 10 true width pad letter_base ≡ ok (prints (45 ∷ s) width pad))
unfolding printi
printi_decimal n width pad letter_base more less letters zeros plus long =
    let (left, s, same, value, short) =
      digits_read 10 letter_base (inl refl) letters n (omega (arith, less)) in
    (
      s,
      value,
      short,
      rw (
        ne→== n 0 (λ e. omega (arith, e, more)),
        magnitude_positive pad long n less,
        same,
        finish_positive width pad (suc left) s plus,
      ),
      rw (
        ne→== (2 ^ 64 - n) 0 (λ e. omega (arith, e, less)),
        magnitude_negative pad long n more less,
        same,
        finish_negative width pad left s zeros,
      ),
    )
