-- ===== src/PrintfToStream/Format/Hex.antt =====
-- `vprintf` of the formats of a dump: a byte, an address, and a character.
use mathlib.Core.List.{append_assoc}
use mathlib.Core.Path.{subst}
use slirp4tinc.Prelude.{
  ℕ, zero, suc, ◌+◌, ◌-◌, ◌/◌, ◌%◌, ◌^◌, ◌≤◌, ◌<◌, ◌≡◌, ◌≢◌, refl, ap, sym, ◌∙◌, false, List, [],
  ◌∷◌, ◌++◌, arith, ◌==◌, leb, Bool-cases, inl, inr, ne→==, ==→eq, eq→==, length, replicate,
  length-append, length-replicate, lt→ltb,
}
use slirp4tinc.Prelude.Run.{ok, ok-injective}
use slirp4tinc.PrintfToStream.{printi, prints, digits, digit_char, magnitude}
use slirp4tinc.PrintfToStream.Padding.{prints_lem, printed-eq}
use slirp4tinc.PrintfToStream.Digits.{read_digits, digits_read, finish_positive, read-zeros}
use slirp4tinc.PrintfToStream.Decimal.{printi-finish}
use slirp4tinc.PrintfToStream.Float.{Doubles}
use slirp4tinc.PrintfToStream.Format.{int_argument, long_argument, sign_extend, vprintf, scr_lem}

-- Two digits and a blank.
abbrev pub byte_text : ℕ → List ℕ
byte_text b = digit_char 97 (b / 16) ∷ digit_char 97 (b % 16) ∷ 32 ∷ []

digits_zero : (space : ℕ) (s : List ℕ) → digits 16 97 space 0 s ≡ ok (space, s)
unfolding digits
digits_zero zero s = refl
digits_zero (suc space) s = refl

digits_one :
    (space u : ℕ) (s : List ℕ)
    → u ≢ 0
    → digits 16 97 (suc space) u s ≡ digits 16 97 space (u / 16) (digit_char 97 (u % 16) ∷ s)
unfolding digits
digits_one space u s other = rw (ne→== u 0 other) refl

low_digits : (b : ℕ) → b ≢ 0 → b < 16 → digits 16 97 21 b [] ≡ ok (20, digit_char 97 b ∷ [])
low_digits b other low =
    digits_one 20 b [] other
    ∙ ap (λ (q : ℕ). digits 16 97 20 q (digit_char 97 (b % 16) ∷ [])) (omega (arith, low))
    ∙ digits_zero 20 (digit_char 97 (b % 16) ∷ [])
    ∙ ap (λ (t : ℕ). ok (20, digit_char 97 t ∷ [])) (omega (arith, low))

high_digits :
    (b : ℕ)
    → 16 ≤ b
    → b < 2 ^ 8
    → digits 16 97 21 b [] ≡ ok (19, digit_char 97 (b / 16) ∷ digit_char 97 (b % 16) ∷ [])
high_digits b high less =
    digits_one 20 b [] (λ e. omega (arith, e, high))
    ∙ digits_one 19 (b / 16) (digit_char 97 (b % 16) ∷ []) (λ e. omega (arith, e, high))
    ∙ ap (λ (q : ℕ). digits 16 97 19 q (digit_char 97 (b / 16 % 16) ∷ digit_char 97 (b % 16) ∷ []))
        (omega (arith, less))
    ∙ digits_zero 19 (digit_char 97 (b / 16 % 16) ∷ digit_char 97 (b % 16) ∷ [])
    ∙ ap (λ (t : ℕ). ok (19, digit_char 97 t ∷ digit_char 97 (b % 16) ∷ [])) (omega (arith, less))

sign_extend_byte : (b : ℕ) → b < 2 ^ 8 → sign_extend b ≡ b
sign_extend_byte b less = ground (arith, less)

unsigned_magnitude : (b : ℕ) → b < 2 ^ 32 → magnitude b false 2 ≡ ok (false, b)
unfolding magnitude
unsigned_magnitude b less = ap (λ (k : ℕ). ok (false, k)) (omega (arith, less))

abbrev IsByteText : ℕ → Type 0
IsByteText b =
    printi b 16 false 2 2 97 ≡ ok (2, digit_char 97 (b / 16) ∷ digit_char 97 (b % 16) ∷ [])

zero_byte : IsByteText 0
unfolding printi prints
zero_byte = refl

low_byte : (b : ℕ) → b ≢ 0 → b < 16 → IsByteText b
unfolding prints
low_byte b other low =
    let first : 0 ≡ b / 16 = omega (arith, low) in
    let second : b ≡ b % 16 = omega (arith, low) in
    printi-finish 16 b b 2 2 20 false false (digit_char 97 b ∷ []) other
      (unsigned_magnitude b (omega (arith, low))) (low_digits b other low)
    ∙ finish_positive 2 2 20 (digit_char 97 b ∷ []) refl
    ∙ ap (λ (t : ℕ). ok (2, digit_char 97 t ∷ digit_char 97 b ∷ [])) first
    ∙ ap (λ (t : ℕ). ok (2, digit_char 97 (b / 16) ∷ digit_char 97 t ∷ [])) second

high_byte : (b : ℕ) → 16 ≤ b → b < 2 ^ 8 → IsByteText b
unfolding prints
high_byte b high less =
    let s = digit_char 97 (b / 16) ∷ digit_char 97 (b % 16) ∷ [] in
    printi-finish 16 b b 2 2 19 false false s (λ e. omega (arith, e, high))
      (unsigned_magnitude b (omega (arith, less))) (high_digits b high less)
    ∙ finish_positive 2 2 19 s refl

printi_byte : (b : ℕ) → b < 2 ^ 8 → IsByteText b
printi_byte b less = elim (Bool-cases (b == 0)) [
  | inl e ↦ subst IsByteText (sym (==→eq b 0 e)) zero_byte
  | inr e ↦ elim (Bool-cases (leb 16 b)) [
    | inl high ↦ high_byte b (ground (arith, high)) less
    | inr low ↦ low_byte b (λ h. absurd (cc (eq→== b 0 h))) (ground (arith, low))
  ]
]

-- Every character is one of 0 to 9 and a to f.
abbrev pub AreHexDigits : List ℕ → Type 0
AreHexDigits [] = Unit
AreHexDigits (c ∷ s) = ((d : ℕ) × (d < 16) × (c ≡ digit_char 97 d)) × AreHexDigits s

digits-AreHexDigits :
    (space u : ℕ) (s t : List ℕ) (left : ℕ)
    → AreHexDigits s
    → digits 16 97 space u s ≡ ok (left, t)
    → AreHexDigits t
unfolding digits
digits-AreHexDigits zero u s t left hex e = elim (Bool-cases (u == 0)) [
  | inl z ↦ subst AreHexDigits (ap (λ (r : ℕ × List ℕ). r.1) (ok-injective (rw z at e))) hex
  | inr z ↦ absurd (let e' = rw z at e in cc)
]
digits-AreHexDigits (suc space) u s t left hex e = elim (Bool-cases (u == 0)) [
  | inl z ↦ subst AreHexDigits (ap (λ (r : ℕ × List ℕ). r.1) (ok-injective (rw z at e))) hex
  | inr z ↦
      digits-AreHexDigits space (u / 16) (digit_char 97 (u % 16) ∷ s) t left
        ((u % 16, omega arith, refl), hex) (rw z at e)
]

zeros-AreHexDigits : (n : ℕ) (s : List ℕ) → AreHexDigits s → AreHexDigits (replicate n 48 ++ s)
zeros-AreHexDigits zero s hex = hex
zeros-AreHexDigits (suc n) s hex = ((0, omega arith, refl), zeros-AreHexDigits n s hex)

-- An address in at least eight hexadecimal digits.
abbrev pub IsAddress : ℕ → List ℕ → Type 0
IsAddress a s = AreHexDigits s × (read_digits 16 97 0 s ≡ a) × (8 ≤ length s) × (length s ≤ 20)

IsAddress-text :
    (a : ℕ) (s : List ℕ)
    → AreHexDigits s
    → read_digits 16 97 0 s ≡ a
    → length s ≤ 20
    → (t : List ℕ) × IsAddress a t × (prints s 8 130 ≡ (length t, t))
IsAddress-text a s hex value short =
    let t = replicate (8 - length s) 48 ++ s in
    let long : length t ≡ 8 - length s + length s =
      length-append (replicate (8 - length s) 48) s
      ∙ omega (arith, length-replicate {A = ℕ} (8 - length s) 48) in
    (
      t,
      (
        zeros-AreHexDigits (8 - length s) s hex,
        read-zeros 16 (8 - length s) s ∙ value,
        omega (arith, long),
        omega (arith, long, short),
      ),
      prints_lem s 8 130 (omega (arith, short)) ∙ printed-eq (ground (arith, long)) refl,
    )

long_magnitude : (a : ℕ) → magnitude a false 130 ≡ ok (false, a)
unfolding magnitude
long_magnitude a = refl

zero_address : printi 0 16 false 8 130 97 ≡ ok (prints (48 ∷ []) 8 130)
unfolding printi
zero_address = refl

printi-IsAddress :
    (a : ℕ)
    → a < 2 ^ 64
    → (t : List ℕ) × IsAddress a t × (printi a 16 false 8 130 97 ≡ ok (length t, t))
printi-IsAddress a less = elim (Bool-cases (a == 0)) [
  | inl e ↦
      let none : a ≡ 0 = ==→eq a 0 e in
      let (t, address, same) =
        IsAddress-text a (48 ∷ []) ((0, omega arith, refl), tt) (sym none) (omega arith) in
      (t, address, ap (λ (v : ℕ). printi v 16 false 8 130 97) none ∙ zero_address ∙ ap ok same)
  | inr e ↦
      let (left, s, same, value, short) = digits_read 16 97 (inr refl) (omega arith) a less in
      let (t, address, shown) =
        IsAddress-text a s (digits-AreHexDigits _ a [] s _ tt same) value short in
      (
        t,
        address,
        printi-finish 16 a a 8 130 (suc left) false false s (λ h. absurd (cc (eq→== a 0 h)))
              (long_magnitude a) same
            ∙ finish_positive 8 130 (suc left) s refl
            ∙ ap ok shown,
      )
]

module _ {D : Type 0} (doubles : Doubles D) where
  -- "%02x "
  pub vprintf_byte :
      (b : ℕ)
      → b < 2 ^ 8
      → vprintf doubles (37 ∷ 48 ∷ 50 ∷ 120 ∷ 32 ∷ []) (int_argument b ∷ []) ≡ ok (3, byte_text b)
  unfolding vprintf
  vprintf_byte b less = rw (sign_extend_byte b less, printi_byte b less) refl

  -- "%08lx: "
  pub vprintf-IsAddress :
      (a : ℕ)
      → a < 2 ^ 64
      → (t : List ℕ) × IsAddress a t
        × (vprintf doubles (37 ∷ 48 ∷ 56 ∷ 108 ∷ 120 ∷ 58 ∷ 32 ∷ []) (long_argument a ∷ [])
            ≡ ok (length t + 2, t ++ 58 ∷ 32 ∷ []))
  unfolding vprintf
  vprintf-IsAddress a less =
      let (t, address, e) = printi-IsAddress a less in
      (
        t,
        address,
        rw
            (
              e,
              lt→ltb (0 + length t) (2 ^ 31) (omega (arith, address.3)),
              lt→ltb (0 + length t + 1) (2 ^ 31) (omega (arith, address.3)),
              lt→ltb (0 + length t + 1 + 1) (2 ^ 31) (omega (arith, address.3)),
            )
            (ap ok (printed-eq (omega (arith, address.3)) (append_assoc t (58 ∷ []) (32 ∷ [])))),
      )

  -- "%c"
  pub vprintf_character :
      (c : ℕ)
      → 0 < c
      → c < 2 ^ 8
      → vprintf doubles (37 ∷ 99 ∷ []) (int_argument c ∷ []) ≡ ok (1, c ∷ [])
  unfolding vprintf prints
  vprintf_character c more less = rw (scr_lem doubles c more less) refl

  -- Texts without a percent sign.
  pub vprintf_blanks : vprintf doubles (32 ∷ 32 ∷ 32 ∷ []) [] ≡ ok (3, 32 ∷ 32 ∷ 32 ∷ [])
  unfolding vprintf
  vprintf_blanks = refl

  pub vprintf_blank : vprintf doubles (32 ∷ []) [] ≡ ok (1, 32 ∷ [])
  unfolding vprintf
  vprintf_blank = refl

  pub vprintf_newline : vprintf doubles (10 ∷ []) [] ≡ ok (1, 10 ∷ [])
  unfolding vprintf
  vprintf_newline = refl
