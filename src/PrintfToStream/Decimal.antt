-- ===== src/PrintfToStream/Decimal.antt =====
-- A number that `printi` prints in base 10, in any width and without flags.
use slirp4tinc.Prelude.{
  ℕ, suc, ◌+◌, ◌-◌, ◌^◌, ◌≤◌, ◌<◌, ◌≡◌, ◌≢◌, refl, ap, ◌∙◌, Bool, true, false, List, [], ◌∷◌, ◌++◌,
  ◌&&◌, ◌==◌, arith, inl, ne→==, length,
}
use slirp4tinc.Prelude.Run.{ok}
use slirp4tinc.PrintfToStream.{printi, magnitude, prints, finish, digits, buffer_space}
use slirp4tinc.PrintfToStream.Padding.{prints_lem, printed-eq, fill}
use slirp4tinc.PrintfToStream.Digits.{
  read_digits, digits_read, IsDigits, digits-IsDigits, finish_positive, finish_negative,
}

-- A text of at most 20 decimal digits, from which a number is read.
abbrev pub IsDecimal : ℕ → List ℕ → Type 0
IsDecimal n s = IsDigits s × (read_digits 10 97 0 s ≡ n) × (length s ≤ 20)

-- Behind a minus sign, or not.
abbrev pub signed_text : Bool → List ℕ → List ℕ
signed_text true s = 45 ∷ s
signed_text false s = s

pub signed_text_short : (neg : Bool) (s : List ℕ) → length (signed_text neg s) ≤ length s + 1
signed_text_short true s = omega arith
signed_text_short false s = omega arith

finish_text :
    (neg : Bool) (width left : ℕ) (s : List ℕ)
    → finish neg width 0 (suc left) s ≡ ok (prints (signed_text neg s) width 0)
finish_text true width left s = finish_negative width 0 left s refl
finish_text false width left s = finish_positive width 0 (suc left) s refl

pub IsDecimal-digits :
    (u : ℕ)
    → u < 2 ^ 64
    → (left : ℕ) × (s : List ℕ) × (digits 10 97 buffer_space u [] ≡ ok (suc left, s))
      × IsDecimal u s
IsDecimal-digits u less =
    let (left, s, same, value, short) = digits_read 10 97 (inl refl) (omega arith) u less in
    (left, s, same, (digits-IsDigits 21 u [] (suc left) s tt same, value, short))

pub prints_plain : (s : List ℕ) → length s < 2 ^ 32 → prints s 0 0 ≡ (length s, s)
prints_plain s less =
    let none : 0 - length s ≡ 0 = omega arith in
    prints_lem s 0 0 (omega (arith, less))
    ∙ printed-eq (ground arith) (ap (λ (k : ℕ). fill k 0 ++ s) none)

-- `printi` of a number that is not zero.
pub printi-finish :
    (base i u width pad space : ℕ) (sign neg : Bool) (s : List ℕ)
    → i ≢ 0
    → magnitude i (sign && (base == 10)) pad ≡ ok (neg, u)
    → digits base 97 buffer_space u [] ≡ ok (space, s)
    → printi i base sign width pad 97 ≡ finish neg width pad space s
unfolding printi
printi-finish base i u width pad space sign neg s other e same = rw (ne→== i 0 other, e, same) refl

pub printi_digits :
    (i u width : ℕ) (sign neg : Bool)
    → i ≢ 0
    → u < 2 ^ 64
    → magnitude i (sign && true) 0 ≡ ok (neg, u)
    → (s : List ℕ) × IsDecimal u s
      × (printi i 10 sign width 0 97 ≡ ok (prints (signed_text neg s) width 0))
printi_digits i u width sign neg other less e =
    let (left, s, same, decimal) = IsDecimal-digits u less in
    (
      s,
      decimal,
      printi-finish 10 i u width 0 (suc left) sign neg s other e same
          ∙ finish_text neg width left s,
    )
