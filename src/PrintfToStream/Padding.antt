-- ===== src/PrintfToStream/Padding.antt =====
-- What `prints` makes of a string and a width.
use mathlib.Core.List.{append-nil, append_assoc}
use slirp4tinc.Prelude.{
  ℕ, zero, suc, ◌+◌, ◌-◌, ◌^◌, ◌<◌, ◌≡◌, ap, sym, ◌∙◌, List, [], ◌∷◌, ◌++◌, arith, if◌then◌else◌,
  leb, length, replicate, Bool-cases, inl, inr,
}
use slirp4tinc.PrintfToStream.{
  Printed, put_padding, put_string, padding_char, padding_width, has_flag, pad_right, pad_zero,
  prints,
}

pub printed-eq : {a b : ℕ} {l m : List ℕ} → a ≡ b → l ≡ m → ◌≡◌ {A = Printed} (a, l) (b, m)
printed-eq e f = cc

put_padding_lem :
    (width c pc : ℕ) (out : List ℕ)
    → pc + width < 2 ^ 32
    → put_padding width c (pc, out) ≡ (pc + width, out ++ replicate width c)
unfolding put_padding
put_padding_lem zero c pc out h = printed-eq (omega arith) (sym (append-nil out))
put_padding_lem (suc width) c pc out h =
    ap (λ (k : ℕ). put_padding width c (k, out ++ c ∷ [])) (omega (arith, h))
    ∙ put_padding_lem width c (pc + 1) (out ++ c ∷ []) (omega (arith, h))
    ∙ printed-eq (omega arith) (append_assoc out (c ∷ []) (replicate width c))

put_string_lem :
    (string : List ℕ) (pc : ℕ) (out : List ℕ)
    → pc + length string < 2 ^ 32
    → put_string string (pc, out) ≡ (pc + length string, out ++ string)
unfolding put_string
put_string_lem [] pc out h = printed-eq (omega arith) (sym (append-nil out))
put_string_lem (c ∷ string) pc out h =
    ap (λ (k : ℕ). put_string string (k, out ++ c ∷ [])) (omega (arith, h))
    ∙ put_string_lem string (pc + 1) (out ++ c ∷ []) (omega (arith, h))
    ∙ printed-eq (omega arith) (append_assoc out (c ∷ []) string)

-- A string padded to a width: with zeros if the flag for it is set, and with blanks otherwise.
abbrev pub fill : ℕ → ℕ → List ℕ
fill n pad = replicate n (if has_flag pad pad_zero then 48 else 32)

abbrev pub padded : List ℕ → ℕ → ℕ → List ℕ
padded string width pad =
    if has_flag pad pad_right
    then string ++ fill (width - length string) pad
    else fill (width - length string) pad ++ string

width-eq : (string : List ℕ) (width : ℕ) → padding_width string width ≡ width - length string
width-eq string width = ground arith

fill-eq :
    (string : List ℕ) (width pad : ℕ)
    → replicate (padding_width string width) (padding_char width pad)
      ≡ fill (width - length string) pad
fill-eq string zero pad =
    let none : padding_width string 0 ≡ 0 = ground arith in
    let less : 0 - length string ≡ 0 = omega arith in
    ap (λ (k : ℕ). replicate k (padding_char 0 pad)) none ∙ ap (λ (k : ℕ). fill k pad) (sym less)
fill-eq string (suc width) pad =
    let char : padding_char (suc width) pad ≡ (if has_flag pad pad_zero then 48 else 32) =
      ground arith in
    ap (λ (k : ℕ). replicate k (padding_char (suc width) pad)) (width-eq string (suc width))
    ∙ ap (λ (c : ℕ). replicate (suc width - length string) c) char

-- If the length and the width are less than 2 ^ 32 together, `prints` puts the string, padded to
-- the width on the side that the flags say, and returns the number of characters that it put.
pub prints_lem :
    (string : List ℕ) (width pad : ℕ)
    → length string + width < 2 ^ 32
    → prints string width pad
      ≡ (if leb width (length string) then length string else width, padded string width pad)
unfolding prints
prints_lem string width pad h = elim (Bool-cases (has_flag pad pad_right)) [
  | inl e ↦ rw e (
      ap (put_padding (padding_width string width) (padding_char width pad))
        (put_string_lem string 0 [] (omega (arith, h)))
      ∙ put_padding_lem (padding_width string width) (padding_char width pad) (0 + length string)
          ([] ++ string) (ground (arith, h))
      ∙ printed-eq (ground arith) (ap (λ (l : List ℕ). string ++ l) (fill-eq string width pad)))
  | inr e ↦ rw e (
      ap (put_string string) (
        put_padding_lem (padding_width string width) (padding_char width pad) 0 []
          (ground (arith, h)))
      ∙ put_string_lem string (0 + padding_width string width)
          ([] ++ replicate (padding_width string width) (padding_char width pad))
          (ground (arith, h))
      ∙ printed-eq (ground arith) (ap (λ (l : List ℕ). l ++ string) (fill-eq string width pad)))
]
