-- ===== src/HexdumpToByteStream/Cells.antt =====
-- The cells of a row.
use mathlib.Core.List.{append-nil, append_assoc}
use slirp4tinc.Prelude.{
  Option, none, get_elem?_beyond, get_elem?_within, ℕ, zero, suc, ◌+◌, ◌%◌, ◌^◌, ◌≤◌, ◌<◌, ◌≡◌,
  refl, ap, sym, ◌∙◌, Bool, true, false, List, [], ◌∷◌, ◌++◌, arith, if◌then◌else◌, ltb, get_elem?,
  some, length, length-append, take, drop, get_elem?-take, length-take, inl, inr, Bool-cases,
}
use slirp4tinc.Prelude.Run.{Run, ok, ◌>>=◌}
use slirp4tinc.PrintfToStream.{Printed}
use slirp4tinc.PrintfToStream.Padding.{printed-eq}
use slirp4tinc.PrintfToStream.Float.{Doubles}
use slirp4tinc.PrintfToStream.Format.{Arguments, vprintf}
use slirp4tinc.PrintfToStream.Format.Hex.{
  byte_text, vprintf_byte, vprintf_character, vprintf_blanks,
}
use slirp4tinc.HexdumpToByteStream.{count_printf, hex_cell, char_cell, cell_loop}

-- A cell of the dump for a byte, or for none behind the last one: its two digits and a blank, or
-- three blanks, and the byte itself, or a point if it is not printable.
abbrev pub hex_show : Option ℕ → List ℕ
hex_show none = 32 ∷ 32 ∷ 32 ∷ []
hex_show (some b) = byte_text b

abbrev pub char_show : (ℕ → Bool) → Option ℕ → List ℕ
char_show isprint none = []
char_show isprint (some b) = (if isprint b then b else 46) ∷ []

-- `n` cells for the first bytes of a list.
abbrev pub cells : (Option ℕ → List ℕ) → ℕ → List ℕ → List ℕ
cells show zero bytes = []
cells show (suc n) [] = show none ++ cells show n []
cells show (suc n) (b ∷ bytes) = show (some b) ++ cells show n bytes

cells_step :
    (show : Option ℕ → List ℕ) (n : ℕ) (bytes : List ℕ) (k : ℕ)
    → cells show (suc n) (drop k bytes)
      ≡ show (get_elem? bytes k) ++ cells show n (drop (suc k) bytes)
cells_step show n [] zero = refl
cells_step show n [] (suc k) = refl
cells_step show n (b ∷ bytes) zero = refl
cells_step show n (b ∷ bytes) (suc k) = cells_step show n bytes k

abbrev pub AreBytes : List ℕ → Type 0
AreBytes [] = Unit
AreBytes (b ∷ bytes) = (b < 2 ^ 8) × AreBytes bytes

byte_less : (buf : List ℕ) (k b : ℕ) → AreBytes buf → get_elem? buf k ≡ some b → b < 2 ^ 8
byte_less [] k b h found = cc
byte_less (x ∷ buf) zero b h found = ground (arith, h, found)
byte_less (x ∷ buf) (suc k) b h found = byte_less buf k b h.1 found

-- What has been put, with `t` behind it.
abbrev pub put : List ℕ → Printed → Printed
put t (c, out) = ((c + length t) % 2 ^ 32, out ++ t)

put-append : (s t : List ℕ) (o : Printed) → put t (put s o) ≡ put (s ++ t) o
put-append s t (c, out) = printed-eq (omega (arith, length-append s t)) (append_assoc out s t)

-- The action returns and puts `t`.
abbrev pub Puts : (Printed → Run Printed) → List ℕ → Type 0
Puts action t = (o : Printed) → o.0 < 2 ^ 32 → action o ≡ ok (put t o)

pub Puts->>= :
    (first second : Printed → Run Printed) (s t : List ℕ)
    → Puts first s
    → Puts second t
    → Puts (λ o. first o >>= second) (s ++ t)
Puts->>= first second s t h k o small =
    rw (h o small) (k (put s o) (omega arith) ∙ ap ok (put-append s t o))

pub Puts-nothing : Puts ok []
Puts-nothing o small = ap ok (printed-eq (omega (arith, small)) (sym (append-nil o.1)))

nonzero : (isprint : ℕ → Bool) → isprint 0 ≡ false → (b : ℕ) → isprint b ≡ true → 0 < b
nonzero isprint nul zero e = cc
nonzero isprint nul (suc b) e = omega arith

-- A character that is put is not the terminating zero.
shown_character :
    (isprint : ℕ → Bool)
    → isprint 0 ≡ false
    → (b : ℕ) → b < 2 ^ 8
    → (0 < (if isprint b then b else 46)) × ((if isprint b then b else 46) < 2 ^ 8)
shown_character isprint nul b less = elim (Bool-cases (isprint b)) [
  | inl e ↦ rw e (nonzero isprint nul b e, less)
  | inr e ↦ rw e (omega arith, omega arith)
]

pub not_less : (k d : ℕ) → d ≤ k → ltb k d ≡ false
not_less k d more = ground (arith, more)

module _ {D : Type 0} (doubles : Doubles D) (isprint : ℕ → Bool) (nul : isprint 0 ≡ false)
    (buf : List ℕ) (dumplen : ℕ) (bytes : AreBytes buf) (enough : dumplen ≤ length buf) where
  pub count_printf-Puts :
      (format : List ℕ) (args : Arguments doubles) (t : List ℕ)
      → vprintf doubles format args ≡ ok (length t, t)
      → Puts (count_printf doubles isprint buf dumplen format args) t
  unfolding count_printf
  count_printf-Puts format args t e o small = rw e refl

  -- The byte of an index, of those that are dumped.
  abbrev pub dumped : List ℕ
  dumped = take dumplen buf

  inside :
      (k : ℕ)
      → ltb k dumplen ≡ true
      → (b : ℕ) × (get_elem? dumped k ≡ some b) × (get_elem? buf k ≡ some b) × (b < 2 ^ 8)
  inside k e =
      let (b, found) =
        get_elem?_within dumped k (ground (arith, e, length-take dumplen buf enough)) in
      let there = get_elem?-take dumplen buf k found in
      (b, found, there, byte_less buf k b bytes there)

  outside : (k : ℕ) → ltb k dumplen ≡ false → get_elem? dumped k ≡ none
  outside k e = get_elem?_beyond dumped k (ground (arith, e, length-take dumplen buf enough))

  pub hex_cell-Puts :
      (k : ℕ) → Puts (hex_cell doubles isprint buf dumplen k) (hex_show (get_elem? dumped k))
  unfolding hex_cell
  hex_cell-Puts k o small = elim (Bool-cases (ltb k dumplen)) [
    | inl e ↦
        let (b, found, there, less) = inside k e in
        rw (e, found, there)
          (count_printf-Puts _ _ (byte_text b) (vprintf_byte doubles b less) o small)
    | inr e ↦
        rw (e, outside k e)
          (count_printf-Puts _ _ (32 ∷ 32 ∷ 32 ∷ []) (vprintf_blanks doubles) o small)
  ]

  pub char_cell-Puts :
      (k : ℕ)
      → Puts (char_cell doubles isprint buf dumplen k) (char_show isprint (get_elem? dumped k))
  unfolding char_cell
  char_cell-Puts k o small = elim (Bool-cases (ltb k dumplen)) [
    | inl e ↦
        let (b, found, there, less) = inside k e in
        let c = if isprint b then b else 46 in
        let (more, low) = shown_character isprint nul b less in
        rw (e, found, there)
          (count_printf-Puts _ _ (c ∷ []) (vprintf_character doubles c more low) o small)
    | inr e ↦ rw (e, outside k e) (Puts-nothing o small)
  ]

  pub cell_loop-Puts :
      (cell : ℕ → Printed → Run Printed) (show : Option ℕ → List ℕ)
      → ((k : ℕ) → Puts (cell k) (show (get_elem? dumped k)))
      → (n i j : ℕ) → i + j + n < 2 ^ 32
      → Puts (cell_loop doubles isprint buf dumplen cell n i j) (cells show n (drop (i + j) dumped))
  unfolding cell_loop
  cell_loop-Puts cell show each zero i j room o small = Puts-nothing o small
  cell_loop-Puts cell show each (suc n) i j room o small =
      let here : (i + j) % 2 ^ 32 ≡ i + j = omega (arith, room) in
      let next : i + (j + 1) ≡ suc (i + j) = omega arith in
      let rest = cell_loop doubles isprint buf dumplen cell n i (j + 1) in
      let text : ℕ → List ℕ = λ k. cells show n (drop k dumped) in
      rw here (
        Puts->>= (cell (i + j)) rest (show (get_elem? dumped (i + j))) (text (i + (j + 1)))
          (each (i + j)) (cell_loop-Puts cell show each n i (j + 1) (omega (arith, room))) o small)
      ∙ ap (λ (k : ℕ). ok (put (show (get_elem? dumped (i + j)) ++ text k) o)) next
      ∙ ap (λ (t : List ℕ). ok (put t o)) (sym (cells_step show n dumped (i + j)))
