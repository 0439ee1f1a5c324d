-- ===== src/HexdumpToByteStream/Rows.antt =====
-- The rows of a dump.
use mathlib.Core.Path.{subst}
use slirp4tinc.Prelude.{
  ℕ, zero, suc, ◌+◌, ◌*◌, ◌/◌, ◌%◌, ◌^◌, ◌≤◌, ◌<◌, ◌≡◌, refl, ap, sym, ◌∙◌, Bool, false, List, [],
  ◌∷◌, ◌++◌, arith, length, length-append, take, drop, lt→ltb,
}
use slirp4tinc.Prelude.Run.{ok}
use slirp4tinc.PrintfToStream.Padding.{printed-eq}
use slirp4tinc.PrintfToStream.Float.{Doubles}
use slirp4tinc.PrintfToStream.Format.Hex.{
  IsAddress, vprintf-IsAddress, vprintf_blank, vprintf_newline,
}
use slirp4tinc.HexdumpToByteStream.{
  cell_loop, hex_cell, char_cell, dump_row, dump_loop, hexdump_to_byte_stream,
}
use slirp4tinc.HexdumpToByteStream.Cells.{
  AreBytes, cells, hex_show, char_show, Puts, Puts->>=, Puts-nothing, not_less, count_printf-Puts,
  hex_cell-Puts, char_cell-Puts, cell_loop-Puts,
}

-- The address, a colon and a blank, the bytes, a blank, the characters, and the end of the line.
abbrev pub row_text : (ℕ → Bool) → List ℕ → List ℕ → List ℕ
row_text isprint address bytes =
    (address ++ 58 ∷ 32 ∷ [])
    ++ (cells hex_show 16 bytes ++ (32 ∷ [] ++ (cells (char_show isprint) 16 bytes ++ 10 ∷ [])))

-- A dump of `n` rows, from an address on.
abbrev pub IsDump : (ℕ → Bool) → ℕ → ℕ → List ℕ → List ℕ → Type 0
IsDump isprint zero address bytes text = text ≡ []
IsDump isprint (suc n) address bytes text =
    (shown : List ℕ) × (rest : List ℕ) × IsAddress address shown
    × (text ≡ row_text isprint shown bytes ++ rest)
    × IsDump isprint n ((address + 16) % 2 ^ 64) (drop 16 bytes) rest

IsDump-cast :
    (isprint : ℕ → Bool) (n : ℕ) (text : List ℕ) {a b : ℕ} {xs ys : List ℕ}
    → a ≡ b
    → xs ≡ ys
    → IsDump isprint n a xs text
    → IsDump isprint n b ys text
IsDump-cast isprint n text {a} {b} {xs} {ys} e f dump =
    subst (λ (zs : List ℕ). IsDump isprint n b zs text) f
      (subst (λ (k : ℕ). IsDump isprint n k xs text) e dump)

drop-empty : (n : ℕ) → drop {A = ℕ} n [] ≡ []
drop-empty zero = refl
drop-empty (suc n) = refl

drop-drop : (n m : ℕ) (xs : List ℕ) → drop n (drop m xs) ≡ drop (m + n) xs
drop-drop n zero xs = ap (λ (k : ℕ). drop k xs) (omega arith)
drop-drop n (suc m) [] = drop-empty n ∙ sym (drop-empty (suc m + n))
drop-drop n (suc m) (x ∷ xs) =
    let next : suc (m + n) ≡ suc m + n = omega arith in
    drop-drop n m xs ∙ ap (λ (k : ℕ). drop k (x ∷ xs)) next

module _ {D : Type 0} (doubles : Doubles D) (isprint : ℕ → Bool) (nul : isprint 0 ≡ false)
    (buf : List ℕ) (dumplen : ℕ) (bytes : AreBytes buf) (enough : dumplen ≤ length buf) where
  hex_cells-Puts :
      (i : ℕ)
      → i + 16 < 2 ^ 32
      → Puts
          (cell_loop doubles isprint buf dumplen (hex_cell doubles isprint buf dumplen) 16 i 0)
          (cells hex_show 16 (drop i (take dumplen buf)))
  hex_cells-Puts i room =
      subst
        (λ (k : ℕ).
          Puts (cell_loop doubles isprint buf dumplen (hex_cell doubles isprint buf dumplen) 16 i 0)
            (cells hex_show 16 (drop k (take dumplen buf))))
        start
        (cell_loop-Puts doubles isprint nul buf dumplen bytes enough _ hex_show
          (hex_cell-Puts doubles isprint nul buf dumplen bytes enough) 16 i 0 (omega (arith, room)))
    where
      start : i + 0 ≡ i
      start = omega arith

  char_cells-Puts :
      (i : ℕ)
      → i + 16 < 2 ^ 32
      → Puts
          (cell_loop doubles isprint buf dumplen (char_cell doubles isprint buf dumplen) 16 i 0)
          (cells (char_show isprint) 16 (drop i (take dumplen buf)))
  char_cells-Puts i room =
      subst
        (λ (k : ℕ).
          Puts
            (cell_loop doubles isprint buf dumplen (char_cell doubles isprint buf dumplen) 16 i 0)
            (cells (char_show isprint) 16 (drop k (take dumplen buf))))
        start
        (cell_loop-Puts doubles isprint nul buf dumplen bytes enough _ (char_show isprint)
          (char_cell-Puts doubles isprint nul buf dumplen bytes enough) 16 i 0
          (omega (arith, room)))
    where
      start : i + 0 ≡ i
      start = omega arith

  dump_row-Puts :
      (base_addr i : ℕ)
      → i + 16 < 2 ^ 32
      → (shown : List ℕ) × IsAddress ((base_addr + i) % 2 ^ 64) shown
        × Puts
            (dump_row doubles isprint buf dumplen base_addr i)
            (row_text isprint shown (drop i (take dumplen buf)))
  unfolding dump_row
  dump_row-Puts base_addr i room =
      let (shown, address, e) =
        vprintf-IsAddress doubles ((base_addr + i) % 2 ^ 64) (omega arith) in
      let colon = shown ++ 58 ∷ 32 ∷ [] in
      let rest = drop i (take dumplen buf) in
      let first =
        count_printf-Puts doubles isprint nul buf dumplen bytes enough _ _ colon
          (e ∙ ap ok (printed-eq (sym (length-append shown (58 ∷ 32 ∷ []))) refl)) in
      let third =
        count_printf-Puts doubles isprint nul buf dumplen bytes enough _ _ (32 ∷ [])
          (vprintf_blank doubles) in
      let fifth =
        count_printf-Puts doubles isprint nul buf dumplen bytes enough _ _ (10 ∷ [])
          (vprintf_newline doubles) in
      (
        shown,
        address,
        Puts->>= _ _ colon _ first (
            Puts->>= _ _ (cells hex_show 16 rest) _ (hex_cells-Puts i room) (
              Puts->>= _ _ (32 ∷ []) _ third (
                Puts->>= _ _ (cells (char_show isprint) 16 rest) (10 ∷ []) (char_cells-Puts i room)
                  fifth))),
      )

  dump_step :
      (fuel base_addr i j : ℕ) (s t : List ℕ)
      → i < dumplen
      → (i + 16) % 2 ^ 32 ≡ j
      → Puts (dump_row doubles isprint buf dumplen base_addr i) s
      → Puts (dump_loop doubles isprint buf dumplen fuel base_addr j) t
      → Puts (dump_loop doubles isprint buf dumplen (suc fuel) base_addr i) (s ++ t)
  unfolding dump_loop
  dump_step fuel base_addr i j s t less step row rest o small =
      rw (lt→ltb i dumplen less, step) (Puts->>= _ _ s t row rest o small)

  dump_loop_lem :
      (n fuel base_addr i : ℕ)
      → i + 16 * n < dumplen + 16
      → dumplen ≤ i + 16 * n
      → dumplen + 16 ≤ 2 ^ 32
      → n < fuel
      → (text : List ℕ) × IsDump isprint n
          ((base_addr + i) % 2 ^ 64)
          (drop i (take dumplen buf))
          text
        × Puts (dump_loop doubles isprint buf dumplen fuel base_addr i) text
  unfolding dump_loop
  dump_loop_lem n zero base_addr i few most room more = absurd (omega (arith, more))
  dump_loop_lem zero (suc fuel) base_addr i few most room more =
      ([], refl, λ o small. rw (not_less i dumplen (omega (arith, most))) (Puts-nothing o small))
  dump_loop_lem (suc n) (suc fuel) base_addr i few most room more =
      let (shown, address, row) = dump_row-Puts base_addr i (omega (arith, few, room)) in
      let (text, dump, rest) =
        dump_loop_lem n fuel base_addr (i + 16) (omega (arith, few)) (omega (arith, most)) room
          (omega (arith, more)) in
      (
        row_text isprint shown (drop i (take dumplen buf)) ++ text,
        (
          shown,
          text,
          address,
          refl,
          IsDump-cast isprint n text (omega arith) (sym (drop-drop 16 i (take dumplen buf))) dump,
        ),
        dump_step fuel base_addr i (i + 16) (row_text isprint shown (drop i (take dumplen buf)))
            text (omega (arith, few)) (omega (arith, few, room)) row rest,
      )

  -- A dump of at most 2 ^ 32 - 16 bytes of a buffer returns, given fuel for a pass more than there
  -- are rows, with the length of its text as an `unsigned`. If the character zero is not printable,
  -- the text is a row for every 16 bytes: their address in at least eight hexadecimal digits, the
  -- two digits of each byte and three blanks for each that is missing, and their characters, with a
  -- point for each that is not printable.
  pub hexdump_to_byte_stream_lem :
      (fuel base_addr : ℕ)
      → base_addr < 2 ^ 64
      → dumplen + 16 ≤ 2 ^ 32
      → (dumplen + 15) / 16 < fuel
      → (text : List ℕ) × IsDump isprint ((dumplen + 15) / 16) base_addr (take dumplen buf) text
        × (hexdump_to_byte_stream doubles isprint buf dumplen fuel base_addr
            ≡ ok (length text % 2 ^ 32, text))
  unfolding hexdump_to_byte_stream
  hexdump_to_byte_stream_lem fuel base_addr less room more =
      let n = (dumplen + 15) / 16 in
      let (text, dump, puts) =
        dump_loop_lem n fuel base_addr 0 (omega arith) (omega arith) room more in
      (
        text,
        IsDump-cast isprint n text (omega (arith, less)) refl dump,
        puts (0, []) (omega arith) ∙ ap ok (printed-eq (omega arith) refl),
      )
