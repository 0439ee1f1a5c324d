-- ===== src/HexdumpToByteStream.antt =====
-- src/Util/HexdumpToByteStream.cpp: the dump of a buffer. `buf` is the list of the bytes that may be
-- read; what is put into `output`, and the sum of what the calls of `printf` return, are the state.
pub mod Cells
pub mod Rows
pub mod Endless
use slirp4tinc.Prelude.{
  ℕ, zero, suc, ◌+◌, ◌%◌, ◌^◌, Bool, true, false, List, [], ◌∷◌, ◌++◌, if◌then◌else◌, ltb,
  get_elem?,
}
use slirp4tinc.Prelude.Run.{Run, ok, blocked, deref, ◌>>=◌}
use slirp4tinc.PrintfToStream.{Printed}
use slirp4tinc.PrintfToStream.Float.{Doubles}
use slirp4tinc.PrintfToStream.Format.{Argument, int_argument, long_argument, Arguments, vprintf}

module _ {D : Type 0} (doubles : Doubles D) (isprint : ℕ → Bool) (buf : List ℕ) (dumplen : ℕ) where
  -- `count += ...`, where `count` is `unsigned`
  abbrev pub add_count : Printed → Printed → Printed
  add_count (count, out) (n, more) = ((count + n) % 2 ^ 32, out ++ more)

  -- `count += fio.printf(format, ...)`
  pub count_printf : List ℕ → Arguments doubles → Printed → Run Printed
  count_printf format args o = do p ← vprintf doubles format args; ok (add_count o p)

  -- A cell: "%02x ", or "   " behind the last byte.
  pub hex_cell : ℕ → Printed → Run Printed
  unfolding count_printf
  hex_cell k o =
      if ltb k dumplen
      then (do
        b ← deref (get_elem? buf k)
        count_printf (37 ∷ 48 ∷ 50 ∷ 120 ∷ 32 ∷ []) (int_argument b ∷ []) o)
      else count_printf (32 ∷ 32 ∷ 32 ∷ []) [] o

  -- The character of a byte, by "%c"; nothing behind the last byte. The character 46 is '.'.
  pub char_cell : ℕ → Printed → Run Printed
  unfolding count_printf
  char_cell k o =
      if ltb k dumplen
      then (do
        b ← deref (get_elem? buf k)
        count_printf (37 ∷ 99 ∷ []) (int_argument (if isprint b then b else 46) ∷ []) o)
      else ok o

  -- A loop over `j`, of which `n` passes are left.
  pub cell_loop : (ℕ → Printed → Run Printed) → ℕ → ℕ → ℕ → Printed → Run Printed
  cell_loop cell zero i j o = ok o
  cell_loop cell (suc n) i j o = do o' ← cell ((i + j) % 2 ^ 32) o; cell_loop cell n i (j + 1) o'

  -- The body of the loop over `i`: "%08lx: ", the bytes, " ", the characters and "\n".
  pub dump_row : ℕ → ℕ → Printed → Run Printed
  unfolding count_printf hex_cell char_cell cell_loop
  dump_row base_addr i o = do
    o1 ←
        count_printf (37 ∷ 48 ∷ 56 ∷ 108 ∷ 120 ∷ 58 ∷ 32 ∷ [])
          (long_argument ((base_addr + i) % 2 ^ 64) ∷ []) o
    o2 ← cell_loop hex_cell 16 i 0 o1
    o3 ← count_printf (32 ∷ []) [] o2
    o4 ← cell_loop char_cell 16 i 0 o3
    count_printf (10 ∷ []) [] o4

  -- The loop over `i`, which is `unsigned`; without fuel it has not returned.
  pub dump_loop : ℕ → ℕ → ℕ → Printed → Run Printed
  unfolding dump_row
  dump_loop zero base_addr i o = blocked
  dump_loop (suc fuel) base_addr i o =
      let rest = do o' ← dump_row base_addr i o; dump_loop fuel base_addr ((i + 16) % 2 ^ 32) o'
      in if ltb i dumplen then rest else ok o

  -- `hexdumpToByteStream(output, buf, baseAddr, dumplen)`
  pub hexdump_to_byte_stream : ℕ → ℕ → Run Printed
  unfolding dump_loop
  hexdump_to_byte_stream fuel base_addr = dump_loop fuel base_addr 0 (0, [])
