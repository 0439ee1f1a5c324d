-- ===== src/ByteStream.antt =====
-- src/Interface/ByteStream.cpp and ByteStreamDecorator.cpp: the block operations on top of the
-- virtual single-byte ones, which are a record of functions on the state `S` of a stream.
pub mod Blocks
pub mod Reads
pub mod Decorator
use slirp4tinc.Prelude.{
  ℕ, zero, suc, ◌+◌, ◌-◌, ◌%◌, ◌^◌, ◌≤◌, ◌≡◌, Bool, true, false, ◌&&◌, Option, none, some, List, [],
  ◌∷◌, ◌++◌, ◌==◌, if◌then◌else◌, ltb, length, get_elem?, set,
}
use slirp4tinc.Prelude.Int.{ℤ, pos, negsuc}
use slirp4tinc.Prelude.Run.{Run, ok, blocked, deref, ◌>>=◌}

-- `write` returns a count; `read` returns a count and what it leaves in its argument.
pub record ByteStream (S : Type 0) : Type 0 where
  pub write : ℕ → S → ℕ × S
  pub read : ℕ → S → ℕ × ℕ × S

-- `ByteStream` itself: it swallows what is written, and never has data.
pub default : {S : Type 0} → ByteStream S
default = record { write = λ b s. (1, s); read = λ b s. (0, b, s) }

-- `ByteStreamDecorator`: every operation is the lower stream's.
pub decorator : {S : Type 0} → ByteStream S → ByteStream S
decorator lower = record { write = λ b s. lower.write b s; read = λ b s. lower.read b s }

module _ {S : Type 0} (stream : ByteStream S) where
  -- The loop of `writeBlock`: `i`, `numBytes` and `n` of 32 bits. Without fuel it has not returned.
  pub write_loop : ℕ → List ℕ → ℕ → ℕ → ℕ → S → Run (ℕ × S)
  write_loop zero b i num_bytes n s = blocked
  write_loop (suc fuel) b i num_bytes n s = elim (ltb 0 num_bytes && ltb 0 n) [
    | false ↦ ok (i, s)
    | true ↦ (do
      byte ← deref (get_elem? b i)
      let (n', s') = stream.write byte s
      write_loop fuel b ((i + n') % 2 ^ 32) ((num_bytes + 2 ^ 32 - n') % 2 ^ 32) n' s')
  ]

  -- `writeBlock(b, numBytes)`: each pass takes at least one byte or is the last one.
  pub write_block : List ℕ → ℕ → S → Run (ℕ × S)
  unfolding write_loop
  write_block b num_bytes s = write_loop (num_bytes + 2) b 0 num_bytes 1 s

  -- The bytes of a string in front of its terminating zero.
  pub string_length : List ℕ → ℕ → Run ℕ
  string_length [] i = Run.undefined
  string_length (zero ∷ b) i = ok i
  string_length (suc c ∷ b) i = string_length b ((i + 1) % 2 ^ 32)

  -- `writeBlock(string)`
  pub write_string : List ℕ → S → Run (ℕ × S)
  unfolding string_length write_block
  write_string string s = do n ← string_length string 0; write_block string n s

  -- The loop of `readBlock`; `read` gets a reference to `b[i]`, which is then what it left there.
  pub read_loop : ℕ → List ℕ → ℕ → ℕ → ℕ → S → Run (ℕ × List ℕ × S)
  read_loop zero b i num_bytes n s = blocked
  read_loop (suc fuel) b i num_bytes n s = elim (ltb 0 n && ltb 0 num_bytes) [
    | false ↦ ok (i, b, s)
    | true ↦ (do
      old ← deref (get_elem? b i)
      let (n', new, s') = stream.read old s
      read_loop fuel (set b i new) ((i + n') % 2 ^ 32) (num_bytes - 1) n' s')
  ]

  -- `readBlock(b, numBytes)`
  pub read_block : List ℕ → ℕ → S → Run (ℕ × List ℕ × S)
  unfolding read_loop
  read_block b num_bytes s = read_loop (num_bytes + 1) b 0 num_bytes 1 s

  -- `get_char()`; the byte is what `read` left in the uninitialised `c`.
  pub get_char : S → ℤ × S
  get_char s = let (n, c, s') = stream.read 0 s in (if n == 0 then negsuc 0 else pos c, s')

  -- `put_char(c)`
  pub put_char : ℕ → S → ℤ × S
  put_char c s =
      let (n, s') = stream.write (c % 2 ^ 8) s in (if n == 0 then negsuc 0 else pos c, s')
