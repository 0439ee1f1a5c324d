-- ===== src/HexdumpToByteStream/Endless.antt =====
-- A dump that is too long.
use slirp4tinc.Prelude.{
  ℕ, zero, suc, ◌+◌, ◌-◌, ◌*◌, ◌%◌, ◌^◌, ◌<◌, ◌≡◌, ◌≢◌, refl, ap, sym, ◌∙◌, Bool, List, [], arith,
  lt→ltb,
}
use slirp4tinc.Prelude.Run.{ok, ◌>>=◌, >>=-eq-ok}
use slirp4tinc.PrintfToStream.{Printed}
use slirp4tinc.PrintfToStream.Float.{Doubles}
use slirp4tinc.HexdumpToByteStream.{dump_row, dump_loop, hexdump_to_byte_stream}

loop_endless :
    {D : Type 0} (doubles : Doubles D) (isprint : ℕ → Bool) (buf : List ℕ) (dumplen : ℕ)
    → 2 ^ 32 - 16 < dumplen
    → (fuel base_addr k : ℕ) (o final : Printed) → k < 2 ^ 28
    → dump_loop doubles isprint buf dumplen fuel base_addr (16 * k) o ≢ ok final
unfolding dump_loop
loop_endless doubles isprint buf dumplen long zero base_addr k o final low e = cc
loop_endless doubles isprint buf dumplen long (suc fuel) base_addr k o final low e =
    let inside : 16 * k < dumplen = omega (arith, long, low) in
    let again : dump_loop doubles isprint buf dumplen (suc fuel) base_addr (16 * k) o
        ≡ dump_row doubles isprint buf dumplen base_addr (16 * k) o
          >>= dump_loop doubles isprint buf dumplen fuel base_addr ((16 * k + 16) % 2 ^ 32) =
      rw (lt→ltb (16 * k) dumplen inside) refl in
    let (o', row, rest) =
      >>=-eq-ok (dump_row doubles isprint buf dumplen base_addr (16 * k) o)
        (dump_loop doubles isprint buf dumplen fuel base_addr ((16 * k + 16) % 2 ^ 32))
        (sym again ∙ e) in
    let wrapped : (16 * k + 16) % 2 ^ 32 ≡ 16 * ((k + 1) % 2 ^ 28) = omega arith in
    loop_endless doubles isprint buf dumplen long fuel base_addr ((k + 1) % 2 ^ 28) o' final
      (omega arith)
      (ap (λ (i : ℕ). dump_loop doubles isprint buf dumplen fuel base_addr i o') (sym wrapped)
        ∙ rest)

-- A dump of more than 2 ^ 32 - 16 bytes does not return, whatever the fuel: `i` wraps around to
-- zero before it reaches `dumplen`.
pub hexdump_endless :
    {D : Type 0} (doubles : Doubles D) (isprint : ℕ → Bool) (buf : List ℕ)
    (dumplen fuel base_addr : ℕ) (final : Printed)
    → 2 ^ 32 - 16 < dumplen
    → hexdump_to_byte_stream doubles isprint buf dumplen fuel base_addr ≢ ok final
unfolding hexdump_to_byte_stream
hexdump_endless doubles isprint buf dumplen fuel base_addr final long =
    loop_endless doubles isprint buf dumplen long fuel base_addr 0 (0, []) final (omega arith)
