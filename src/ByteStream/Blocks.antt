-- ===== src/ByteStream/Blocks.antt =====
-- What the block operations do to a stream: one operation for each byte, until one is refused.
use slirp4tinc.Prelude.{
  ℕ, zero, suc, ◌+◌, ◌-◌, ◌%◌, ◌^◌, ◌≤◌, ◌<◌, ◌≡◌, ap, ◌∙◌, List, [], ◌∷◌, arith, ◌==◌,
  if◌then◌else◌, length, get_elem?, ◌⊎◌, inl, inr, some,
}
use slirp4tinc.Prelude.Run.{ok}
use slirp4tinc.ByteStream.{ByteStream, write_loop, write_block}

module _ {S : Type 0} (stream : ByteStream S) where
  -- Both single-byte operations return 0 or 1.
  pub record IsSingle : Type 0 where
    pub write : (b : ℕ) (s : S) → (stream.write b s).0 ≤ 1
    pub read : (b : ℕ) (s : S) → (stream.read b s).0 ≤ 1

  -- One byte after the other is written, until one is refused; the number of those that were not.
  unfoldable pub write_all : List ℕ → S → ℕ × S
  write_all [] s = (0, s)
  write_all (b ∷ bytes) s =
      let rest = write_all bytes (stream.write b s).1 in
      if (stream.write b s).0 == 0 then (0, (stream.write b s).1) else (suc rest.0, rest.1)

  module _ (single : IsSingle) where
    write_cases : (b : ℕ) (s : S) → ((stream.write b s).0 ≡ 0) ⊎ ((stream.write b s).0 ≡ 1)
    write_cases b s = ground (arith, single.write b s)

    write_loop_stops :
        (fuel : ℕ) (b : List ℕ) (i k : ℕ) (s : S)
        → 0 < fuel
        → write_loop stream fuel b i k 0 s ≡ ok (i, s)
    unfolding write_loop
    write_loop_stops zero b i k s h = absurd (omega arith)
    write_loop_stops (suc fuel) b i k s h = ground arith

    write_loop_step :
        (fuel : ℕ) (b : List ℕ) (i k n c w : ℕ) (s : S)
        → 0 < k
        → 0 < n
        → get_elem? b i ≡ some c
        → (stream.write c s).0 ≡ w
        → write_loop stream (suc fuel) b i k n s
          ≡ write_loop stream fuel b
              ((i + w) % 2 ^ 32)
              ((k + 2 ^ 32 - w) % 2 ^ 32)
              w
              (stream.write c s).1
    unfolding write_loop
    write_loop_step fuel b i k n c w s more going at e = ground (arith, at, e)

    write_loop_lem :
        (rest b : List ℕ) (i n fuel : ℕ) (s : S)
        → ((j : ℕ) → get_elem? b (i + j) ≡ get_elem? rest j)
        → i + length rest < 2 ^ 32
        → 0 < n
        → length rest + 2 ≤ fuel
        → write_loop stream fuel b i (length rest) n s
          ≡ ok (i + (write_all rest s).0, (write_all rest s).1)
    unfolding write_loop write_all
    write_loop_lem rest b i n zero s at bound going enough = absurd (omega (arith, enough))
    write_loop_lem [] b i n (suc fuel) s at bound going enough = nothing
      where
        nothing :
            write_loop stream (suc fuel) b i 0 n s ≡ ok (i + (write_all [] s).0, (write_all [] s).1)
        nothing = ap (λ (k : ℕ). ok (k, s)) (omega arith)
    write_loop_lem (c ∷ rest) b i n (suc fuel) s at bound going enough = elim (write_cases c s) [
      | inl e ↦ refused e
      | inr e ↦ taken e (
          write_loop_lem rest b (i + 1) 1 fuel (stream.write c s).1
            (λ j. ap (get_elem? b) (omega arith) ∙ at (suc j)) (omega (arith, bound)) (omega arith)
            (omega (arith, enough)))
    ]
      where
        here : get_elem? b i ≡ some c
        here = ap (get_elem? b) (omega arith) ∙ at 0

        refused :
            (stream.write c s).0 ≡ 0
            → write_loop stream (suc fuel) b i (length (c ∷ rest)) n s
              ≡ ok (i + (write_all (c ∷ rest) s).0, (write_all (c ∷ rest) s).1)
        refused e =
            write_loop_step fuel b i (length (c ∷ rest)) n c 0 s (omega arith) going here e
            ∙ write_loop_stops fuel b _ _ (stream.write c s).1 (omega (arith, enough))
            ∙ rw e (ap (λ (k : ℕ). ok (k, (stream.write c s).1)) (omega (arith, bound)))

        taken :
            (stream.write c s).0 ≡ 1
            → write_loop stream fuel b (i + 1) (length rest) 1 (stream.write c s).1
              ≡ ok (
                i + 1 + (write_all rest (stream.write c s).1).0,
                (write_all rest (stream.write c s).1).1,
              )
            → write_loop stream (suc fuel) b i (length (c ∷ rest)) n s
              ≡ ok (i + (write_all (c ∷ rest) s).0, (write_all (c ∷ rest) s).1)
        taken e next =
            write_loop_step fuel b i (length (c ∷ rest)) n c 1 s (omega arith) going here e
            ∙ ap
                (λ (k : ℕ).
                  write_loop stream fuel b k ((length (c ∷ rest) + 2 ^ 32 - 1) % 2 ^ 32) 1
                    (stream.write c s).1)
                (omega (arith, bound))
            ∙ ap (λ (k : ℕ). write_loop stream fuel b (i + 1) k 1 (stream.write c s).1)
                (omega (arith, bound))
            ∙ next
            ∙ rw e (ap (λ (k : ℕ). ok (k, (write_all rest (stream.write c s).1).1)) (omega arith))

    -- No more bytes are written than there are.
    write_all_count : (bytes : List ℕ) (s : S) → (write_all bytes s).0 ≤ length bytes
    unfolding write_all
    write_all_count [] s = omega arith
    write_all_count (b ∷ bytes) s = ground (arith, write_all_count bytes (stream.write b s).1)

    -- If single bytes are written or refused, `writeBlock` of a whole buffer of less than 2 ^ 32
    -- bytes returns: it writes one byte after the other until one is refused, and returns how many
    -- were written, which are no more than the buffer has.
    pub write_block_lem :
        (bytes : List ℕ) (s : S)
        → length bytes < 2 ^ 32
        → (write_block stream bytes (length bytes) s ≡ ok (write_all bytes s))
          × ((write_all bytes s).0 ≤ length bytes)
    unfolding write_block
    write_block_lem bytes s bound = (
      write_loop_lem bytes bytes 0 1 (length bytes + 2) s (λ j. ap (get_elem? bytes) (omega arith))
            (omega (arith, bound)) (omega arith) (omega arith)
          ∙ ap (λ (k : ℕ). ok (k, (write_all bytes s).1)) (omega arith),
      write_all_count bytes s,
    )
