-- ===== src/ByteStream/Reads.antt =====
-- What `readBlock` leaves in a buffer: one byte after the other, until none is there.
use mathlib.Core.List.{append_assoc}
use slirp4tinc.Prelude.{
  ℕ, zero, suc, ◌+◌, ◌%◌, ◌^◌, ◌≤◌, ◌<◌, ◌≡◌, ap, refl, sym, ◌∙◌, List, [], ◌∷◌, ◌++◌, arith, ◌==◌,
  if◌then◌else◌, length, length-append, get_elem?, set, ◌⊎◌, inl, inr, some, Bool-cases, true, ◌&&◌,
  ltb,
}
use slirp4tinc.Prelude.Run.{Run, ok}
use slirp4tinc.ByteStream.{ByteStream, read_loop, read_block}
use slirp4tinc.ByteStream.Blocks.{IsSingle}

get_elem?-front :
    (front : List ℕ) (x : ℕ) (back : List ℕ) → get_elem? (front ++ x ∷ back) (length front) ≡ some x
get_elem?-front [] x back = refl
get_elem?-front (y ∷ front) x back = get_elem?-front front x back

set-front :
    (front : List ℕ) (x : ℕ) (back : List ℕ) (y : ℕ)
    → set (front ++ x ∷ back) (length front) y ≡ front ++ y ∷ back
set-front [] x back y = refl
set-front (z ∷ front) x back y = ap (λ (l : List ℕ). z ∷ l) (set-front front x back y)

module _ {S : Type 0} (stream : ByteStream S) where
  -- One byte after the other is read over those of a buffer, until none is there: the number of those
  -- that were, and the buffer, with what the last call left in its argument.
  unfoldable pub read_all : List ℕ → S → ℕ × List ℕ × S
  read_all [] s = (0, [], s)
  read_all (old ∷ bytes) s =
      let (n, new, s') = stream.read old s in
      let rest = read_all bytes s' in
      if n == 0 then (0, new ∷ bytes, s') else (suc rest.0, new ∷ rest.1, rest.2)

  module _ (single : IsSingle stream) where
    read_cases : (b : ℕ) (s : S) → ((stream.read b s).0 ≡ 0) ⊎ ((stream.read b s).0 ≡ 1)
    read_cases b s = ground (arith, single.read b s)

    read_loop_stops :
        (fuel : ℕ) (b : List ℕ) (i k : ℕ) (s : S)
        → 0 < fuel
        → read_loop stream fuel b i k 0 s ≡ ok (i, b, s)
    unfolding read_loop
    read_loop_stops zero b i k s h = absurd (omega arith)
    read_loop_stops (suc fuel) b i k s h = refl

    read_loop_step :
        (fuel : ℕ) (front : List ℕ) (old : ℕ) (back : List ℕ) (k n count new : ℕ) (s s' : S)
        → 0 < n
        → stream.read old s ≡ (count, new, s')
        → read_loop stream (suc fuel) (front ++ old ∷ back) (length front) (suc k) n s
          ≡ read_loop stream fuel (front ++ new ∷ back) ((length front + count) % 2 ^ 32) k count s'
    unfolding read_loop
    read_loop_step fuel front old back k n count new s s' going e =
        rw (read_loop, test, get_elem?-front front old back, e, set-front front old back new)
          (ap
            (λ (j : ℕ).
              read_loop stream fuel (front ++ new ∷ back) ((length front + count) % 2 ^ 32) j count
                s')
            (omega arith))
      where
        test : (ltb 0 n && ltb 0 (suc k)) ≡ true
        test = ground (arith, going)

    read_loop_end :
        (fuel : ℕ) (b : List ℕ) (i n : ℕ) (s : S)
        → read_loop stream (suc fuel) b i 0 n s ≡ ok (i, b, s)
    unfolding read_loop
    read_loop_end fuel b i n s = elim (Bool-cases (ltb 0 n)) [
      | inl e ↦ rw (read_loop, e) refl
      | inr e ↦ rw (read_loop, e) refl
    ]

    module _ (old : ℕ) (bytes : List ℕ) (s : S) where
      read_all-none :
          (stream.read old s).0 ≡ 0
          → read_all (old ∷ bytes) s ≡ (0, (stream.read old s).1 ∷ bytes, (stream.read old s).2)
      unfolding read_all
      read_all-none e = rw e refl

      read_all-one :
          (stream.read old s).0 ≡ 1
          → read_all (old ∷ bytes) s ≡ (
            suc (read_all bytes (stream.read old s).2).0,
            (stream.read old s).1 ∷ (read_all bytes (stream.read old s).2).1,
            (read_all bytes (stream.read old s).2).2,
          )
      unfolding read_all
      read_all-one e = rw e refl

    -- What the loop returns behind the bytes of `front`.
    abbrev result : List ℕ → List ℕ → ℕ × List ℕ × S → Run (ℕ × List ℕ × S)
    result front beyond (n, bytes, s) = ok (length front + n, front ++ (bytes ++ beyond), s)

    -- The bytes behind the block stay as they are.
    read_loop_lem :
        (bytes front beyond : List ℕ) (n fuel : ℕ) (s : S)
        → length front + length bytes < 2 ^ 32
        → 0 < n
        → length bytes < fuel
        → read_loop stream fuel (front ++ (bytes ++ beyond)) (length front) (length bytes) n s
          ≡ result front beyond (read_all bytes s)
    unfolding read_all
    read_loop_lem bytes front beyond n zero s bound going enough = absurd (omega (arith, enough))
    read_loop_lem [] front beyond n (suc fuel) s bound going enough =
        read_loop_end fuel (front ++ beyond) (length front) n s
        ∙ ap (λ (k : ℕ). ok (k, front ++ beyond, s)) (omega arith)
    read_loop_lem (old ∷ bytes) front beyond n (suc fuel) s bound going enough =
        elim (read_cases old s) [
          | inl e ↦
              read_loop_step fuel front old (bytes ++ beyond) (length bytes) n 0 new s s' going
                (ap (λ (k : ℕ). (k, new, s')) e)
              ∙ read_loop_stops fuel (front ++ new ∷ (bytes ++ beyond)) _ (length bytes) s'
                  (omega (arith, enough))
              ∙ ap (λ (k : ℕ). ok (k, front ++ new ∷ (bytes ++ beyond), s')) (omega (arith, bound))
              ∙ sym (ap (result front beyond) (read_all-none old bytes s e))
          | inr e ↦
              read_loop_step fuel front old (bytes ++ beyond) (length bytes) n 1 new s s' going
                (ap (λ (k : ℕ). (k, new, s')) e)
              ∙ ap
                  (λ (k : ℕ).
                    read_loop stream fuel (front ++ new ∷ (bytes ++ beyond)) k (length bytes) 1 s')
                  (omega (arith, bound, longer))
              ∙ ap
                  (λ (l : List ℕ).
                    read_loop stream fuel l (length (front ++ new ∷ [])) (length bytes) 1 s')
                  (sym (append_assoc front (new ∷ []) (bytes ++ beyond)))
              ∙ read_loop_lem bytes (front ++ new ∷ []) beyond 1 fuel s'
                  (omega (arith, bound, longer)) (omega arith) (omega (arith, enough))
              ∙ ap
                  (λ (k : ℕ). ok (
                    k,
                    (front ++ new ∷ []) ++ ((read_all bytes s').1 ++ beyond),
                    (read_all bytes s').2,
                  ))
                  (omega (arith, longer))
              ∙ ap
                  (λ (l : List ℕ).
                    ok (length front + suc (read_all bytes s').0, l, (read_all bytes s').2))
                  (append_assoc front (new ∷ []) ((read_all bytes s').1 ++ beyond))
              ∙ sym (ap (result front beyond) (read_all-one old bytes s e))
        ]
      where
        new : ℕ
        new = (stream.read old s).1

        s' : S
        s' = (stream.read old s).2

        longer : length (front ++ new ∷ []) ≡ length front + 1
        longer = length-append front (new ∷ [])

    read_all_count :
        (bytes : List ℕ) (s : S)
        → ((read_all bytes s).0 ≤ length bytes) × (length (read_all bytes s).1 ≡ length bytes)
    unfolding read_all
    read_all_count [] s = (omega arith, refl)
    read_all_count (old ∷ bytes) s = ground (arith, read_all_count bytes (stream.read old s).2)

    -- If single bytes are read or not there, `readBlock` of a block of less than 2 ^ 32 bytes
    -- returns: it reads one byte after the other over those of the block until none is there, and
    -- returns how many were read, which are no more than the block has. The block keeps its size, and
    -- the bytes behind it stay as they are.
    pub read_block_lem :
        (bytes beyond : List ℕ) (s : S)
        → length bytes < 2 ^ 32
        → (read_block stream (bytes ++ beyond) (length bytes) s
            ≡ ok ((read_all bytes s).0, (read_all bytes s).1 ++ beyond, (read_all bytes s).2))
          × ((read_all bytes s).0 ≤ length bytes)
          × (length (read_all bytes s).1 ≡ length bytes)
    unfolding read_block
    read_block_lem bytes beyond s bound =
        let (count, size) = read_all_count bytes s in
        (
          read_loop_lem bytes [] beyond 1 (length bytes + 1) s (omega (arith, bound)) (omega arith)
                (omega arith)
              ∙ ap (λ (k : ℕ). ok (k, (read_all bytes s).1 ++ beyond, (read_all bytes s).2))
                  (omega arith),
          count,
          size,
        )
