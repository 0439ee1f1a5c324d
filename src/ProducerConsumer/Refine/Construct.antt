-- ===== src/ProducerConsumer/Refine/Construct.antt =====
-- The constructor
use slirp4tinc.Prelude.{
  ℕ, ◌+◌, ◌^◌, ◌<◌, ◌≡◌, refl, ◌∙◌, true, none, some, arith, has, length-map, get_elem?-map,
  get_elem?-range, length-range, count-range, range, length-replicate, replicate,
}
use slirp4tinc.Prelude.Run.{ok}
use slirp4tinc.ProducerConsumer.{ProducerConsumer, construct, fresh_item}
use slirp4tinc.ProducerConsumer.Pool
use slirp4tinc.ProducerConsumer.Pool.{Pool}
use slirp4tinc.ProducerConsumer.Ring.{IsRing-full, IsRing-empty}
use slirp4tinc.ProducerConsumer.Rep.{Rep, item_of}

module _ {T : Type 0} where
  -- The constructor of a context of at least one and less than 2 ^ 31 items returns one in which
  -- every slot is free, in the order of the buffer.
  pub construct-Rep :
      (n : ℕ) (v : ℕ → T)
      → 0 < n
      → n < 2 ^ 31
      → (s : ProducerConsumer T) × (construct n v ≡ ok s) × Rep n s (Pool.initial n v)
  unfolding construct
  construct-Rep n v pos small = (
    _,
    refl,
    record {
      small = small;
      partition = record {
        once = λ i. ground (arith, count-range i 0 n);
        total = ground (arith, length-range 0 n);
      };
      items = record {
        size = length-map (fresh_item v) (range 0 n) ∙ length-range 0 n;
        each = λ i hi.
            get_elem?-map (fresh_item v) (range 0 n) i (get_elem?-range 0 n i hi) ∙ start i hi;
      };
      free_ring = IsRing-full n pos;
      released_ring = IsRing-empty n (replicate n none) pos (length-replicate n none);
      counts = ground (arith, length-range 0 n);
    },
  )
    where
      start : (i : ℕ) → i < n → some (fresh_item v (0 + i)) ≡ some (item_of (Pool.initial n v) i)
      start i hi =
          let e : 0 + i ≡ i = omega arith in
          let h : has i (range 0 n) ≡ true = ground (arith, count-range i 0 n) in rw (e, h)
