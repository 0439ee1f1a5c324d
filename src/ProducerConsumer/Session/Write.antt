-- ===== src/ProducerConsumer/Session/Write.antt =====
-- A client's write to an item that it has in production.
use slirp4tinc.Prelude.{
  ℕ, ◌≡◌, ◌≤◌, if◌then◌else◌, refl, ◌<◌, true, false, List, [], ◌∷◌, map, arith, inl, inr,
  Bool-cases, has, get_elem?_beyond, count, ◌==◌,
}
use native.Mathlib.Decide.{dec_lt}
use slirp4tinc.Prelude.Run.{ok, undefined}
use slirp4tinc.ProducerConsumer.{ProducerConsumer, put_item}
use slirp4tinc.ProducerConsumer.Pool.{Pool}
use slirp4tinc.ProducerConsumer.Rep.{Rep, in_range, item_of, HoldsItems-set}
use slirp4tinc.ProducerConsumer.Session.{write}

module _ {T : Type 0} where
  -- The pool after slot `x` was given another payload.
  abbrev pub written_pool : Pool T → ℕ → T → Pool T
  written_pool p x v = record p { payload = λ i. if x == i then v else p.payload i }

  pub map-written :
      (p : Pool T) (x : ℕ) (v : T) (l : List ℕ)
      → count x l ≡ 0
      → map (written_pool p x v).payload l ≡ map p.payload l
  map-written p x v [] h = refl
  map-written p x v (y ∷ l) h = ground (arith, map-written p x v l)

  module _ {n : ℕ} {s : ProducerConsumer T} {p : Pool T} (r : Rep n s p) (x : ℕ) (v : T) where
    pub write_held :
        has x p.producing ≡ true → write x v s ≡ ok (put_item s x (item_of (written_pool p x v) x))
    unfolding write
    write_held e = ground (arith, r.items.each x (in_range r.partition x (ground arith)))

    write_wrong : x < n → has x p.producing ≡ false → write x v s ≡ undefined
    unfolding write
    write_wrong hx e = ground (arith, r.items.each x hx)

    write_outside : n ≤ x → write x v s ≡ undefined
    unfolding write
    write_outside h = rw (get_elem?_beyond s.item_buffer x (omega (arith, r.items.size)))

    pub written-Rep :
        has x p.producing ≡ true
        → Rep n (put_item s x (item_of (written_pool p x v) x)) (written_pool p x v)
    written-Rep e = record {
      small = r.small;
      partition = record { once = r.partition.once; total = r.partition.total };
      items =
          HoldsItems-set (written_pool p x v) x (in_range r.partition x (ground arith))
            (λ i ne. ground (arith, ne)) r.items;
      free_ring = r.free_ring;
      released_ring = r.released_ring;
      counts = ground (
        arith, r.counts.produced, r.counts.mutex, r.counts.released, r.counts.free, r.counts.item,
      );
    }

    -- A write that does not fail is to a slot in production.
    pub write_ok : (s' : ProducerConsumer T) → write x v s ≡ ok s' → has x p.producing ≡ true
    write_ok s' e = elim (Bool-cases (has x p.producing)) [
      | inl h ↦ h
      | inr h ↦ elim (dec_lt x n) [
        | yes inside ↦ absurd (cc (write_wrong inside h, e))
        | no outside ↦ absurd (cc (write_outside (omega arith), e))
      ]
    ]
