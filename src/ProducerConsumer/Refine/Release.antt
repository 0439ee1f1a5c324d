-- ===== src/ProducerConsumer/Refine/Release.antt =====
-- `release`
use slirp4tinc.Prelude.{
  refl, get_elem?_beyond, ◌≤◌, ℕ, suc, ◌<◌, ◌≡◌, true, false, some, ◌∷◌, [], ◌++◌, arith, set,
  count, has, remove, count-remove, length-remove, count-append, length-append, Bool-cases, inl,
  inr,
}
use slirp4tinc.Prelude.Run.{undefined, ok, assert_failed}
use slirp4tinc.ProducerConsumer.{ProducerConsumer, Item, slot, foreign, release, advance, increment}
use slirp4tinc.ProducerConsumer.Pool
use slirp4tinc.ProducerConsumer.Pool.{Pool}
use slirp4tinc.ProducerConsumer.Ring.{IsRing-push}
use slirp4tinc.ProducerConsumer.Rep.{Rep, Simulates, item_of, HoldsItems-set, in_range}

module _ {T : Type 0} where
  -- The pool after the produced slot `x` was released.
  abbrev pub released_pool : Pool T → ℕ → Pool T
  released_pool p x = record p { producing = remove x p.producing; released = p.released ++ x ∷ [] }

  abbrev released : ℕ → ProducerConsumer T → ℕ → ℕ → Item T → ProducerConsumer T
  released n s x items it = record s {
    item_buffer = set s.item_buffer x it;
    released_buffer = set s.released_buffer s.next_release (some x);
    next_release = advance n s.next_release;
    num_released_items = increment s.num_released_items;
    mutex = 1;
    item = items;
  }

  module _ {n : ℕ} {s : ProducerConsumer T} {p : Pool T} (x : ℕ) (r : Rep n s p) where
    -- A slot that is not in production fails one of the asserts, if it is a slot at all.
    release_wrong : x < n → has x p.producing ≡ false → release n (slot x) s ≡ assert_failed
    unfolding release
    release_wrong hx e = ground (arith, r.items.each x hx)

    pub release_outside : n ≤ x → release n (slot x) s ≡ undefined
    unfolding release
    release_outside h = rw (get_elem?_beyond s.item_buffer x (omega (arith, r.items.size)))

    module _ (e : has x p.producing ≡ true) where
      pub held : x < n
      held = in_range r.partition x (ground arith)

      pub produced_once :
          (count x p.producing ≡ 1)
          × (count x p.free ≡ 0)
          × (count x p.released ≡ 0)
          × (count x p.consuming ≡ 0)
      produced_once = ground (arith, r.partition.once x)

      release_held :
          release n (slot x) s ≡ ok (released n s x (suc s.item) (item_of (released_pool p x) x))
      unfolding release
      release_held =
          ground (
            arith,
            r.items.each x held,
            r.counts.mutex,
            produced_once,
            count-remove x x p.producing,
          )

      pub released-Rep :
          Rep n (released n s x (suc s.item) (item_of (released_pool p x) x)) (released_pool p x)
      released-Rep = record {
        small = r.small;
        partition = record {
          once = λ i. ground (
            arith,
            r.partition.once i,
            count-remove i x p.producing,
            count-append i p.released (x ∷ []),
            produced_once,
          );
          total = ground (
            arith,
            r.partition.total,
            length-remove x p.producing,
            length-append p.released (x ∷ []),
            produced_once,
          );
        };
        items =
            HoldsItems-set (released_pool p x) x held
              (λ i ne. ground (arith, ne, count-remove i x p.producing)) r.items;
        free_ring = r.free_ring;
        released_ring =
            IsRing-push r.small r.released_ring x
              (ground (arith, r.partition.total, length-remove x p.producing, produced_once));
        counts = ground (
          arith,
          r.counts.produced,
          r.counts.mutex,
          r.counts.released,
          r.counts.free,
          r.counts.item,
          r.small,
          r.partition.total,
          length-append p.released (x ∷ []),
          length-remove x p.producing,
        );
      }

  -- `release` of an item of a context that represents a pool moves a slot in production behind the
  -- released ones, and fails an assert for every other slot.
  pub release_refines :
      {n : ℕ} {s : ProducerConsumer T} {p : Pool T} (x : ℕ)
      → x < n
      → Rep n s p
      → Simulates (Rep n) (release n (slot x) s) (Pool.release (slot x) p)
  unfolding Pool.release
  release_refines {p} x hx r = elim (Bool-cases (has x p.producing)) [
    | inl e ↦ rw (release_held x r e, e) (released-Rep x r e)
    | inr e ↦ rw (release_wrong x r hx e, e) tt
  ]

-- `release` of an object that is no item of the buffer is undefined.
pub release_foreign :
    {T : Type 0} (n : ℕ) (s : ProducerConsumer T) → release n foreign s ≡ undefined
unfolding release
release_foreign n s = refl
