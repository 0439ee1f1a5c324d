-- ===== src/ProducerConsumer/Threads/Races.antt =====
-- A test of a call and the step that relies on it are two sections, between which other threads run.
use native.Mathlib.Nat.{mod-eq_of_lt, mod_self}
use native.Mathlib.Decide.{dec_lt}
use slirp4tinc.Prelude.{
  ℕ, ◌+◌, ◌%◌, ◌^◌, ◌<◌, ◌≡◌, ◌≢◌, refl, ap, ◌∙◌, true, false, some, arith, length, get_elem?, set,
  get_elem?-set, length-set, eq→==, ne→==,
}
use slirp4tinc.Prelude.Run.{ok, blocked}
use slirp4tinc.ProducerConsumer.{ProducerConsumer, Item, slot, advance, increment}
use slirp4tinc.ProducerConsumer.Threads.{
  item_acquire, consume_section, begin, proceed, consume_call, release_call, release_lock,
  item_release,
}

module _ {ℓ} {T : Type ℓ} (n : ℕ) (s : ProducerConsumer T) (unlocked : s.mutex ≡ 1) where
  -- With one released item, whose semaphore has been posted, two calls of `consume` that may not
  -- block both pass the test for an empty context; the first takes the semaphore, and the second
  -- waits.
  pub consume_races :
      s.num_released_items ≡ 1
      → s.item ≡ 1
      → (t : ProducerConsumer T) × (begin n (consume_call false) s ≡ ok (item_acquire, s))
        × (proceed n item_acquire s ≡ ok (consume_section, t))
        × (proceed n item_acquire t ≡ blocked)
  unfolding begin proceed
  consume_races released item =
      (record s { item = 0 }, ground (arith, unlocked, released), rw item refl, refl)

-- One step round the array leads to another index.
advance-ne : (n i : ℕ) → 1 < n → n < 2 ^ 31 → i < n → (advance n i ≢ i) × (advance n i < n)
advance-ne n i two small inside =
    let less : (i + 1) % 2 ^ 32 ≡ i + 1 = omega arith in
    elim (dec_lt (i + 1) n) [
      | yes p ↦
          let e : (i + 1) % n ≡ i + 1 = mod-eq_of_lt p in
          (
            λ q. omega (arith, e, ap (λ (k : ℕ). k % n) less, q),
            omega (arith, e, ap (λ (k : ℕ). k % n) less),
          )
      | no p ↦
          let e : (i + 1) % n ≡ 0 = ap (λ (k : ℕ). k % n) (omega arith) ∙ mod_self n in
          (
            λ q. omega (arith, e, ap (λ (k : ℕ). k % n) less, q),
            omega (arith, e, ap (λ (k : ℕ). k % n) less),
          )
    ]

-- The context after the section of `release`.
abbrev entered {ℓ} : {T : Type ℓ} → ℕ → ℕ → Item T → ProducerConsumer T → ProducerConsumer T
entered n x it s = record s {
  mutex = 1;
  item_buffer = set s.item_buffer x (record it { in_production = false });
  released_buffer = set s.released_buffer s.next_release (some x);
  next_release = advance n s.next_release;
  num_released_items = increment s.num_released_items;
}

section_enters {ℓ} :
    {T : Type ℓ} (n x : ℕ) (it : Item T) (s : ProducerConsumer T)
    → s.mutex ≡ 1
    → get_elem? s.item_buffer x ≡ some it
    → proceed n (release_lock x) s ≡ ok (item_release, entered n x it s)
unfolding proceed
section_enters n x it s unlocked at = rw (unlocked, at) refl

module _ {ℓ} {T : Type ℓ} (n : ℕ) (s : ProducerConsumer T) (unlocked : s.mutex ≡ 1) where
  -- Two calls of `release` with the same item, which is in production, both pass the asserts, since
  -- these stand before the mutex is taken. Both sections then enter the item into the queue of
  -- released ones, at two places, and the context counts two more.
  pub release_races :
      (x : ℕ) (it : Item T)
      → get_elem? s.item_buffer x ≡ some it
      → it.in_use ≡ true
      → it.in_production ≡ true
      → 1 < n
      → n < 2 ^ 31
      → s.next_release < n
      → length s.released_buffer ≡ n
      → x < length s.item_buffer
      → s.num_released_items + 2 < 2 ^ 32
      → (t t' : ProducerConsumer T) × (begin n (release_call (slot x)) s ≡ ok (release_lock x, s))
        × (proceed n (release_lock x) s ≡ ok (item_release, t))
        × (proceed n (release_lock x) t ≡ ok (item_release, t'))
        × (get_elem? t'.released_buffer s.next_release ≡ some (some x))
        × (get_elem? t'.released_buffer (advance n s.next_release) ≡ some (some x))
        × (t'.num_released_items ≡ s.num_released_items + 2)
  unfolding begin proceed
  release_races x it at used producing two small next size inside released =
      let (apart, less) = advance-ne n s.next_release two small next in
      let buffer = set s.released_buffer s.next_release (some x) in
      let t = entered n x it s in
      let it' : Item T = record it { in_production = false } in
      (
        t,
        entered n x it' t,
        rw (at, used, producing) refl,
        section_enters n x it s unlocked at,
        section_enters n x it' t refl
            (rw (get_elem?-set s.item_buffer x x it' inside, eq→== x x refl) refl),
        rw
            (
              get_elem?-set buffer (advance n s.next_release) s.next_release (some x)
                  (omega (arith, less, length-set s.released_buffer s.next_release (some x), size)),
              ne→== (advance n s.next_release) s.next_release apart,
              get_elem?-set s.released_buffer s.next_release s.next_release (some x)
                  (omega (arith, next, size)),
              eq→== s.next_release s.next_release refl,
            )
            refl,
        rw
            (
              get_elem?-set buffer (advance n s.next_release) (advance n s.next_release) (some x)
                  (omega (arith, less, length-set s.released_buffer s.next_release (some x), size)),
              eq→== (advance n s.next_release) (advance n s.next_release) refl,
            )
            refl,
        omega arith,
      )
