-- ===== src/ProducerConsumer.antt =====
-- src/Util/ProducerConsumer.h: a pool of `n` items (the template parameter `ItemNumber`) that go
-- round between producers and consumers. The item's base class `T` is a type parameter. A pointer
-- into `itemBuffer` is the item's index, and a null pointer is `none`. An `int` counter is its 32-bit
-- pattern, so `++` and `--` are taken modulo 2 ^ 32. Every `acquire` and `release` of the three
-- semaphores is made, in the order of the source.
pub mod Pool
pub mod Ring
pub mod Rep
pub mod Refine
pub mod Exchange
pub mod Session
pub mod Threads
use slirp4tinc.Prelude.{
  ℕ, ◌+◌, ◌-◌, ◌%◌, ◌^◌, Bool, true, false, not, ◌&&◌, Option, none, some, List, map, ◌==◌,
  if◌then◌else◌, get_elem?, set, replicate, range,
}
use slirp4tinc.Prelude.Run.{Run, ok, undefined, ◌>>=◌, ◌>>◌, assert, deref}
use slirp4tinc.Counting

-- `struct Item : public T`
pub record Item {ℓ} (T : Type ℓ) : Type ℓ where
  pub payload : T
  pub in_production : Bool
  pub in_consumption : Bool
  pub in_use : Bool

-- The data members. `free`, `item` and `mutex` are the semaphores' values.
pub record ProducerConsumer {ℓ} (T : Type ℓ) : Type ℓ where
  pub item_buffer : List (Item T)
  pub free_buffer : List (Option ℕ)
  pub released_buffer : List (Option ℕ)
  pub num_produced_items : ℕ
  pub num_released_items : ℕ
  pub free : ℕ
  pub item : ℕ
  pub mutex : ℕ
  pub next_add : ℕ
  pub next_release : ℕ
  pub next_consume : ℕ
  pub next_removed : ℕ

-- `++i` and `--i` on an `int`
abbrev pub increment : ℕ → ℕ
increment i = (i + 1) % 2 ^ 32

abbrev pub decrement : ℕ → ℕ
decrement i = (i + 2 ^ 32 - 1) % 2 ^ 32

-- `++i; i %= n`
abbrev pub advance : ℕ → ℕ → ℕ
advance n i = increment i % n

-- Where a client's reference or pointer points: at an item of this buffer, or at any other object.
pub data Ref : Type 0 where
  slot : ℕ → Ref
  foreign : Ref

-- `static_cast<Item*>(p)`, whose flags are read next: an object that is no item has none.
abbrev pub item_of_ref : Ref → Run ℕ
item_of_ref (slot i) = ok i
item_of_ref foreign = undefined

-- `operator[](idx)`: the slot that the reference points at.
pub index : ℕ → ℕ → Ref
index n idx = slot (idx % n)

module _ {ℓ} {T : Type ℓ} where
  abbrev pub lock : ProducerConsumer T → Run (ProducerConsumer T)
  lock s = do m ← Counting.acquire s.mutex; ok (record s { mutex = m })

  abbrev pub unlock : ProducerConsumer T → Run (ProducerConsumer T)
  unlock s = do m ← Counting.release s.mutex; ok (record s { mutex = m })

  abbrev pub acquire_free : ProducerConsumer T → Run (ProducerConsumer T)
  acquire_free s = do m ← Counting.acquire s.free; ok (record s { free = m })

  abbrev pub release_free : ProducerConsumer T → Run (ProducerConsumer T)
  release_free s = do m ← Counting.release s.free; ok (record s { free = m })

  abbrev pub acquire_item : ProducerConsumer T → Run (ProducerConsumer T)
  acquire_item s = do m ← Counting.acquire s.item; ok (record s { item = m })

  abbrev pub release_item : ProducerConsumer T → Run (ProducerConsumer T)
  release_item s = do m ← Counting.release s.item; ok (record s { item = m })

  -- `*p` for an `Item*` that points into the buffer.
  abbrev pub item_at : ProducerConsumer T → ℕ → Run (Item T)
  item_at s i = deref (get_elem? s.item_buffer i)

  abbrev pub put_item : ProducerConsumer T → ℕ → Item T → ProducerConsumer T
  put_item s i it = record s { item_buffer = set s.item_buffer i it }

  -- The block of `produce` that takes the oldest released item back, behind `item.acquire()`.
  pub evict_oldest : ℕ → ProducerConsumer T → Run (ProducerConsumer T)
  evict_oldest n s = do
    p ← deref (get_elem? s.released_buffer s.next_consume)
    product ← deref p
    it ← item_at s product
    assert (not it.in_production)
    assert (not it.in_consumption)
    let s1 = put_item s product (record it { in_use = false })
    release_free (record s1 {
      free_buffer = set s.free_buffer s.next_removed (some product);
      released_buffer = set s.released_buffer s.next_consume none;
      next_consume = advance n s.next_consume;
      next_removed = advance n s.next_removed;
      num_produced_items = decrement s.num_produced_items;
      num_released_items = decrement s.num_released_items;
    })

  -- The last block of `produce`, behind `free.acquire()`.
  pub take_free : ℕ → ProducerConsumer T → Run (ℕ × ProducerConsumer T)
  take_free n s = do
    p ← deref (get_elem? s.free_buffer s.next_add)
    let s1 = record s { free_buffer = set s.free_buffer s.next_add none }
    product ← elim p [ none ↦ Run.assert_failed | some q ↦ ok q ]
    it ← item_at s1 product
    assert (not it.in_use)
    assert (not it.in_production)
    let s2 = put_item s1 product (record it { in_production = true; in_use = true })
    ok (
      product,
      record s2 {
        next_add = advance n s.next_add;
        num_produced_items = increment s.num_produced_items;
      },
    )

  -- `if (!block && (ItemNumber == numProducedItems))`, entered with the mutex held and left so.
  pub make_room : ℕ → Bool → ProducerConsumer T → Run (ProducerConsumer T)
  unfolding evict_oldest
  make_room n block s =
      if not block && (n == s.num_produced_items)
      then (do s1 ← unlock s; s2 ← acquire_item s1; s3 ← lock s2; evict_oldest n s3)
      else ok s

  abbrev pub fresh_item : (ℕ → T) → ℕ → Item T
  fresh_item initial i = record {
    payload = initial i;
    in_production = false;
    in_consumption = false;
    in_use = false;
  }

  -- `produce(block)`
  pub produce : ℕ → Bool → ProducerConsumer T → Run (ℕ × ProducerConsumer T)
  unfolding make_room take_free
  produce n block s = do
    s1 ← lock s
    s2 ← make_room n block s1
    s3 ← unlock s2
    s4 ← acquire_free s3
    s5 ← lock s4
    (product, s6) ← take_free n s5
    s7 ← unlock s6
    ok (product, s7)

  -- The asserts of `release(p)`, which stand before `mutex.acquire()`.
  pub release_checks : Ref → ProducerConsumer T → Run ℕ
  release_checks p s = do
    product ← item_of_ref p
    it ← item_at s product
    assert it.in_use
    assert it.in_production
    ok product

  -- `release(p)` from `mutex.acquire()` to `mutex.release()`
  pub release_section : ℕ → ℕ → ProducerConsumer T → Run (ProducerConsumer T)
  release_section n product s = do
    s1 ← lock s
    it ← item_at s1 product
    let s2 = put_item s1 product (record it { in_production = false })
    unlock (record s2 {
      released_buffer = set s.released_buffer s.next_release (some product);
      next_release = advance n s.next_release;
      num_released_items = increment s.num_released_items;
    })

  -- `release(p)`
  pub release : ℕ → Ref → ProducerConsumer T → Run (ProducerConsumer T)
  unfolding release_checks release_section
  release n p s = do product ← release_checks p s; s' ← release_section n product s; release_item s'

  -- The part of `consume` behind `item.acquire()`.
  pub take_released : ℕ → ProducerConsumer T → Run (Option ℕ × ProducerConsumer T)
  take_released n s = do
    p ← deref (get_elem? s.released_buffer s.next_consume)
    let s1 = record s { released_buffer = set s.released_buffer s.next_consume none }
    object ← elim p [ none ↦ Run.assert_failed | some q ↦ ok q ]
    it ← item_at s1 object
    assert it.in_use
    let s2 = put_item s1 object (record it { in_consumption = true })
    ok (
      some object,
      record s2 {
        next_consume = advance n s.next_consume;
        num_released_items = decrement s.num_released_items;
      },
    )

  -- `consume(block)`; `none` is the null pointer.
  pub consume : ℕ → Bool → ProducerConsumer T → Run (Option ℕ × ProducerConsumer T)
  unfolding take_released
  consume n block s = do
    s1 ← lock s
    let empty = not block && (0 == s1.num_released_items)
    s2 ← unlock s1
    if empty then ok (none, s2) else (do
      s3 ← acquire_item s2
      s4 ← lock s3
      (object, s5) ← take_released n s4
      s6 ← unlock s5
      ok (object, s6))

  -- The asserts of `cleanup(o)`, which stand before `mutex.acquire()`; a null pointer fails the first.
  pub cleanup_checks : Option Ref → ProducerConsumer T → Run ℕ
  cleanup_checks none s = Run.assert_failed
  cleanup_checks (some o) s = do
    object ← item_of_ref o
    it ← item_at s object
    assert it.in_use
    assert it.in_consumption
    ok object

  -- `cleanup(o)` from `mutex.acquire()` to `mutex.release()`
  pub cleanup_section : ℕ → ℕ → ProducerConsumer T → Run (ProducerConsumer T)
  cleanup_section n object s = do
    s1 ← lock s
    it ← item_at s1 object
    let s2 = put_item s1 object (record it { in_use = false; in_consumption = false })
    unlock (record s2 {
      free_buffer = set s.free_buffer s.next_removed (some object);
      next_removed = advance n s.next_removed;
      num_produced_items = decrement s.num_produced_items;
    })

  -- `cleanup(o)`
  pub cleanup : ℕ → Option Ref → ProducerConsumer T → Run (ProducerConsumer T)
  unfolding cleanup_checks cleanup_section
  cleanup n o s = do object ← cleanup_checks o s; s' ← cleanup_section n object s; release_free s'

  -- `slotsAvailable()` and `itemsAvailable()`
  pub slots_available : ℕ → ProducerConsumer T → Run (ℕ × ProducerConsumer T)
  slots_available n s = do
    s1 ← lock s
    let ret = (n + 2 ^ 32 - s1.num_produced_items) % 2 ^ 32
    s2 ← unlock s1
    ok (ret, s2)

  pub items_available : ProducerConsumer T → Run (ℕ × ProducerConsumer T)
  items_available s = do s1 ← lock s; let ret = s1.num_released_items; s2 ← unlock s1; ok (ret, s2)

  -- The constructor. The items' base class is default-initialised: `initial` gives its values.
  pub construct : ℕ → (ℕ → T) → Run (ProducerConsumer T)
  construct n initial = do
    let fresh : ProducerConsumer T = record {
      item_buffer = map (fresh_item initial) (range 0 n);
      free_buffer = map some (range 0 n);
      released_buffer = replicate n none;
      num_produced_items = 0;
      num_released_items = 0;
      free = n;
      item = 0;
      mutex = 1;
      next_add = 0;
      next_release = 0;
      next_consume = 0;
      next_removed = 0;
    }
    s1 ← lock fresh
    unlock s1
