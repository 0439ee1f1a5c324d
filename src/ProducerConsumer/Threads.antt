-- ===== src/ProducerConsumer/Threads.antt =====
-- Threads that call the operations of one context at the same time. The steps are the calls of the
-- semaphores, the sections that hold the mutex, which exclude one another, and the asserts of `release`
-- and `cleanup`, which stand before the mutex is taken. The two asserts on the flags of an item are one
-- step: an item in production, and one in consumption, is in use.
pub mod Log
pub mod Sections
pub mod Invariant
pub mod Begins
pub mod Writes
pub mod Runs
pub mod Fifo
pub mod Races
pub mod Tests
use slirp4tinc.Prelude.{
  ℕ, ◌+◌, ◌≡◌, count, Bool, true, false, not, ◌&&◌, Option, none, some, List, [], ◌∷◌, ◌++◌, ◌==◌,
  if◌then◌else◌, replicate, get_elem?,
}
use slirp4tinc.Prelude.Run.{Run, ok, ◌>>=◌}
use slirp4tinc.ProducerConsumer.{
  ProducerConsumer, Item, put_item, Ref, slot, lock, unlock, acquire_free, release_free,
  acquire_item, release_item, evict_oldest, take_free, release_checks, release_section,
  take_released, cleanup_checks, cleanup_section, slots_available, items_available,
}

pub data Call : Type 0 where
  produce_call : Bool → Call
  release_call : Ref → Call
  consume_call : Bool → Call
  cleanup_call : Option Ref → Call
  slots_call items_call : Call

-- Where a thread stands: outside of the calls, with the item that the last one returned, or before
-- the step that the name says.
pub data Point : Type 0 where
  outside : Option ℕ → Point
  -- `produce`: item.acquire(), the section that takes the oldest item back, free.acquire(), and the
  -- section that takes a free one.
  evict_acquire evict_section free_acquire take_section : Point
  -- `release`: the section of an item that passed the asserts, and item.release().
  release_lock : ℕ → Point
  item_release : Point
  -- `consume`: item.acquire(), and the section behind it.
  item_acquire consume_section : Point
  -- `cleanup`: the section of an item that passed the asserts, and free.release().
  cleanup_lock : ℕ → Point
  free_release : Point

-- How many threads stand before the section of `release`, or of `cleanup`, with the item `x`.
abbrev pub releases : ℕ → Point → ℕ
releases x (release_lock y) = count x (y ∷ [])
releases x point = 0

abbrev pub cleans : ℕ → Point → ℕ
cleans x (cleanup_lock y) = count x (y ∷ [])
cleans x point = 0

abbrev pub total : (Point → ℕ) → List Point → ℕ
total weight [] = 0
total weight (point ∷ points) = weight point + total weight points

-- A call does not release an item that another thread is releasing, nor clean one up that another
-- thread is cleaning up.
abbrev pub IsOwner : Call → List Point → Type 0
IsOwner (release_call (slot x)) others = total (releases x) others ≡ 0
IsOwner (cleanup_call (some (slot x))) others = total (cleans x) others ≡ 0
IsOwner call others = Unit

module _ {ℓ} {T : Type ℓ} where
  -- The first step of a call.
  pub begin : ℕ → Call → ProducerConsumer T → Run (Point × ProducerConsumer T)
  unfolding release_checks cleanup_checks slots_available items_available
  begin n (produce_call block) s = do
    s1 ← lock s
    let full = not block && (n == s1.num_produced_items)
    s2 ← unlock s1
    ok (if full then evict_acquire else free_acquire, s2)
  begin n (release_call p) s = do product ← release_checks p s; ok (release_lock product, s)
  begin n (consume_call block) s = do
    s1 ← lock s
    let empty = not block && (0 == s1.num_released_items)
    s2 ← unlock s1
    ok (if empty then outside none else item_acquire, s2)
  begin n (cleanup_call o) s = do object ← cleanup_checks o s; ok (cleanup_lock object, s)
  begin n slots_call s = do (free, s1) ← slots_available n s; ok (outside none, s1)
  begin n items_call s = do (released, s1) ← items_available s; ok (outside none, s1)

  -- The step that a thread inside of a call stands before.
  pub proceed : ℕ → Point → ProducerConsumer T → Run (Point × ProducerConsumer T)
  unfolding evict_oldest take_free take_released release_section cleanup_section
  proceed n (outside result) s = ok (outside result, s)
  proceed n evict_acquire s = do s1 ← acquire_item s; ok (evict_section, s1)
  proceed n evict_section s = do
    s1 ← lock s
    s2 ← evict_oldest n s1
    s3 ← unlock s2
    ok (free_acquire, s3)
  proceed n free_acquire s = do s1 ← acquire_free s; ok (take_section, s1)
  proceed n take_section s = do
    s1 ← lock s
    (product, s2) ← take_free n s1
    s3 ← unlock s2
    ok (outside (some product), s3)
  proceed n (release_lock x) s = do s1 ← release_section n x s; ok (item_release, s1)
  proceed n item_release s = do s1 ← release_item s; ok (outside none, s1)
  proceed n item_acquire s = do s1 ← acquire_item s; ok (consume_section, s1)
  proceed n consume_section s = do
    s1 ← lock s
    (object, s2) ← take_released n s1
    s3 ← unlock s2
    ok (outside object, s3)
  proceed n (cleanup_lock x) s = do s1 ← cleanup_section n x s; ok (free_release, s1)
  proceed n free_release s = do s1 ← release_free s; ok (outside none, s1)

  -- A step of one of the threads.
  pub data Step (n : ℕ)
      : List Point × ProducerConsumer T → List Point × ProducerConsumer T → Type ℓ where
    begins :
        (front back : List Point) (result : Option ℕ) (call : Call) (after : Point)
        (s s' : ProducerConsumer T)
        → begin n call s ≡ ok (after, s')
        → Step n (front ++ outside result ∷ back, s) (front ++ after ∷ back, s')
    proceeds :
        (front back : List Point) (before after : Point) (s s' : ProducerConsumer T)
        → proceed n before s ≡ ok (after, s')
        → Step n (front ++ before ∷ back, s) (front ++ after ∷ back, s')
    -- A client writes to an item that it has been handed by `produce`.
    writes :
        (points : List Point) (x : ℕ) (it : Item T) (v : T) (s : ProducerConsumer T)
        → get_elem? s.item_buffer x ≡ some it
        → it.in_production ≡ true
        → Step n (points, s) (points, put_item s x (record it { payload = v }))

  -- What the steps of any number of threads lead to, from outside of all calls.
  pub data Reachable (n : ℕ) (s0 : ProducerConsumer T)
      : List Point × ProducerConsumer T → Type ℓ where
    starts : (threads : ℕ) → Reachable n s0 (replicate threads (outside none), s0)
    steps :
        {a b : List Point × ProducerConsumer T} → Reachable n s0 a → Step n a b → Reachable n s0 b

  -- The calls of a run are made by owners.
  unfoldable pub IsOrderly : {n : ℕ} {a b : List Point × ProducerConsumer T} → Step n a b → Type 0
  IsOrderly (begins front back result call after s s' e) = IsOwner call (front ++ back)
  IsOrderly step = Unit

  unfoldable pub AreOrderly :
      {n : ℕ} {s0 : ProducerConsumer T} {a : List Point × ProducerConsumer T}
      → Reachable n s0 a
      → Type 0
  unfolding IsOrderly
  AreOrderly (starts threads) = Unit
  AreOrderly (steps run step) = AreOrderly run × IsOrderly step
