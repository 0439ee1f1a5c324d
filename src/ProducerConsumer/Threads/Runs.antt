-- ===== src/ProducerConsumer/Threads/Runs.antt =====
-- What holds in every state that threads reach.
use mathlib.Core.Path.{subst}
use mathlib.Core.List.{append-nil}
use slirp4tinc.Prelude.{
  ℕ, zero, suc, ◌≡◌, refl, sym, ◌∙◌, ◌<◌, ◌^◌, Bool, none, List, ◌∷◌, [], ◌++◌, arith, replicate,
}
use slirp4tinc.Prelude.Run.{
  Run, ok, blocked, assert_failed, exited, undefined, ok-injective, Safe, Returns, Ends-ok, Safe-ok,
}
use slirp4tinc.ProducerConsumer.{ProducerConsumer, construct}
use slirp4tinc.ProducerConsumer.Pool
use slirp4tinc.ProducerConsumer.Pool.{Pool}
use slirp4tinc.ProducerConsumer.Rep.{Rep}
use slirp4tinc.ProducerConsumer.Refine.Construct.{construct-Rep}
use slirp4tinc.ProducerConsumer.Threads.{
  Point, outside, free_acquire, item_acquire, begin, proceed, produce_call, consume_call, Step,
  begins, proceeds, writes, Reachable, starts, steps, IsOrderly, AreOrderly, releases, cleans,
  total,
}
use slirp4tinc.ProducerConsumer.Threads.Sections.{Rep-settled}
use slirp4tinc.ProducerConsumer.Threads.Invariant.{
  IsConsistent, free_of, item_of_point, proceed-Safe,
}
use slirp4tinc.ProducerConsumer.Threads.Begins.{begin-Ends}
use slirp4tinc.ProducerConsumer.Threads.Log.{waiting, values, step_released, step_leaving}
use slirp4tinc.ProducerConsumer.Threads.Writes.{writes-Keeps}

outside-total :
    (weight : Point → ℕ)
    → weight (outside none) ≡ 0
    → (threads : ℕ) → total weight (replicate threads (outside none)) ≡ 0
outside-total weight e zero = refl
outside-total weight e (suc threads) = omega (arith, e, outside-total weight e threads)

-- Every thread is outside of the calls, about to wait for a slot, or about to enter the section of
-- `release` or `cleanup`.
abbrev pub AreWaiting : List Point → Type 0
AreWaiting [] = Unit
AreWaiting (point ∷ points) = (free_of point ≡ 0) × (item_of_point point ≡ 0) × AreWaiting points

waiting-total :
    (points : List Point)
    → AreWaiting points
    → (total free_of points ≡ 0) × (total item_of_point points ≡ 0)
waiting-total [] h = (refl, refl)
waiting-total (point ∷ points) (f, i, h) =
    let (a, b) = waiting-total points h in (omega (arith, a, f), omega (arith, b, i))

Safe-any : {A : Type 0} (P : A → Type 0) (r : Run A) → Safe P r → Safe (λ a. Unit) r
Safe-any P (ok a) h = tt
Safe-any P blocked h = tt
Safe-any P assert_failed h = h
Safe-any P (exited c) h = h
Safe-any P undefined h = h

module _ {T : Type 0} where
  -- A step keeps what holds, and the payloads wait in the order in which they came.
  pub Step-IsConsistent :
      {n : ℕ} {a b : List Point × ProducerConsumer T} (step : Step n a b)
      (c : IsConsistent n a.0 a.1)
      → IsOrderly step
      → (c' : IsConsistent n b.0 b.1) × (waiting c.pool ++ step_released step
          ≡ values (step_leaving step) ++ waiting c'.pool)
  unfolding step_released step_leaving IsOrderly
  Step-IsConsistent {n} (begins front back result call after s s' e) c owner =
      Ends-ok _ (begin n call s) e (begin-Ends front back s result call c owner)
  Step-IsConsistent {n} (proceeds front back before after s s' e) c owner =
      Safe-ok _ (proceed n before s) e (proceed-Safe front back s before c)
  Step-IsConsistent {n} (writes points x it v s at producing) c owner =
      let (c', same) = writes-Keeps points x it v s at producing c in (c', append-nil _ ∙ same)

  pub starts-IsConsistent :
      {n : ℕ} {s0 : ProducerConsumer T} {p : Pool T}
      → Rep n s0 p
      → (threads : ℕ) → (c : IsConsistent n (replicate threads (outside none)) s0) × (c.pool ≡ p)
  starts-IsConsistent {p} r threads = (
    record {
      pool = p;
      rep = Rep-settled r;
      mutex = r.counts.mutex;
      free = omega (arith, outside-total free_of refl threads, r.counts.free);
      item = omega (arith, outside-total item_of_point refl threads, r.counts.item);
      claims = record {
        releasing = λ x. omega (arith, outside-total (releases x) refl threads);
        cleaning = λ x. omega (arith, outside-total (cleans x) refl threads);
      };
    },
    refl,
  )

  runs-IsConsistent :
      {n : ℕ} {s0 : ProducerConsumer T} {p : Pool T} {a : List Point × ProducerConsumer T}
      → Rep n s0 p
      → (run : Reachable n s0 a) → AreOrderly run
      → IsConsistent n a.0 a.1
  unfolding AreOrderly
  runs-IsConsistent r (starts threads) orderly = (starts-IsConsistent r threads).0
  runs-IsConsistent r (steps run step) (orderly, owner) =
      (Step-IsConsistent step (runs-IsConsistent r run orderly) owner).0

  -- A semaphore that a thread waits for is zero.
  free_none : (n : ℕ) (s : ProducerConsumer T) → proceed n free_acquire s ≡ blocked → s.free ≡ 0
  unfolding proceed
  free_none n s e = ground (arith, e)

  item_none : (n : ℕ) (s : ProducerConsumer T) → proceed n item_acquire s ≡ blocked → s.item ≡ 0
  unfolding proceed
  item_none n s e = ground (arith, e)

  module _ (n : ℕ) (v : ℕ → T) (s0 : ProducerConsumer T) (more : 0 < n) (small : n < 2 ^ 31)
      (constructed : construct n v ≡ ok s0) where
    -- In every state that any number of threads reach on a new context of at least one and less
    -- than 2 ^ 31 items, if no thread begins to release an item that another one is releasing, nor
    -- to clean up one that another one is cleaning up: the mutex is free between the sections, and the context represents a pool
    -- of slots, each in one place, with the free and the released ones in the order of their queues.
    -- The semaphores stand at the numbers of free and of released slots, less one for each thread
    -- that has taken or not yet made a post. An item that a thread is releasing, past the asserts,
    -- is in production, and one that it is cleaning up is in consumption.
    pub Reachable-IsConsistent :
        (points : List Point) (s : ProducerConsumer T)
        → (run : Reachable n s0 (points, s)) → AreOrderly run
        → IsConsistent n points s
    Reachable-IsConsistent points s run orderly =
        let (s1, same, r) = construct-Rep n v more small in
        runs-IsConsistent
          (subst (λ (t : ProducerConsumer T). Rep n t (Pool.initial n v))
            (ok-injective (sym same ∙ constructed)) r)
          run orderly

    -- In every state that threads reach on a new context of at least one and less than 2 ^ 31 items,
    -- if no thread begins to release an item that another one is releasing, nor to clean up one that
    -- another one is cleaning up: a thread inside of a call, past the asserts of `release` and
    -- `cleanup` on what the caller gives, goes on or waits for a semaphore, but fails no assert and
    -- does nothing undefined, and the first section of `produce` and `consume` returns.
    pub Reachable-Safe :
        (front back : List Point) (point : Point) (s : ProducerConsumer T)
        → (run : Reachable n s0 (front ++ point ∷ back, s)) → AreOrderly run
        → Safe (λ after. Unit) (proceed n point s)
          × ((block : Bool) → Returns (λ after. Unit) (begin n (produce_call block) s))
          × ((block : Bool) → Returns (λ after. Unit) (begin n (consume_call block) s))
    unfolding begin
    Reachable-Safe front back point s run orderly =
        let c = Reachable-IsConsistent (front ++ point ∷ back) s run orderly in
        (
          Safe-any _ (proceed n point s) (proceed-Safe front back s point c),
          λ block. rw c.mutex tt,
          λ block. rw c.mutex tt,
        )

    -- In every state that threads reach so, with the same condition on the calls of `release` and
    -- `cleanup`, and in which each thread is outside of the calls, about to wait for a slot, or about
    -- to enter the section of `release` or `cleanup`: a thread waits for a free slot only if all are
    -- taken, and for a released one only if none is.
    pub Reachable-waits :
        (points : List Point) (s : ProducerConsumer T)
        → (run : Reachable n s0 (points, s)) → AreOrderly run
        → AreWaiting points
        → (proceed n free_acquire s ≡ blocked → s.num_produced_items ≡ n)
          × (proceed n item_acquire s ≡ blocked → s.num_released_items ≡ 0)
    unfolding proceed
    Reachable-waits points s run orderly waiting =
        let c = Reachable-IsConsistent points s run orderly in
        let (a, b) = waiting-total points waiting in
        (
          (λ e. omega (arith, a, c.free, c.rep.counts.produced, free_none n s e)),
          (λ e. omega (arith, b, c.item, c.rep.counts.released, item_none n s e)),
        )
