-- ===== src/ProducerConsumer/Session.antt =====
-- A client's calls of one context in sequence, with what it sends and receives. The client writes
-- an item through the reference of `produce`, and reads it through the pointer of `consume`.
pub mod Subsequence
pub mod Calls
pub mod Write
pub mod Ordered
pub mod Fifo
pub mod Tests
use slirp4tinc.Prelude.{ℕ, Bool, true, false, Option, none, some, List, [], ◌∷◌, ◌++◌}
use slirp4tinc.Prelude.Run.{Run, ok, undefined, ◌>>=◌, ◌>>◌}
use slirp4tinc.ProducerConsumer.{
  ProducerConsumer, Ref, slot, item_at, put_item, produce, release, consume, cleanup,
}

-- The reference or pointer that a call is given is the slot that it points at.
pub data Op (T : Type 0) : Type 0 where
  produce_op : Bool → Op T
  write_op : ℕ → T → Op T
  release_op : ℕ → Op T
  consume_op : Bool → Op T
  cleanup_op : ℕ → Op T

-- The payloads at the time of each `release`, and those that `consume` handed out, in order.
pub record Session (T : Type 0) : Type 0 where
  pub context : ProducerConsumer T
  pub sent : List T
  pub received : List T

module _ {T : Type 0} where
  -- A client that writes an item which it does not have in production misuses the context.
  pub write : ℕ → T → ProducerConsumer T → Run (ProducerConsumer T)
  write x v s = do
    it ← item_at s x
    elim it.in_production [
      | true ↦ ok (put_item s x (record it { payload = v }))
      | false ↦ undefined
    ]

  -- What a `consume` handed out is read.
  pub receive : Option ℕ → ProducerConsumer T → Session T → Run (Session T)
  receive none s c = ok (record c { context = s })
  receive (some x) s c = do
    it ← item_at s x
    ok (record c { context = s; received = c.received ++ it.payload ∷ [] })

  pub step : ℕ → Op T → Session T → Run (Session T)
  unfolding write receive
  step n (produce_op block) c = do (x, s) ← produce n block c.context; ok (record c { context = s })
  step n (write_op x v) c = do s ← write x v c.context; ok (record c { context = s })
  step n (release_op x) c = do
    it ← item_at c.context x
    s ← release n (slot x) c.context
    ok (record c { context = s; sent = c.sent ++ it.payload ∷ [] })
  step n (consume_op block) c = do (x, s) ← consume n block c.context; receive x s c
  step n (cleanup_op x) c = do
    s ← cleanup n (some (slot x)) c.context
    ok (record c { context = s })

  pub run : ℕ → List (Op T) → Session T → Run (Session T)
  unfolding step
  run n [] c = ok c
  run n (o ∷ os) c = do c' ← step n o c; run n os c'
