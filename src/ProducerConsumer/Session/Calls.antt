-- ===== src/ProducerConsumer/Session/Calls.antt =====
-- What a call of a pool that returns leaves of the released slots.
use slirp4tinc.Prelude.{
  ℕ, ◌≡◌, Bool, true, none, some, List, [], ◌∷◌, ◌++◌, arith, inl, inr, List-cases, has,
}
use slirp4tinc.Prelude.Run.{ok}
use slirp4tinc.ProducerConsumer.{slot}
use slirp4tinc.ProducerConsumer.Pool
use slirp4tinc.ProducerConsumer.Pool.{Pool}

module _ {T : Type 0} where
  -- A call of `produce` drops slots at the front of the released ones at most.
  pub produce-released :
      (block : Bool) (p q : Pool T) (x : ℕ)
      → Pool.produce block p ≡ ok (x, q)
      → (dropped : List ℕ) × (p.released ≡ dropped ++ q.released) × (q.payload ≡ p.payload)
  unfolding Pool.produce
  produce-released block p q x e = elim (List-cases p.free) [
    | inl none_free ↦ elim (List-cases p.released) [
      | inl none_released ↦ absurd (ground arith)
      | inr (y, ys, d) ↦ (y ∷ [], ground arith, ground arith)
    ]
    | inr (f, fs, d) ↦ ([], ground arith, ground arith)
  ]

  pub consume-none : (block : Bool) (p q : Pool T) → Pool.consume block p ≡ ok (none, q) → q ≡ p
  unfolding Pool.consume
  consume-none block p q e = ground arith

  pub consume-some :
      (block : Bool) (p q : Pool T) (x : ℕ)
      → Pool.consume block p ≡ ok (some x, q)
      → (p.released ≡ x ∷ q.released) × (q.payload ≡ p.payload) × (has x q.consuming ≡ true)
  unfolding Pool.consume
  consume-some block p q x e = ground arith

  pub release_pool :
      (p q : Pool T) (x : ℕ)
      → Pool.release (slot x) p ≡ ok q
      → (q.released ≡ p.released ++ x ∷ []) × (q.payload ≡ p.payload)
  unfolding Pool.release
  release_pool p q x e = ground arith

  pub cleanup_pool :
      (p q : Pool T) (x : ℕ)
      → Pool.cleanup (some (slot x)) p ≡ ok q
      → (q.released ≡ p.released) × (q.payload ≡ p.payload)
  unfolding Pool.cleanup
  cleanup_pool p q x e = ground arith
