-- ===== src/ProducerConsumer/Session/Fifo.antt =====
-- What a client receives is what it sent, in order.
use slirp4tinc.Prelude.{ℕ, ◌≡◌, refl, sym, ◌∙◌, ◌<◌, ◌^◌, some, List, [], ◌∷◌, map}
use mathlib.Core.Path.{subst}
use slirp4tinc.Prelude.Run.{ok, >>=-eq-ok}
use slirp4tinc.ProducerConsumer.{
  ProducerConsumer, slot, item_at, produce, release, consume, cleanup, construct,
}
use slirp4tinc.ProducerConsumer.Pool
use slirp4tinc.ProducerConsumer.Pool.{Pool}
use slirp4tinc.ProducerConsumer.Rep.{Rep}
use slirp4tinc.ProducerConsumer.Refine.Construct.{construct-Rep}
use slirp4tinc.ProducerConsumer.Session.{
  Op, produce_op, write_op, release_op, consume_op, cleanup_op, Session, write, step, run,
}
use slirp4tinc.ProducerConsumer.Session.Subsequence.{Subsequence, nil, Subsequence-more}
use slirp4tinc.ProducerConsumer.Session.Calls.{}
use slirp4tinc.ProducerConsumer.Session.Ordered.{
  IsOrdered, produce-IsOrdered, consume-IsOrdered, release-IsOrdered, cleanup-IsOrdered,
  write-IsOrdered,
}
use slirp4tinc.Prelude.Run.{ok-injective, deref_ok}

module _ {T : Type 0} where
  step-IsOrdered :
      (n : ℕ) (o : Op T) (c c' : Session T) → IsOrdered n c → step n o c ≡ ok c' → IsOrdered n c'
  unfolding step
  step-IsOrdered n (produce_op block) c c' h e =
      let (r, e1, e2) = >>=-eq-ok (produce n block c.context) _ e in
      subst (IsOrdered n) (ok-injective e2) (produce-IsOrdered n c h block r.0 r.1 e1)
  step-IsOrdered n (write_op x v) c c' h e =
      let (s, e1, e2) = >>=-eq-ok (write x v c.context) _ e in
      subst (IsOrdered n) (ok-injective e2) (write-IsOrdered n c h x v s e1)
  step-IsOrdered n (release_op x) c c' h e =
      let (it, e1, e2) = >>=-eq-ok (item_at c.context x) _ e in
      let (s, e3, e4) = >>=-eq-ok (release n (slot x) c.context) _ e2 in
      subst (IsOrdered n) (ok-injective e4) (release-IsOrdered n c h x it s (deref_ok _ e1) e3)
  step-IsOrdered n (consume_op block) c c' h e =
      let (r, e1, e2) = >>=-eq-ok (consume n block c.context) _ e in
      consume-IsOrdered n c h block r.0 r.1 c' e1 e2
  step-IsOrdered n (cleanup_op x) c c' h e =
      let (s, e1, e2) = >>=-eq-ok (cleanup n (some (slot x)) c.context) _ e in
      subst (IsOrdered n) (ok-injective e2) (cleanup-IsOrdered n c h x s e1)

  run-IsOrdered :
      (n : ℕ) (os : List (Op T)) (c c' : Session T)
      → IsOrdered n c
      → run n os c ≡ ok c'
      → IsOrdered n c'
  unfolding run
  run-IsOrdered n [] c c' h e = subst (IsOrdered n) (ok-injective e) h
  run-IsOrdered n (o ∷ os) c c' h e =
      let (d, e1, e2) = >>=-eq-ok (step n o c) _ e in
      run-IsOrdered n os d c' (step-IsOrdered n o c d h e1) e2

  -- Whatever a client calls on a new context of at least one and less than 2 ^ 31 items, in any
  -- order and with any blocking flags: as long as the calls return, the payloads that it receives
  -- are payloads that it released, each received at most once and in the order of the releases.
  pub received-Subsequence :
      (n : ℕ) (v : ℕ → T) (s : ProducerConsumer T) (os : List (Op T)) (c : Session T)
      → 0 < n
      → n < 2 ^ 31
      → construct n v ≡ ok s
      → run n os (record { context = s; sent = []; received = [] }) ≡ ok c
      → Subsequence c.received c.sent
  received-Subsequence n v s os c pos small made ran =
      let (s0, e0, rep) = construct-Rep n v pos small in
      let start : Rep n s (Pool.initial n v) =
        subst (λ t. Rep n t (Pool.initial n v)) (ok-injective (sym e0 ∙ made)) rep in
      let h =
        run-IsOrdered n os _ c
          (record { pool = Pool.initial n v; rep = start; left = []; sent = refl; received = nil })
          ran in
      subst (Subsequence c.received) (sym h.sent)
        (Subsequence-more (map h.pool.payload h.pool.released) h.received)
