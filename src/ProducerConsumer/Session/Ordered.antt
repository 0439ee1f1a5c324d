-- ===== src/ProducerConsumer/Session/Ordered.antt =====
-- The invariant behind the order of what a client receives, kept by every call.
use slirp4tinc.Prelude.{
  ℕ, ◌≡◌, ap, sym, ◌∙◌, ◌<◌, Bool, Option, none, some, List, [], ◌∷◌, ◌++◌, map, arith, get_elem?,
  get_elem?_beyond, count,
}
use mathlib.Core.Path.{subst}
use native.Mathlib.Decide.{dec_lt}
use mathlib.Core.List.{append_assoc, map-append}
use slirp4tinc.Prelude.Run.{ok}
use slirp4tinc.ProducerConsumer.{ProducerConsumer, Item, slot, produce, release, consume, cleanup}
use slirp4tinc.ProducerConsumer.Pool.{Pool}
use slirp4tinc.ProducerConsumer.Rep.{Rep, Agree, in_range, item_of}
use slirp4tinc.ProducerConsumer.Refine.Produce.{produce_refines}
use slirp4tinc.ProducerConsumer.Refine.Release.{release_refines}
use slirp4tinc.ProducerConsumer.Refine.Consume.{consume_refines}
use slirp4tinc.ProducerConsumer.Refine.Cleanup.{cleanup_refines, cleanup_outside}
use slirp4tinc.ProducerConsumer.Session.{Session, write, receive}
use slirp4tinc.ProducerConsumer.Session.Subsequence.{
  Subsequence, nil, keep, Subsequence-append, Subsequence-more,
}
use slirp4tinc.ProducerConsumer.Session.Calls.{
  produce-released, consume-none, consume-some, release_pool, cleanup_pool,
}
use slirp4tinc.ProducerConsumer.Session.Write.{
  written_pool, map-written, write_held, written-Rep, write_ok,
}
use slirp4tinc.Prelude.Run.{ok-injective}
use slirp4tinc.ProducerConsumer.Rep.{Simulates-ok}

module _ {T : Type 0} where
  -- The session's context represents a pool; what was sent is what has left it, then what waits
  -- in it; and what was received is among what has left, in the same order.
  pub record IsOrdered (n : ℕ) (c : Session T) : Type 0 where
    pub pool : Pool T
    pub rep : Rep n c.context pool
    pub left : List T
    pub sent : c.sent ≡ left ++ map pool.payload pool.released
    pub received : Subsequence c.received left

  slot_inside :
      {n : ℕ} {s : ProducerConsumer T} {p : Pool T}
      → Rep n s p
      → (x : ℕ) (it : Item T) → get_elem? s.item_buffer x ≡ some it
      → x < n
  slot_inside {n} {s} r x it e = elim (dec_lt x n) [
    | yes inside ↦ inside
    | no outside ↦ absurd (cc (get_elem?_beyond s.item_buffer x (omega (arith, r.items.size)), e))
  ]

  module _ (n : ℕ) (c : Session T) where
    dropped-IsOrdered :
        (o : IsOrdered n c) (s : ProducerConsumer T) (q : Pool T) (dropped : List ℕ)
        → o.pool.released ≡ dropped ++ q.released
        → q.payload ≡ o.pool.payload
        → Rep n s q
        → IsOrdered n (record c { context = s })
    dropped-IsOrdered o s q dropped gone kept rep = record {
      pool = q;
      rep = rep;
      left = o.left ++ map q.payload dropped;
      sent =
          o.sent
          ∙ ap (λ l. o.left ++ map o.pool.payload l) gone
          ∙ ap (λ (f : ℕ → T). o.left ++ map f (dropped ++ q.released)) (sym kept)
          ∙ ap (λ l. o.left ++ l) (map-append q.payload dropped q.released)
          ∙ sym (append_assoc o.left (map q.payload dropped) (map q.payload q.released));
      received = Subsequence-more (map q.payload dropped) o.received;
    }

    pub produce-IsOrdered :
        (o : IsOrdered n c) (block : Bool) (x : ℕ) (s : ProducerConsumer T)
        → produce n block c.context ≡ ok (x, s)
        → IsOrdered n (record c { context = s })
    produce-IsOrdered o block x s e =
        let (b, answer, agree) = Simulates-ok (Agree n) _ e (produce_refines block o.rep) in
        let (dropped, gone, kept) = produce-released block o.pool b.1 b.0 answer in
        dropped-IsOrdered o s b.1 dropped gone kept agree.1

    received-IsOrdered :
        (o : IsOrdered n c) (x : ℕ) (s : ProducerConsumer T) (q : Pool T)
        → o.pool.released ≡ x ∷ q.released
        → q.payload ≡ o.pool.payload
        → Rep n s q
        → IsOrdered n (record c { context = s; received = c.received ++ q.payload x ∷ [] })
    received-IsOrdered o x s q front kept rep = record {
      pool = q;
      rep = rep;
      left = o.left ++ q.payload x ∷ [];
      sent =
          o.sent
          ∙ ap (λ l. o.left ++ map o.pool.payload l) front
          ∙ ap (λ (f : ℕ → T). o.left ++ map f (x ∷ q.released)) (sym kept)
          ∙ sym (append_assoc o.left (q.payload x ∷ []) (map q.payload q.released));
      received = Subsequence-append o.received (keep nil);
    }

    pub consume-IsOrdered :
        (o : IsOrdered n c) (block : Bool) (x : Option ℕ) (s : ProducerConsumer T) (c' : Session T)
        → consume n block c.context ≡ ok (x, s)
        → receive x s c ≡ ok c'
        → IsOrdered n c'
    unfolding receive
    consume-IsOrdered o block none s c' e f =
        let (b, answer, agree) = Simulates-ok (Agree n) _ e (consume_refines block o.rep) in
        let same : b.1 ≡ o.pool =
          consume-none block o.pool b.1 (answer ∙ ap (λ y. ok (y, b.1)) (sym agree.0)) in
        subst (IsOrdered n) (ok-injective f) (record {
          pool = o.pool;
          rep = subst (λ q. Rep n s q) same agree.1;
          left = o.left;
          sent = o.sent;
          received = o.received;
        })
    consume-IsOrdered o block (some x) s c' e f =
        let (b, answer, agree) = Simulates-ok (Agree n) _ e (consume_refines block o.rep) in
        let (front, kept, taken) =
          consume-some block o.pool b.1 x (answer ∙ ap (λ y. ok (y, b.1)) (sym agree.0)) in
        let q : Pool T = b.1 in
        let r : Rep n s q = agree.1 in
        let held : get_elem? s.item_buffer x ≡ some (item_of q x) =
          r.items.each x (in_range r.partition x (ground arith)) in
        subst (IsOrdered n) (ok-injective (rw held at f)) (received-IsOrdered o x s q front kept r)

    pub release-IsOrdered :
        (o : IsOrdered n c) (x : ℕ) (it : Item T) (s : ProducerConsumer T)
        → get_elem? c.context.item_buffer x ≡ some it
        → release n (slot x) c.context ≡ ok s
        → IsOrdered n (record c { context = s; sent = c.sent ++ it.payload ∷ [] })
    release-IsOrdered o x it s e f =
        let inside = slot_inside o.rep x it e in
        let (q, answer, rep) = Simulates-ok (Rep n) _ f (release_refines x inside o.rep) in
        let (more, kept) = release_pool o.pool q x answer in
        record {
          pool = q;
          rep = rep;
          left = o.left;
          sent =
              ap (λ (l : List T). l ++ it.payload ∷ []) o.sent
              ∙ append_assoc o.left (map o.pool.payload o.pool.released) (it.payload ∷ [])
              ∙ ap (λ (v : T). o.left ++ (map o.pool.payload o.pool.released ++ v ∷ []))
                  (same_item inside)
              ∙ ap (λ l. o.left ++ l) (sym (map-append o.pool.payload o.pool.released (x ∷ [])))
              ∙ ap (λ (f : ℕ → T). o.left ++ map f (o.pool.released ++ x ∷ [])) (sym kept)
              ∙ ap (λ l. o.left ++ map q.payload l) (sym more);
          received = o.received;
        }
      where
        same_item : x < n → it.payload ≡ o.pool.payload x
        same_item inside = cc (o.rep.items.each x inside, e)

    pub cleanup-IsOrdered :
        (o : IsOrdered n c) (x : ℕ) (s : ProducerConsumer T)
        → cleanup n (some (slot x)) c.context ≡ ok s
        → IsOrdered n (record c { context = s })
    cleanup-IsOrdered o x s e = elim (dec_lt x n) [
      | yes inside ↦
          let (q, answer, rep) = Simulates-ok (Rep n) _ e (cleanup_refines x inside o.rep) in
          let (same, kept) = cleanup_pool o.pool q x answer in
          record {
            pool = q;
            rep = rep;
            left = o.left;
            sent = o.sent ∙ rw (same, kept);
            received = o.received;
          }
      | no outside ↦ absurd (cc (cleanup_outside x o.rep (omega arith), e))
    ]

    pub write-IsOrdered :
        (o : IsOrdered n c) (x : ℕ) (v : T) (s : ProducerConsumer T)
        → write x v c.context ≡ ok s
        → IsOrdered n (record c { context = s })
    write-IsOrdered o x v s e =
        let held = write_ok o.rep x v s e in
        let not_released : count x o.pool.released ≡ 0 = ground (arith, o.rep.partition.once x) in
        record {
          pool = written_pool o.pool x v;
          rep =
              subst (λ t. Rep n t (written_pool o.pool x v))
                (ok-injective (sym (write_held o.rep x v held) ∙ e)) (written-Rep o.rep x v held);
          left = o.left;
          sent =
              o.sent
              ∙ ap (λ l. o.left ++ l) (sym (map-written o.pool x v o.pool.released not_released));
          received = o.received;
        }
