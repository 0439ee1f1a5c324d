-- ===== src/ProducerConsumer/Threads/Writes.antt =====
-- A client's write to an item that it has in production, while threads are inside of calls.
use mathlib.Core.Path.{subst}
use slirp4tinc.Prelude.{
  ℕ, ◌≡◌, ◌<◌, sym, ap, ◌∙◌, refl, true, some, List, arith, has, get_elem?, get_elem?_beyond, eq→==,
}
use native.Mathlib.Decide.{dec_lt}
use slirp4tinc.ProducerConsumer.{ProducerConsumer, Item, put_item}
use slirp4tinc.ProducerConsumer.Pool.{Pool}
use slirp4tinc.ProducerConsumer.Rep.{Rep, item_of}
use slirp4tinc.ProducerConsumer.Session.Write.{written_pool, map-written, written-Rep}
use slirp4tinc.ProducerConsumer.Threads.{Point}
use slirp4tinc.ProducerConsumer.Threads.Sections.{settled}
use slirp4tinc.ProducerConsumer.Threads.Log.{waiting}
use slirp4tinc.ProducerConsumer.Threads.Invariant.{IsConsistent}

module _ {T : Type 0} {n : ℕ} {s : ProducerConsumer T} {p : Pool T} (r : Rep n s p) (x : ℕ)
    (it : Item T) (v : T) (at : get_elem? s.item_buffer x ≡ some it) where
  item-inside : x < n
  item-inside = elim (dec_lt x n) [
    | yes less ↦ less
    | no more ↦
        absurd (cc (at, get_elem?_beyond s.item_buffer x (omega (arith, r.items.size, more))))
  ]

  item-eq : it ≡ item_of p x
  item-eq = let same = r.items.each x item-inside in cc (at, same)

  item-producing : it.in_production ≡ true → has x p.producing ≡ true
  item-producing producing = sym (ap (λ (k : Item T). k.in_production) item-eq) ∙ producing

  item-written : record it { payload = v } ≡ item_of (written_pool p x v) x
  item-written =
      subst (λ (k : Item T). record k { payload = v } ≡ item_of (written_pool p x v) x)
        (sym item-eq) (rw (eq→== x x refl) refl)

-- The write keeps what holds, and the payloads that wait.
module _ {T : Type 0} where
  pub writes-Keeps :
      {n : ℕ} (points : List Point) (x : ℕ) (it : Item T) (v : T) (s : ProducerConsumer T)
      → get_elem? s.item_buffer x ≡ some it
      → it.in_production ≡ true
      → (c : IsConsistent n points s)
      → (c' : IsConsistent n points (put_item s x (record it { payload = v }))) × (waiting c.pool
          ≡ waiting c'.pool)
  writes-Keeps {n} points x it v s at producing c =
      let w = written_pool c.pool x v in
      let held = item-producing c.rep x it v at producing in
      (
        record {
          pool = w;
          rep =
              subst (λ (k : Item T). Rep n (settled (put_item s x k) w) w)
                (sym (item-written c.rep x it v at)) (written-Rep c.rep x v held);
          mutex = c.mutex;
          free = c.free;
          item = c.item;
          claims = record { releasing = c.claims.releasing; cleaning = c.claims.cleaning };
        },
        sym (map-written c.pool x v c.pool.released (ground (arith, held, c.rep.partition.once x))),
      )
