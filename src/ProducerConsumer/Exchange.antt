-- ===== src/ProducerConsumer/Exchange.antt =====
-- One thread's use of a context between whose calls no slot is held: a payload goes in by `produce`,
-- a write and `release`, and comes out by `consume` and `cleanup`.
use slirp4tinc.Prelude.{
  ℕ, ◌<◌, ◌≡◌, refl, sym, ap, ◌∙◌, true, false, none, some, List, [], ◌∷◌, ◌++◌, map, arith, ◌==◌,
  if◌then◌else◌, length, has, count, List-cases, inl, inr, length-map, eq→==, ne→==,
}
use mathlib.Core.List.{map-append}
use slirp4tinc.Prelude.Run.{ok}
use slirp4tinc.ProducerConsumer.{
  ProducerConsumer, Item, slot, item_at, put_item, produce, release, consume, cleanup,
}
use slirp4tinc.ProducerConsumer.Pool
use slirp4tinc.ProducerConsumer.Pool.{Pool}
use slirp4tinc.ProducerConsumer.Rep.{Rep, Simulates-returns, Agree, IsPartition, in_range, item_of}
use slirp4tinc.ProducerConsumer.Refine.Produce.{produce_refines}
use slirp4tinc.ProducerConsumer.Refine.Release.{release_refines, released_pool}
use slirp4tinc.ProducerConsumer.Refine.Consume.{
  consume_refines, consume_nothing, pool_oldest, consumed_pool,
}
use slirp4tinc.ProducerConsumer.Refine.Cleanup.{cleanup_refines, cleaned_pool}
use slirp4tinc.ProducerConsumer.Session.Write.{written_pool, map-written, written-Rep}

-- What waits in a bounded queue after room for one more was made: the oldest gives way if it is full.
abbrev pub tail : {A : Type 0} → List A → List A
tail [] = []
tail (x ∷ xs) = xs

abbrev pub with_room : {A : Type 0} → ℕ → List A → List A
with_room n l = if length l == n then tail l else l

with_room_full : {A : Type 0} (n : ℕ) (l : List A) → length l ≡ n → with_room n l ≡ tail l
with_room_full n l e = rw (eq→== (length l) n e)

pub with_room_space : {A : Type 0} (n : ℕ) (l : List A) → length l < n → with_room n l ≡ l
with_room_space n l h = rw (ne→== (length l) n (λ e. omega arith))

module _ {T : Type 0} where
  -- No slot is in production or in consumption.
  pub record IsIdle (p : Pool T) : Type 0 where
    pub producing : p.producing ≡ []
    pub consuming : p.consuming ≡ []

  -- The payloads that wait, oldest first.
  abbrev pub contents : Pool T → List T
  contents p = map p.payload p.released

  -- The pool after `produce` when no slot was held before.
  pub record Produced (n : ℕ) (p q : Pool T) (x : ℕ) : Type 0 where
    pub producing : q.producing ≡ x ∷ []
    pub consuming : q.consuming ≡ []
    pub contents_left : contents q ≡ with_room n (contents p)
    pub payload : q.payload ≡ p.payload

  produce_pool :
      (n : ℕ) (p : Pool T)
      → 0 < n
      → IsPartition n p
      → IsIdle p
      → (x : ℕ) × (q : Pool T) × (Pool.produce false p ≡ ok (x, q)) × Produced n p q x
  unfolding Pool.produce
  produce_pool n p pos part idle = elim (List-cases p.free) [
    | inl none_free ↦ elim (List-cases p.released) [
      | inl none_released ↦ absurd (ground (arith, part.total, idle.producing, idle.consuming))
      | inr (y, ys, e) ↦ (
        y,
        record p { released = ys; producing = y ∷ p.producing },
        ground arith,
        record {
          producing = rw idle.producing;
          consuming = idle.consuming;
          contents_left = sym (
              with_room_full n (contents p) (
                length-map p.payload p.released
                ∙ ground (arith, part.total, idle.producing, idle.consuming))
              ∙ ap (λ l. tail (map p.payload l)) e);
          payload = refl;
        },
      )
    ]
    | inr (f, fs, e) ↦ (
      f,
      record p { free = fs; producing = f ∷ p.producing },
      ground arith,
      record {
        producing = rw idle.producing;
        consuming = idle.consuming;
        contents_left = sym (
            with_room_space n (contents p)
              (ground (arith, length-map p.payload p.released, part.total)));
        payload = refl;
      },
    )
  ]

  -- Everything that a caller who holds no slot knows of a context.
  pub record Holds (n : ℕ) (s : ProducerConsumer T) (l : List T) : Type 0 where
    pub pool : Pool T
    pub rep : Rep n s pool
    pub idle : IsIdle pool
    pub waiting : contents pool ≡ l

  pub Holds-pos : {n : ℕ} {s : ProducerConsumer T} {l : List T} → Holds n s l → 0 < n
  Holds-pos h = omega (arith, h.rep.free_ring.head_in)

  -- The context between `produce` and `release`: the slot is `x`, its item `it`.
  pub record Lent (n : ℕ) (s : ProducerConsumer T) (l : List T) (x : ℕ) (it : Item T) : Type 0 where
    pub pool : Pool T
    pub rep : Rep n s pool
    pub producing : pool.producing ≡ x ∷ []
    pub consuming : pool.consuming ≡ []
    pub waiting : contents pool ≡ l
    pub item : item_at s x ≡ ok it
    pub item_eq : it ≡ item_of pool x

  Lent-slot :
      {n : ℕ} {s' : ProducerConsumer T} {l : List T} (p q : Pool T) (x : ℕ)
      → contents p ≡ l
      → Rep n s' q
      → Produced n p q x
      → Lent n s' (with_room n l) x (item_of q x)
  Lent-slot {n} {s'} p q x same rep made =
      let once : has x q.producing ≡ true = rw made.producing (ground arith) in
      record {
        pool = q;
        rep = rep;
        producing = made.producing;
        consuming = made.consuming;
        waiting = made.contents_left ∙ ap (with_room n) same;
        item = rw (rep.items.each x (in_range rep.partition x (ground arith)));
        item_eq = refl;
      }

  -- A `produce` that may not block returns a slot, and drops the oldest payload if all slots wait.
  pub produce_lends :
      {n : ℕ} {s : ProducerConsumer T} {l : List T}
      → Holds n s l
      → (x : ℕ) × (s' : ProducerConsumer T) × (it : Item T) × (produce n false s ≡ ok (x, s'))
        × Lent n s' (with_room n l) x it
  produce_lends {n} {s} {l} h =
      let (x, q, answer, made) = produce_pool n h.pool (Holds-pos h) h.rep.partition h.idle in
      let (r, e, agree) =
        Simulates-returns (Agree n) (produce n false s) answer (produce_refines false h.rep) in
      (
        x,
        r.1,
        item_of q x,
        e ∙ ap (λ y. ok (y, r.1)) agree.0,
        Lent-slot h.pool q x h.waiting agree.1 made,
      )

  module _ {n : ℕ} {s : ProducerConsumer T} {l : List T} {x : ℕ} {it : Item T} (v : T)
      (h : Lent n s l x it) where
    lent_once : has x h.pool.producing ≡ true
    lent_once = rw h.producing (ground arith)

    -- The pool after the write, and after the release.
    abbrev written : Pool T
    written = written_pool h.pool x v

    written_item : record it { payload = v } ≡ item_of written x
    written_item = ap (λ (i : Item T). record i { payload = v }) h.item_eq ∙ rw (eq→== x x refl)

    release_answer : Pool.release (slot x) written ≡ ok (released_pool written x)
    unfolding Pool.release
    release_answer = rw lent_once

    released_contents : contents (released_pool written x) ≡ l ++ v ∷ []
    released_contents =
        map-append written.payload h.pool.released (x ∷ [])
        ∙ ap (λ (k : List T). k ++ written.payload x ∷ [])
            (map-written h.pool x v h.pool.released not_waiting ∙ h.waiting)
        ∙ rw (eq→== x x refl)
      where
        not_waiting : count x h.pool.released ≡ 0
        not_waiting = ground (arith, h.rep.partition.once x, lent_once)

    -- A write to the lent item and its `release` put the written payload behind the others.
    pub release_lent :
        (s' : ProducerConsumer T) × (release n (slot x) (put_item s x (record it { payload = v }))
          ≡ ok s')
        × Holds n s' (l ++ v ∷ [])
    release_lent =
        let inside = in_range h.rep.partition x (ground (arith, lent_once)) in
        let rep = written-Rep h.rep x v lent_once in
        let (s', e, rep') =
          Simulates-returns (Rep n) (release n (slot x) (put_item s x (item_of written x)))
            release_answer (release_refines x inside rep) in
        (
          s',
          ap (λ (i : Item T). release n (slot x) (put_item s x i)) written_item ∙ e,
          record {
            pool = released_pool written x;
            rep = rep';
            idle = record { producing = rw (h.producing, eq→== x x refl); consuming = h.consuming };
            waiting = released_contents;
          },
        )

  map-nil : (f : ℕ → T) (xs : List ℕ) → map f xs ≡ [] → xs ≡ []
  map-nil f [] e = refl
  map-nil f (x ∷ xs) e = cc

  map-cons :
      (f : ℕ → T) (xs : List ℕ) {v : T} {l : List T}
      → map f xs ≡ v ∷ l
      → (x : ℕ) × (rest : List ℕ) × (xs ≡ x ∷ rest) × (f x ≡ v) × (map f rest ≡ l)
  map-cons f [] e = cc
  map-cons f (x ∷ xs) e = (x, xs, refl, cc, cc)

  -- `consume` without blocking finds nothing if nothing waits.
  pub consume_nothing_lem :
      {n : ℕ} {s : ProducerConsumer T} → Holds n s [] → consume n false s ≡ ok (none, s)
  consume_nothing_lem h = consume_nothing h.rep (map-nil h.pool.payload h.pool.released h.waiting)

  -- A `consume` that found the oldest payload, and the `cleanup` that follows.
  pub record Taken (n : ℕ) (s : ProducerConsumer T) (v : T) (l : List T) : Type 0 where
    pub slot_taken : ℕ
    pub between : ProducerConsumer T
    pub after : ProducerConsumer T
    pub item : Item T
    pub consumed : consume n false s ≡ ok (some slot_taken, between)
    pub item_found : item_at between slot_taken ≡ ok item
    pub payload : item.payload ≡ v
    pub cleaned : cleanup n (some (slot slot_taken)) between ≡ ok after
    pub holds : Holds n after l

  module _ {n : ℕ} {s : ProducerConsumer T} {v : T} {l : List T} (h : Holds n s (v ∷ l)) (x : ℕ)
      (xs : List ℕ) (e : h.pool.released ≡ x ∷ xs) (front : h.pool.payload x ≡ v)
      (rest : map h.pool.payload xs ≡ l) where
    abbrev consumed_slot : Pool T
    consumed_slot = consumed_pool h.pool x xs

    consuming_once : has x consumed_slot.consuming ≡ true
    consuming_once = ground arith

    cleanup_answer : Pool.cleanup (some (slot x)) consumed_slot ≡ ok (cleaned_pool consumed_slot x)
    unfolding Pool.cleanup
    cleanup_answer = rw consuming_once

    Taken-slot : Taken n s v l
    Taken-slot =
        let (r, e1, agree) =
          Simulates-returns (Agree n) (consume n false s) (pool_oldest h.pool false x xs e)
            (consume_refines false h.rep) in
        let rep : Rep n r.1 consumed_slot = agree.1 in
        let inside = in_range rep.partition x (ground (arith, consuming_once)) in
        let (s'', e2, rep') =
          Simulates-returns (Rep n) (cleanup n (some (slot x)) r.1) cleanup_answer
            (cleanup_refines x inside rep) in
        record {
          slot_taken = x;
          between = r.1;
          after = s'';
          item = item_of consumed_slot x;
          consumed = e1 ∙ ap (λ y. ok (y, r.1)) agree.0;
          item_found = rw (rep.items.each x inside);
          payload = front;
          cleaned = e2;
          holds = record {
            pool = cleaned_pool consumed_slot x;
            rep = rep';
            idle = record {
              producing = h.idle.producing;
              consuming = rw (h.idle.consuming, eq→== x x refl);
            };
            waiting = rest;
          };
        }

  -- If something waits, `consume` hands out the oldest payload, and `cleanup` frees its slot.
  pub consume_cleanup :
      {n : ℕ} {s : ProducerConsumer T} {v : T} {l : List T} → Holds n s (v ∷ l) → Taken n s v l
  consume_cleanup h =
      let (x, xs, e, front, rest) = map-cons h.pool.payload h.pool.released h.waiting in
      Taken-slot h x xs e front rest
