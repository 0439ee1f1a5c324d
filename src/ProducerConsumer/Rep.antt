-- ===== src/ProducerConsumer/Rep.antt =====
-- When a context's data members represent a pool.
use slirp4tinc.Prelude.{
  refl, ℕ, ◌+◌, ◌^◌, ◌<◌, ◌≡◌, ap, ◌∙◌, not, some, List, ◌∷◌, arith, ◌==◌, if◌then◌else◌, ltb, sym,
  inl, inr, Bool-cases, ==→eq, eq→==, length, get_elem?, set, length-set, get_elem?-set, count, has,
}
use slirp4tinc.Prelude.Run.{Run, ok, blocked, assert_failed, exited, undefined}
use slirp4tinc.ProducerConsumer.{ProducerConsumer, Item}
use slirp4tinc.ProducerConsumer.Pool.{Pool}
use slirp4tinc.ProducerConsumer.Ring.{IsRing}

-- Both calls end the same way, and with related results if they return.
abbrev pub Simulates : {A B : Type 0} → (A → B → Type 0) → Run A → Run B → Type 0
Simulates R (ok a) (ok b) = R a b
Simulates R blocked blocked = Unit
Simulates R assert_failed assert_failed = Unit
Simulates R undefined undefined = Unit
Simulates R (exited c) (exited d) = c ≡ d
Simulates R _ _ = ⊥

-- A returning call is answered by a returning call of the pool.
pub Simulates-ok :
    {A B : Type 0} (R : A → B → Type 0) {a : A} {x : Run A} (y : Run B)
    → x ≡ ok a
    → Simulates R x y
    → (b : B) × (y ≡ ok b) × R a b
Simulates-ok R y e s = answer R y (rw e at s)
  where
    answer :
        {A B : Type 0} (R : A → B → Type 0) {a : A} (y : Run B)
        → Simulates R (ok a) y
        → (b : B) × (y ≡ ok b) × R a b
    answer R (ok b) s = (b, refl, s)
    answer R _ s = elim s [ ]

-- A returning call of the pool answers a returning call.
pub Simulates-returns :
    {A B : Type 0} (R : A → B → Type 0) (x : Run A) {y : Run B} {b : B}
    → y ≡ ok b
    → Simulates R x y
    → (a : A) × (x ≡ ok a) × R a b
Simulates-returns R x e s = answer R x (rw e at s)
  where
    answer :
        {A B : Type 0} (R : A → B → Type 0) {b : B} (x : Run A)
        → Simulates R x (ok b)
        → (a : A) × (x ≡ ok a) × R a b
    answer R (ok a) s = (a, refl, s)
    answer R blocked s = absurd s
    answer R assert_failed s = absurd s
    answer R (exited c) s = absurd s
    answer R undefined s = absurd s

module _ {ℓ} {T : Type ℓ} where
  -- What slot `i` holds: its flags follow from where the slot stands.
  abbrev pub item_of : Pool T → ℕ → Item T
  item_of p i = record {
    payload = p.payload i;
    in_production = has i p.producing;
    in_consumption = has i p.consuming;
    in_use = not (has i p.free);
  }

  -- How often slot `i` stands in the pool.
  abbrev pub places : Pool T → ℕ → ℕ
  places p i = count i p.free + count i p.released + count i p.producing + count i p.consuming

  -- Each of the `n` slots stands in one place, and nothing else does.
  pub record IsPartition (n : ℕ) (p : Pool T) : Type 0 where
    pub once : (i : ℕ) → places p i ≡ (if ltb i n then 1 else 0)
    pub total : length p.free + length p.released + length p.producing + length p.consuming ≡ n

  pub record HoldsItems (n : ℕ) (items : List (Item T)) (p : Pool T) : Type ℓ where
    pub size : length items ≡ n
    pub each : (i : ℕ) → i < n → get_elem? items i ≡ some (item_of p i)

  -- The two counters and the two semaphores agree with the queues; nobody holds the mutex.
  pub record Counts (n : ℕ) (s : ProducerConsumer T) (p : Pool T) : Type 0 where
    pub produced : s.num_produced_items + length p.free ≡ n
    pub released : s.num_released_items ≡ length p.released
    pub free : s.free ≡ length p.free
    pub item : s.item ≡ length p.released
    pub mutex : s.mutex ≡ 1

  pub record Rep (n : ℕ) (s : ProducerConsumer T) (p : Pool T) : Type ℓ where
    pub small : n < 2 ^ 31
    pub partition : IsPartition n p
    pub items : HoldsItems n s.item_buffer p
    pub free_ring : IsRing n s.free_buffer s.next_add s.next_removed p.free
    pub released_ring : IsRing n s.released_buffer s.next_consume s.next_release p.released
    pub counts : Counts n s p

  -- After a write to slot `x` the items hold another pool, if that differs at `x` alone.
  pub HoldsItems-set :
      {n : ℕ} {items : List (Item T)} {p : Pool T} (q : Pool T) (x : ℕ)
      → x < n
      → ((i : ℕ) → ¬ (x ≡ i) → item_of q i ≡ item_of p i)
      → HoldsItems n items p
      → HoldsItems n (set items x (item_of q x)) q
  HoldsItems-set {n} {items} {p} q x hx same h = record {
    size = length-set items x (item_of q x) ∙ h.size;
    each = λ i hi. elim (Bool-cases (x == i)) [
      | inl e ↦
          rw (get_elem?-set items x i (item_of q x) (omega (arith, h.size)), e)
            (ap (λ j. some (item_of q j)) (==→eq x i e))
      | inr e ↦
          rw (get_elem?-set items x i (item_of q x) (omega (arith, h.size)), e)
            (h.each i hi ∙ ap some (sym (same i (λ d. cc (eq→== x i d, e)))))
    ];
  }

  module _ {n : ℕ} {p : Pool T} (part : IsPartition n p) where
    -- A slot that stands in the pool is an index of the buffer.
    pub in_range : (i : ℕ) → 0 < places p i → i < n
    in_range i h = ground (arith, part.once i)

    pub free-in_range : {f : ℕ} {fs : List ℕ} → p.free ≡ f ∷ fs → f < n
    free-in_range {f} e = in_range f (rw e (ground arith))

    pub released-in_range : {f : ℕ} {fs : List ℕ} → p.released ≡ f ∷ fs → f < n
    released-in_range {f} e = in_range f (rw e (ground arith))

-- The values that two calls return agree, and the context represents the pool.
abbrev pub Agree : {A T : Type 0} → ℕ → A × ProducerConsumer T → A × Pool T → Type 0
Agree n (a, s) (b, p) = (a ≡ b) × Rep n s p
