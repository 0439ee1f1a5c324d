-- ===== src/ProducerConsumer/Ring.antt =====
-- `freeBuffer` and `releasedBuffer` as queues: an array of pointers with a read and a write index
-- that go round at its end.
use native.Mathlib.Nat.{mod-add-mod, mod-eq_of_lt, mod-eq-sub-mod}
use native.Mathlib.Decide.{dec_lt}
use mathlib.Core.Path.{subst}
use slirp4tinc.Prelude.{
  ℕ, zero, suc, ◌+◌, ◌-◌, ◌%◌, ◌^◌, ◌≤◌, ◌<◌, ◌≡◌, sym, ap, ◌∙◌, ◌≢◌, Option, none, some, List, [],
  ◌∷◌, ◌++◌, map, arith, length, get_elem?, set, length-set, get_elem?-set, length-append, range,
  length-range, get_elem?-range, length-map, get_elem?-map, ne→==, eq→==,
}
use slirp4tinc.ProducerConsumer.{advance}

-- From index `h` on, going round at `n`, the entries point at the slots `q`.
abbrev pub Window : ℕ → List (Option ℕ) → ℕ → List ℕ → Type 0
Window n buf h [] = Unit {0}
Window n buf h (x ∷ q) = (get_elem? buf h ≡ some (some x)) × Window n buf ((h + 1) % n) q

-- Fewer than `n` steps round the ring lead to another index.
add-mod-ne : (n h k : ℕ) → h < n → suc k < n → (h + suc k) % n ≢ h
add-mod-ne n h k hh hk = elim (dec_lt (h + suc k) n) [
  | yes p ↦ omega (arith, mod-eq_of_lt p)
  | no p ↦ omega (
    arith,
    mod-eq-sub-mod {n = h + suc k} {m = n} (omega arith),
    mod-eq_of_lt {n = h + suc k - n} {m = n} (omega arith),
  )
]

add_one-mod : (n h k : ℕ) → ((h + 1) % n + k) % n ≡ (h + suc k) % n
add_one-mod n h k = rw mod-add-mod (ap (λ t. t % n) (omega arith))

start-mod : (n h : ℕ) → h < n → (h + 0) % n ≡ h
start-mod n h hh = mod-eq_of_lt {n = h + 0} {m = n} (omega arith) ∙ omega arith

-- A write at an index outside the window leaves it.
Window-set_ne :
    (n : ℕ) (buf : List (Option ℕ)) (h i : ℕ) (q : List ℕ) (v : Option ℕ)
    → i < length buf
    → ((k : ℕ) → k < length q → (h + k) % n ≢ i)
    → h < n
    → Window n buf h q
    → Window n (set buf i v) h q
Window-set_ne n buf h i [] v hi apart hh w = tt
Window-set_ne n buf h i (x ∷ q) v hi apart hh w = (
  rw (get_elem?-set buf i h v hi, ne→== i h away) w.0,
  Window-set_ne n buf ((h + 1) % n) i q v hi
      (λ k hk e. apart (suc k) (omega arith) (sym (add_one-mod n h k) ∙ e)) (omega arith) w.1,
)
  where
    away : i ≢ h
    away e = apart 0 (omega arith) (start-mod n h hh ∙ sym e)

-- A write at the index behind the window extends it.
Window-set_end :
    (n : ℕ) (buf : List (Option ℕ)) (h i : ℕ) (q : List ℕ) (x : ℕ)
    → length buf ≡ n
    → h < n
    → length q < n
    → i ≡ (h + length q) % n
    → Window n buf h q
    → Window n (set buf i (some x)) h (q ++ x ∷ [])
Window-set_end n buf h i [] x hl hh hq e w = (found, tt)
  where
    at : i ≡ h
    at = e ∙ start-mod n h hh

    found : get_elem? (set buf i (some x)) h ≡ some (some x)
    found = rw (get_elem?-set buf i h (some x) (omega arith), eq→== i h at)
Window-set_end n buf h i (y ∷ q) x hl hh hq e w = (
  rw (get_elem?-set buf i h (some x) (omega (arith, in_range)), ne→== i h away) w.0,
  Window-set_end n buf ((h + 1) % n) i q x hl (omega arith) (omega arith)
      (e ∙ sym (add_one-mod n h (length q))) w.1,
)
  where
    in_range : i < n
    in_range = omega arith

    away : i ≢ h
    away p = add-mod-ne n h (length q) hh (omega arith) (sym e ∙ p)

-- The ring `buf` holds the queue `q` between the read index `h` and the write index `t`.
pub record IsRing (n : ℕ) (buf : List (Option ℕ)) (h t : ℕ) (q : List ℕ) : Type 0 where
  pub size : length buf ≡ n
  pub head_in : h < n
  pub tail_at : t ≡ (h + length q) % n
  pub fits : length q ≤ n
  pub window : Window n buf h q

advance-eq : (n i : ℕ) → n < 2 ^ 31 → i < n → advance n i ≡ (i + 1) % n
advance-eq n i small hi = ap (λ k. k % n) (omega arith)

module _ {n : ℕ} {buf : List (Option ℕ)} {h t : ℕ} {q : List ℕ} (small : n < 2 ^ 31)
    (r : IsRing n buf h t q) where
  pub tail_in : t < n
  tail_in = omega (arith, r.head_in, r.tail_at)

  -- Writing a pointer at the write index and advancing it appends the slot.
  pub IsRing-push :
      (x : ℕ) → length q < n → IsRing n (set buf t (some x)) h (advance n t) (q ++ x ∷ [])
  IsRing-push x room = record {
    size = length-set buf t (some x) ∙ r.size;
    head_in = r.head_in;
    tail_at =
        advance-eq n t small tail_in
        ∙ ap (λ k. (k + 1) % n) r.tail_at
        ∙ rw mod-add-mod (ap (λ k. k % n) (omega (arith, length-append q (x ∷ []))));
    fits = omega (arith, length-append q (x ∷ []));
    window = Window-set_end n buf h t q x r.size r.head_in room r.tail_at r.window;
  }

module _ {n : ℕ} {buf : List (Option ℕ)} {h t x : ℕ} {q : List ℕ} (small : n < 2 ^ 31)
    (r : IsRing n buf h t (x ∷ q)) where
  -- The read index holds the oldest slot; clearing it and advancing the index drops that slot.
  pub IsRing-pop : IsRing n (set buf h none) (advance n h) t q
  IsRing-pop = record {
    size = length-set buf h none ∙ r.size;
    head_in = omega (arith, r.head_in);
    tail_at =
        r.tail_at ∙ sym (add_one-mod n h (length q)) ∙ ap (λ k. (k + length q) % n) (sym next);
    fits = omega (arith, r.fits);
    window = rw next (
        Window-set_ne n buf ((h + 1) % n) h q none (omega (arith, r.size, r.head_in)) apart
          (omega (arith, r.head_in)) r.window.1);
  }
    where
      next : advance n h ≡ (h + 1) % n
      next = advance-eq n h small r.head_in

      apart : (k : ℕ) → k < length q → ((h + 1) % n + k) % n ≢ h
      apart k hk e =
          add-mod-ne n h k r.head_in (omega (arith, r.fits)) (sym (add_one-mod n h k) ∙ e)

  pub front : get_elem? buf h ≡ some (some x)
  front = r.window.0

-- A full buffer in which every entry points at its own slot holds all slots.
Window-range : (n i k : ℕ) → i + k ≡ n → Window n (map some (range 0 n)) (i % n) (range i k)
Window-range n i zero e = tt
Window-range n i (suc k) e = (
  rw here (
      get_elem?-map some (range 0 n) i
        (get_elem?-range 0 n i (omega arith) ∙ ap some (omega arith))),
  subst (λ j. Window n (map some (range 0 n)) j (range (suc i) k)) (sym next)
      (Window-range n (suc i) k (omega arith)),
)
  where
    here : i % n ≡ i
    here = mod-eq_of_lt {n = i} {m = n} (omega arith)

    next : (i % n + 1) % n ≡ suc i % n
    next = rw here (ap (λ j. j % n) (omega arith))

pub IsRing-full : (n : ℕ) → 0 < n → IsRing n (map some (range 0 n)) 0 0 (range 0 n)
IsRing-full n pos = record {
  size = length-map some (range 0 n) ∙ length-range 0 n;
  head_in = pos;
  tail_at = rw (length-range 0 n) (
      omega (
        arith,
        mod-eq-sub-mod {n = 0 + n} {m = n} (omega arith),
        mod-eq_of_lt {n = 0 + n - n} {m = n} (omega arith),
      ));
  fits = omega (arith, length-range 0 n);
  window =
      subst (λ j. Window n (map some (range 0 n)) j (range 0 n)) (mod-eq_of_lt pos)
        (Window-range n 0 n (omega arith));
}

pub IsRing-empty : (n : ℕ) (buf : List (Option ℕ)) → 0 < n → length buf ≡ n → IsRing n buf 0 0 []
IsRing-empty n buf pos e = record {
  size = e;
  head_in = pos;
  tail_at = omega arith;
  fits = omega arith;
  window = tt;
}
