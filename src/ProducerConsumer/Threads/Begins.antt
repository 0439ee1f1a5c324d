-- ===== src/ProducerConsumer/Threads/Begins.antt =====
-- What holds after the first step of a call.
use slirp4tinc.Prelude.{
  ℕ, ◌≡◌, refl, Bool, true, false, not, ◌&&◌, none, some, Option, List, ◌∷◌, [], ◌++◌, arith, has,
  Bool-cases, inl, inr, ◌==◌, if◌then◌else◌,
}
use slirp4tinc.Prelude.Run.{Ends}
use slirp4tinc.ProducerConsumer.{ProducerConsumer, slot, foreign}
use slirp4tinc.ProducerConsumer.Threads.{
  Point, outside, free_acquire, evict_acquire, item_acquire, release_lock, cleanup_lock, begin,
  Call, produce_call, consume_call, release_call, cleanup_call, slots_call, items_call, IsOwner,
  releases, cleans, total,
}
use slirp4tinc.ProducerConsumer.Threads.Invariant.{
  IsConsistent, Claims, Keeps, nothing, free_of, item_of_point, stays, quiet-Claims, total-append,
  total-replace,
}
use slirp4tinc.ProducerConsumer.Threads.Sections.{
  release_checks_held, cleanup_checks_held, release_checks_wrong, cleanup_checks_wrong,
}

either : (P : Point → Type 0) (b : Bool) (x y : Point) → P x → P y → P (if b then x else y)
either P true x y c d = c
either P false x y c d = d

module _ {T : Type 0} where
  module _ {n : ℕ} (front back : List Point) (s : ProducerConsumer T) where
    -- A section that changes nothing.
    idle :
        (result : Option ℕ) (after : Point)
        → free_of after ≡ 0
        → item_of_point after ≡ 0
        → ((x : ℕ) → releases x after ≡ 0)
        → ((x : ℕ) → cleans x after ≡ 0)
        → (c : IsConsistent n (front ++ outside result ∷ back) s)
        → Keeps n front back c.pool [] nothing (after, record s { mutex = 1 })
    idle result after free items releasing cleaning c =
        stays front back s (outside result) after c (record s { mutex = 1 }) c.pool c.rep refl
          (omega (arith, free)) (omega (arith, items))
          (quiet-Claims front back s (outside result) after c releasing cleaning) refl

    -- An owner is the only thread that releases the item, or cleans it up.
    release-Claims :
        (result : Option ℕ) (x : ℕ) (c : IsConsistent n (front ++ outside result ∷ back) s)
        → has x c.pool.producing ≡ true
        → total (releases x) (front ++ back) ≡ 0
        → Claims (front ++ release_lock x ∷ back) c.pool
    release-Claims result x c held owner = record {
      releasing = λ y. ground (
        arith,
        held,
        owner,
        c.claims.releasing y,
        total-append (releases x) front back,
        total-append (releases y) front (release_lock x ∷ back),
        total-append (releases y) front (outside result ∷ back),
      );
      cleaning = λ y. omega (
        arith,
        c.claims.cleaning y,
        total-replace (cleans y) front back (outside result) (release_lock x),
      );
    }

    cleanup-Claims :
        (result : Option ℕ) (x : ℕ) (c : IsConsistent n (front ++ outside result ∷ back) s)
        → has x c.pool.consuming ≡ true
        → total (cleans x) (front ++ back) ≡ 0
        → Claims (front ++ cleanup_lock x ∷ back) c.pool
    cleanup-Claims result x c held owner = record {
      releasing = λ y. omega (
        arith,
        c.claims.releasing y,
        total-replace (releases y) front back (outside result) (cleanup_lock x),
      );
      cleaning = λ y. ground (
        arith,
        held,
        owner,
        c.claims.cleaning y,
        total-append (cleans x) front back,
        total-append (cleans y) front (cleanup_lock x ∷ back),
        total-append (cleans y) front (outside result ∷ back),
      );
    }

    -- A call that an owner begins keeps what holds, too.
    pub begin-Ends :
        (result : Option ℕ) (call : Call) (c : IsConsistent n (front ++ outside result ∷ back) s)
        → IsOwner call (front ++ back)
        → Ends (Keeps n front back c.pool [] nothing) (begin n call s)
    unfolding begin
    begin-Ends result (produce_call block) c owner = rw c.mutex (
        either (λ after. Keeps n front back c.pool [] nothing (after, record s { mutex = 1 }))
          (not block && (n == s.num_produced_items)) evict_acquire free_acquire
          (idle result evict_acquire refl refl (λ x. refl) (λ x. refl) c)
          (idle result free_acquire refl refl (λ x. refl) (λ x. refl) c))
    begin-Ends result (release_call foreign) c owner = tt
    begin-Ends result (release_call (slot x)) c owner = elim (Bool-cases (has x c.pool.producing)) [
      | inl e ↦ rw (release_checks_held s c.rep c.mutex x e) (
          stays front back s (outside result) (release_lock x) c s c.pool c.rep c.mutex
            (omega arith) (omega arith) (release-Claims result x c e owner) refl)
      | inr e ↦ release_checks_wrong s c.rep c.mutex (Keeps n front back c.pool [] nothing) x e
    ]
    begin-Ends result (consume_call block) c owner = rw c.mutex (
        either (λ after. Keeps n front back c.pool [] nothing (after, record s { mutex = 1 }))
          (not block && (0 == s.num_released_items)) (outside none) item_acquire
          (idle result (outside none) refl refl (λ x. refl) (λ x. refl) c)
          (idle result item_acquire refl refl (λ x. refl) (λ x. refl) c))
    begin-Ends result (cleanup_call none) c owner = tt
    begin-Ends result (cleanup_call (some foreign)) c owner = tt
    begin-Ends result (cleanup_call (some (slot x))) c owner =
        elim (Bool-cases (has x c.pool.consuming)) [
          | inl e ↦ rw (cleanup_checks_held s c.rep c.mutex x e) (
              stays front back s (outside result) (cleanup_lock x) c s c.pool c.rep c.mutex
                (omega arith) (omega arith) (cleanup-Claims result x c e owner) refl)
          | inr e ↦ cleanup_checks_wrong s c.rep c.mutex (Keeps n front back c.pool [] nothing) x e
        ]
    begin-Ends result slots_call c owner =
        rw c.mutex (idle result (outside none) refl refl (λ x. refl) (λ x. refl) c)
    begin-Ends result items_call c owner =
        rw c.mutex (idle result (outside none) refl refl (λ x. refl) (λ x. refl) c)
