-- ===== src/ProducerConsumer/Threads/Invariant.antt =====
-- What holds of a context and its threads between any two steps.
use slirp4tinc.Prelude.{
  ℕ, suc, zero, ◌≡◌, ◌+◌, refl, ap, ◌∙◌, none, some, List, ◌∷◌, [], ◌++◌, arith, length, List-cases,
  inl, inr, length-append, ◌≤◌, count, count-remove, has, map, sym, true,
}
use mathlib.Core.List.{append-nil, map-append}
use slirp4tinc.Prelude.Run.{ok, ◌>>=◌, Safe}
use slirp4tinc.ProducerConsumer.{acquire_item, acquire_free, ProducerConsumer}
use slirp4tinc.ProducerConsumer.Pool.{Pool}
use slirp4tinc.ProducerConsumer.Rep.{Rep, released-in_range, in_range}
use slirp4tinc.ProducerConsumer.Threads.{
  Point, outside, take_section, evict_section, free_acquire, evict_acquire, item_acquire,
  consume_section, item_release, free_release, release_lock, cleanup_lock, proceed, releases,
  cleans, total,
}
use slirp4tinc.ProducerConsumer.Threads.Log.{
  received, dropped, takes, released_by, waiting, leaving, values, payload_at_lem,
  front_payload_lem,
}
use slirp4tinc.ProducerConsumer.Threads.Sections.{
  settled, take_section_lem, consume_section_lem, evict_section_lem, release_section_lem,
  cleanup_section_lem,
}

-- A free slot whose post the thread has taken, or has not made yet; and a released one.
abbrev pub free_of : Point → ℕ
free_of take_section = 1
free_of free_release = 1
free_of point = 0

abbrev pub item_of_point : Point → ℕ
item_of_point evict_section = 1
item_of_point consume_section = 1
item_of_point item_release = 1
item_of_point point = 0

pub total-append :
    (weight : Point → ℕ) (front back : List Point)
    → total weight (front ++ back) ≡ total weight front + total weight back
total-append weight [] back = omega arith
total-append weight (point ∷ front) back = omega (arith, total-append weight front back)

pub total-replace :
    (weight : Point → ℕ) (front back : List Point) (before after : Point)
    → total weight (front ++ after ∷ back) + weight before
      ≡ total weight (front ++ before ∷ back) + weight after
total-replace weight front back before after =
    omega
      (arith, total-append weight front (before ∷ back), total-append weight front (after ∷ back))

module _ {T : Type 0} where
  -- Each item that threads are releasing is in production, and each that they are cleaning up in
  -- consumption, for one thread only.
  pub record Claims (points : List Point) (p : Pool T) : Type 0 where
    pub releasing : (x : ℕ) → total (releases x) points ≤ count x p.producing
    pub cleaning : (x : ℕ) → total (cleans x) points ≤ count x p.consuming

  Claims-replace :
      (front back : List Point) (before after : Point) (p p' : Pool T)
      → ((x : ℕ)
          → releases x after + count x p.producing ≤ releases x before + count x p'.producing)
      → ((x : ℕ) → cleans x after + count x p.consuming ≤ cleans x before + count x p'.consuming)
      → Claims (front ++ before ∷ back) p
      → Claims (front ++ after ∷ back) p'
  Claims-replace front back before after p p' more_releases more_cleans claims = record {
    releasing = λ x. omega (
      arith,
      claims.releasing x,
      more_releases x,
      total-replace (releases x) front back before after,
    );
    cleaning = λ x.
        omega (
          arith,
          claims.cleaning x,
          more_cleans x,
          total-replace (cleans x) front back before after,
        );
  }

  -- The mutex is free, and the context represents a pool up to its semaphores. Their values are the
  -- numbers of free and of released slots without those that threads inside of calls account for.
  pub record IsConsistent (n : ℕ) (points : List Point) (s : ProducerConsumer T) : Type 0 where
    pub pool : Pool T
    pub rep : Rep n (settled s pool) pool
    pub mutex : s.mutex ≡ 1
    pub free : s.free + total free_of points ≡ length pool.free
    pub item : s.item + total item_of_point points ≡ length pool.released
    pub claims : Claims points pool

  -- What a step of a thread leaves: the payloads `added` have come behind those that wait, and
  -- the ones that `left` says have gone from the front.
  abbrev pub Keeps :
      ℕ
      → List Point
      → List Point
      → Pool T
      → List T
      → (Point → List T)
      → Point × ProducerConsumer T
      → Type 0
  Keeps n front back p added left (after, s') =
      (c : IsConsistent n (front ++ after ∷ back) s') × (waiting p ++ added
        ≡ left after ++ waiting c.pool)

  -- A slot that is given to the queue comes behind those that wait.
  gives :
      (p : Pool T) (x : ℕ) {found : List T}
      → found ≡ p.payload x ∷ []
      → waiting p ++ found ≡ map p.payload (p.released ++ x ∷ [])
  gives p x at =
      ap (λ (l : List T). waiting p ++ l) at ∙ sym (map-append p.payload p.released (x ∷ []))

  abbrev pub nothing : Point → List T
  nothing after = []

  module _ {n : ℕ} (front back : List Point) (s : ProducerConsumer T) where
    pub moved :
        (added : List T) (left : Point → List T) (before after : Point)
        (c : IsConsistent n (front ++ before ∷ back) s) (s' : ProducerConsumer T) (p' : Pool T)
        → Rep n (settled s' p') p'
        → s'.mutex ≡ 1
        → s'.free + free_of after + length c.pool.free ≡ s.free + free_of before + length p'.free
        → s'.item + item_of_point after + length c.pool.released
          ≡ s.item + item_of_point before + length p'.released
        → Claims (front ++ after ∷ back) p'
        → (waiting c.pool ++ added ≡ left after ++ waiting p')
        → Keeps n front back c.pool added left (after, s')
    moved added left before after c s' p' rep mutex free items claims flows = (
      record {
        pool = p';
        rep = rep;
        mutex = mutex;
        free = omega (arith, c.free, free, total-replace free_of front back before after);
        item = omega (arith, c.item, items, total-replace item_of_point front back before after);
        claims = claims;
      },
      flows,
    )

    -- A step that leaves the queue alone.
    pub stays :
        (before after : Point) (c : IsConsistent n (front ++ before ∷ back) s)
        (s' : ProducerConsumer T) (p' : Pool T)
        → Rep n (settled s' p') p'
        → s'.mutex ≡ 1
        → s'.free + free_of after + length c.pool.free ≡ s.free + free_of before + length p'.free
        → s'.item + item_of_point after + length c.pool.released
          ≡ s.item + item_of_point before + length p'.released
        → Claims (front ++ after ∷ back) p'
        → waiting c.pool ≡ waiting p'
        → Keeps n front back c.pool [] nothing (after, s')
    stays before after c s' p' rep mutex free items claims same =
        moved [] nothing before after c s' p' rep mutex free items claims (append-nil _ ∙ same)

    -- A step from and to points before no section of `release` or `cleanup`.
    pub quiet-Claims :
        (before after : Point) (c : IsConsistent n (front ++ before ∷ back) s)
        → ((x : ℕ) → releases x after ≡ releases x before)
        → ((x : ℕ) → cleans x after ≡ cleans x before)
        → Claims (front ++ after ∷ back) c.pool
    quiet-Claims before after c releasing cleaning =
        Claims-replace front back before after c.pool c.pool (λ x. omega (arith, releasing x))
          (λ x. omega (arith, cleaning x)) c.claims

    -- A slot that a thread accounts for is there.
    some_free :
        (before : Point) (c : IsConsistent n (front ++ before ∷ back) s)
        → free_of before ≡ 1
        → (f : ℕ) × (fs : List ℕ) × (c.pool.free ≡ f ∷ fs)
    some_free before c one = elim (List-cases c.pool.free) [
      | inl e ↦
          absurd
            (omega (arith, c.free, ap length e, one, total-append free_of front (before ∷ back)))
      | inr found ↦ found
    ]

    some_released :
        (before : Point) (c : IsConsistent n (front ++ before ∷ back) s)
        → item_of_point before ≡ 1
        → (x : ℕ) × (xs : List ℕ) × (c.pool.released ≡ x ∷ xs)
    some_released before c one = elim (List-cases c.pool.released) [
      | inl e ↦ absurd (
          omega (arith, c.item, ap length e, one, total-append item_of_point front (before ∷ back)))
      | inr found ↦ found
    ]

    -- The item of a thread before its section is still in production, or in consumption.
    claimed_release :
        (x : ℕ) (c : IsConsistent n (front ++ release_lock x ∷ back) s)
        → has x c.pool.producing ≡ true
    claimed_release x c =
        ground
          (arith, c.claims.releasing x, total-append (releases x) front (release_lock x ∷ back))

    claimed_cleanup :
        (x : ℕ) (c : IsConsistent n (front ++ cleanup_lock x ∷ back) s)
        → has x c.pool.consuming ≡ true
    claimed_cleanup x c =
        ground (arith, c.claims.cleaning x, total-append (cleans x) front (cleanup_lock x ∷ back))

    -- A thread waits for a semaphore, or goes on accounting for what it took.
    item_wait :
        (before after : Point) (k : ℕ)
        → s.item ≡ k
        → (c : IsConsistent n (front ++ before ∷ back) s) → free_of after ≡ free_of before
        → item_of_point after ≡ item_of_point before + 1
        → Claims (front ++ after ∷ back) c.pool
        → Safe (Keeps n front back c.pool [] nothing) (acquire_item s >>= λ s1. ok (after, s1))
    item_wait before after zero e c free items claims = rw e tt
    item_wait before after (suc k) e c free items claims = rw e (
        stays before after c (record s { item = k }) c.pool c.rep c.mutex (omega (arith, free))
          (omega (arith, items, e)) claims refl)

    free_wait :
        (before after : Point) (k : ℕ)
        → s.free ≡ k
        → (c : IsConsistent n (front ++ before ∷ back) s) → free_of after ≡ free_of before + 1
        → item_of_point after ≡ item_of_point before
        → Claims (front ++ after ∷ back) c.pool
        → Safe (Keeps n front back c.pool [] nothing) (acquire_free s >>= λ s1. ok (after, s1))
    free_wait before after zero e c free items claims = rw e tt
    free_wait before after (suc k) e c free items claims = rw e (
        stays before after c (record s { free = k }) c.pool c.rep c.mutex (omega (arith, free, e))
          (omega (arith, items)) claims refl)

    -- No step of a thread inside of a call fails.
    pub proceed-Safe :
        (before : Point) (c : IsConsistent n (front ++ before ∷ back) s)
        → Safe
            (Keeps n front back c.pool
              (released_by before s)
              (λ after. values (leaving before after s)))
            (proceed n before s)
    unfolding proceed leaving released_by
    proceed-Safe (outside result) c = (c, append-nil _)
    proceed-Safe evict_acquire c =
        item_wait evict_acquire evict_section s.item refl c refl (omega arith)
          (quiet-Claims evict_acquire evict_section c (λ x. refl) (λ x. refl))
    proceed-Safe evict_section c =
        let (x, xs, e) = some_released evict_section c refl in
        let (s', same, free, items, mutex, rep) = evict_section_lem s c.rep c.mutex x xs e in
        rw same (
          moved [] (λ after. values (leaving evict_section after s)) evict_section free_acquire c s'
            _ rep mutex (omega (arith, free, length-append c.pool.free (x ∷ [])))
            (omega (arith, items, ap length e))
            (Claims-replace front back evict_section free_acquire c.pool _ (λ y. omega arith)
              (λ y. omega arith) c.claims)
            (takes c.pool dropped (λ v. refl) e (front_payload_lem c.rep x xs e)))
    proceed-Safe free_acquire c =
        free_wait free_acquire take_section s.free refl c (omega arith) refl
          (quiet-Claims free_acquire take_section c (λ x. refl) (λ x. refl))
    proceed-Safe take_section c =
        let (f, fs, e) = some_free take_section c refl in
        let (s', same, free, items, mutex, rep) = take_section_lem s c.rep c.mutex f fs e in
        rw same (
          stays take_section (outside (some f)) c s' _ rep mutex (omega (arith, free, ap length e))
            (omega (arith, items))
            (Claims-replace front back take_section (outside (some f)) c.pool _ (λ y. ground arith)
              (λ y. omega arith) c.claims)
            refl)
    proceed-Safe (release_lock x) c =
        let e = claimed_release x c in
        let (s', same, free, items, mutex, rep) = release_section_lem s c.rep c.mutex x e in
        rw same (
          moved (released_by (release_lock x) s) nothing (release_lock x) item_release c s' _ rep
            mutex (omega (arith, free))
            (omega (arith, items, length-append c.pool.released (x ∷ [])))
            (Claims-replace front back (release_lock x) item_release c.pool _
              (λ y. ground (arith, count-remove y x c.pool.producing)) (λ y. omega arith) c.claims)
            (gives c.pool x (payload_at_lem c.rep x (in_range c.rep.partition x (ground arith)))))
    proceed-Safe item_release c =
        stays item_release (outside none) c (record s { item = suc s.item }) c.pool c.rep c.mutex
          (omega arith) (omega arith)
          (quiet-Claims item_release (outside none) c (λ x. refl) (λ x. refl)) refl
    proceed-Safe item_acquire c =
        item_wait item_acquire consume_section s.item refl c refl (omega arith)
          (quiet-Claims item_acquire consume_section c (λ x. refl) (λ x. refl))
    proceed-Safe consume_section c =
        let (x, xs, e) = some_released consume_section c refl in
        let (s', same, free, items, mutex, rep) = consume_section_lem s c.rep c.mutex x xs e in
        rw same (
          moved [] (λ after. values (leaving consume_section after s)) consume_section
            (outside (some x)) c s' _ rep mutex (omega (arith, free))
            (omega (arith, items, ap length e))
            (Claims-replace front back consume_section (outside (some x)) c.pool _
              (λ y. omega arith) (λ y. ground arith) c.claims)
            (takes c.pool received (λ v. refl) e
              (payload_at_lem c.rep x (released-in_range c.rep.partition e))))
    proceed-Safe (cleanup_lock x) c =
        let e = claimed_cleanup x c in
        let (s', same, free, items, mutex, rep) = cleanup_section_lem s c.rep c.mutex x e in
        rw same (
          stays (cleanup_lock x) free_release c s' _ rep mutex
            (omega (arith, free, length-append c.pool.free (x ∷ []))) (omega (arith, items))
            (Claims-replace front back (cleanup_lock x) free_release c.pool _ (λ y. omega arith)
              (λ y. ground (arith, count-remove y x c.pool.consuming)) c.claims)
            refl)
    proceed-Safe free_release c =
        stays free_release (outside none) c (record s { free = suc s.free }) c.pool c.rep c.mutex
          (omega arith) (omega arith)
          (quiet-Claims free_release (outside none) c (λ x. refl) (λ x. refl)) refl
