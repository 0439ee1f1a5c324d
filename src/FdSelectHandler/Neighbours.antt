-- ===== src/FdSelectHandler/Neighbours.antt =====
-- The neighbours of an element in a list without repetitions, before and after another is removed.
use slirp4tinc.Prelude.{
  ℕ, ◌<◌, ◌≤◌, ◌≡◌, ◌≢◌, refl, true, false, Option, none, some, List, [], ◌∷◌, arith, ◌==◌,
  if◌then◌else◌, count, remove, Bool-cases, inl, inr,
}
use slirp4tinc.FdSelectHandler.{points_to}

abbrev pub first : List ℕ → Option ℕ
first [] = none
first (x ∷ xs) = some x

-- What stands in front of `i`; `p` stands in front of the list.
abbrev pub before : Option ℕ → List ℕ → ℕ → Option ℕ
before p [] i = none
before p (x ∷ xs) i = if x == i then p else before (some x) xs i

abbrev pub after : List ℕ → ℕ → Option ℕ
after [] i = none
after (x ∷ xs) i = if x == i then first xs else after xs i

abbrev pub IsUnique : List ℕ → Type 0
IsUnique l = (i : ℕ) → count i l ≤ 1

after_member : (l : List ℕ) (h i : ℕ) → points_to (after l h) i ≡ true → 0 < count i l
after_member [] h i e = cc
after_member (x ∷ []) h i e = ground arith
after_member (x ∷ y ∷ l) h i e = ground (arith, after_member (y ∷ l) h i)

before_member :
    (p : Option ℕ) (l : List ℕ) (h i : ℕ)
    → points_to p i ≡ false
    → points_to (before p l h) i ≡ true
    → 0 < count i l
before_member p [] h i n e = cc
before_member p (x ∷ l) h i n e = ground (arith, before_member (some x) l h i)

pub tail-IsUnique : (x : ℕ) (l : List ℕ) → IsUnique (x ∷ l) → IsUnique l
tail-IsUnique x l u i = ground (arith, u i)

pub before_other :
    (p q : Option ℕ) (l : List ℕ) (i : ℕ)
    → points_to (first l) i ≡ false
    → before p l i ≡ before q l i
before_other p q [] i n = refl
before_other p q (x ∷ l) i n = rw n

pub first-before :
    (p : Option ℕ) (l : List ℕ) (i : ℕ) → points_to (first l) i ≡ true → before p l i ≡ p
first-before p [] i e = cc
first-before p (x ∷ l) i e = rw e

pub before-remove :
    (p : Option ℕ) (l : List ℕ) (h i : ℕ)
    → IsUnique l
    → h ≢ i
    → before p (remove h l) i ≡ (if points_to (after l h) i then before p l h else before p l i)
before-remove p [] h i u n = refl
before-remove p (x ∷ l) h i u n = ground (
  arith,
  u x,
  u h,
  before-remove (some x) l h i (tail-IsUnique x l u) n,
  after_member l h x,
  before_other p (some x) l i,
  first-before p l i,
)

pub after-remove :
    (p : Option ℕ) (l : List ℕ) (h i : ℕ)
    → IsUnique l
    → h ≢ i
    → points_to p i ≡ false
    → after (remove h l) i ≡ (if points_to (before p l h) i then after l h else after l i)
after-remove p [] h i u n out = refl
after-remove p (x ∷ []) h i u n out = ground arith
after-remove p (x ∷ y ∷ l) h i u n out = ground (
  arith,
  u x,
  u h,
  after-remove (some x) (y ∷ l) h i (tail-IsUnique x (y ∷ l) u) n,
  before_member (some y) l h x,
  before_other p (some x) (y ∷ l) h,
)

pub before_self :
    (p : Option ℕ) (l : List ℕ) (h : ℕ)
    → IsUnique l
    → points_to p h ≡ false
    → points_to (before p l h) h ≡ false
before_self p [] h u n = refl
before_self p (x ∷ l) h u n = ground (arith, before_self (some x) l h (tail-IsUnique x l u))

pub after_self : (l : List ℕ) (h : ℕ) → IsUnique l → points_to (after l h) h ≡ false
after_self [] h u = refl
after_self (x ∷ []) h u = ground arith
after_self (x ∷ y ∷ l) h u = ground (arith, u x, after_self (y ∷ l) h (tail-IsUnique x (y ∷ l) u))

before-some :
    (x : ℕ) (l : List ℕ) (h : ℕ) → 0 < count h l → (p : ℕ) × (before (some x) l h ≡ some p)
before-some x [] h m = absurd (omega arith)
before-some x (y ∷ l) h m = elim (Bool-cases (y == h)) [
  | inl e ↦ (x, rw e)
  | inr e ↦ let (p, q) = before-some y l h (ground (arith, m)) in (p, rw e q)
]

pub first-remove :
    (l : List ℕ) (h : ℕ)
    → 0 < count h l
    → first (remove h l) ≡ elim (before none l h) [ none ↦ after l h | some p ↦ first l ]
first-remove [] h m = refl
first-remove (x ∷ l) h m = elim (Bool-cases (x == h)) [
  | inl e ↦ ground (arith, e)
  | inr e ↦ let (p, q) = before-some x l h (ground (arith, m)) in ground (arith, e, q)
]

pub first_member : (l : List ℕ) (i : ℕ) → points_to (first l) i ≡ true → 0 < count i l
first_member [] i e = cc
first_member (x ∷ l) i e = ground arith
