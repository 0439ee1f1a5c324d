-- ===== src/Prelude/Run.antt =====
-- How a call of the C and C++ code ends. `do` blocks chain calls.
use mathlib.Core.Bool.{Bool, true, false}
use mathlib.Core.Option.{Option, none, some}
use Prim.Native.Nat.{ℕ}
use mathlib.Core.Path.{◌≡◌, refl}

pub data Run {ℓ} (A : Type ℓ) : Type ℓ where
  -- The call returns.
  ok : A → Run A
  -- It waits for a semaphore that is zero, until another thread posts it.
  blocked : Run A
  -- A failed `assert`.
  assert_failed : Run A
  -- `exit` with this status.
  exited : ℕ → Run A
  -- Undefined behaviour: a null or foreign pointer is read, or an index is out of range.
  undefined : Run A

infixl 5 ◌>>=◌ ◌>>◌
abbrev pub ◌>>=◌ {ℓ κ} : {A : Type ℓ} {B : Type κ} → Run A → (A → Run B) → Run B
undefined >>= next = undefined
exited status >>= next = exited status
assert_failed >>= next = assert_failed
blocked >>= next = blocked
ok result >>= next = next result

-- The second call follows if the first one returns.
abbrev pub ◌>>◌ {ℓ} : {B : Type ℓ} → Run (Unit {0}) → Run B → Run B
first >> second = first >>= λ done. second

-- `assert(b)`
abbrev pub assert : Bool → Run (Unit {0})
assert true = ok tt
assert false = assert_failed

-- A read through a pointer that may be null, or of an array element that may not be there.
abbrev pub deref {ℓ} : {A : Type ℓ} → Option A → Run A
deref none = undefined
deref (some a) = ok a

pub ok-injective {ℓ} : {A : Type ℓ} {a b : A} → ok a ≡ ok b → a ≡ b
ok-injective e = cc

pub deref_ok {ℓ} : {A : Type ℓ} {a : A} (o : Option A) → deref o ≡ ok a → o ≡ some a
deref_ok none e = absurd (cc e)
deref_ok (some b) e = cc

module _ {ℓ κ} {A : Type ℓ} {B : Type κ} where
  -- A chain that returns is a call that returns and a rest that does.
  pub >>=-eq-ok :
      {final : B} (first : Run A) (next : A → Run B)
      → (first >>= next) ≡ ok final
      → (result : A) × (first ≡ ok result) × (next result ≡ ok final)
  >>=-eq-ok undefined next e = cc
  >>=-eq-ok (exited status) next e = cc
  >>=-eq-ok assert_failed next e = cc
  >>=-eq-ok blocked next e = cc
  >>=-eq-ok (ok result) next e = (result, refl, e)

-- The call returns, with a result that satisfies `P`.
abbrev pub Returns : {A : Type 0} → (A → Type 0) → Run A → Type 0
Returns P (ok a) = P a
Returns P blocked = ⊥
Returns P assert_failed = ⊥
Returns P (exited c) = ⊥
Returns P undefined = ⊥

-- A chain returns if its first call does and the rest does from there.
pub Returns->>= :
    {A B : Type 0} (P : A → Type 0) (Q : B → Type 0) (r : Run A) (f : A → Run B)
    → Returns P r
    → ((a : A) → P a → Returns Q (f a))
    → Returns Q (r >>= f)
Returns->>= P Q (ok a) f h next = next a h
Returns->>= P Q blocked f h next = absurd h
Returns->>= P Q assert_failed f h next = absurd h
Returns->>= P Q (exited c) f h next = absurd h
Returns->>= P Q undefined f h next = absurd h

-- The call does not wait, and if it returns, its result satisfies `P`.
abbrev pub Ends : {A : Type 0} → (A → Type 0) → Run A → Type 0
Ends P (ok a) = P a
Ends P blocked = ⊥
Ends P assert_failed = Unit
Ends P (exited c) = Unit
Ends P undefined = Unit

pub Ends->>= :
    {A B : Type 0} (P : A → Type 0) (Q : B → Type 0) (r : Run A) (f : A → Run B)
    → Ends P r
    → ((a : A) → P a → Ends Q (f a))
    → Ends Q (r >>= f)
Ends->>= P Q (ok a) f h next = next a h
Ends->>= P Q blocked f h next = absurd h
Ends->>= P Q assert_failed f h next = tt
Ends->>= P Q (exited c) f h next = tt
Ends->>= P Q undefined f h next = tt

-- The call returns with a result that satisfies `P`, or waits.
abbrev pub Safe : {A : Type 0} → (A → Type 0) → Run A → Type 0
Safe P (ok a) = P a
Safe P blocked = Unit
Safe P assert_failed = ⊥
Safe P (exited c) = ⊥
Safe P undefined = ⊥

-- What holds of the result of a call that returns.
pub Ends-ok : {A : Type 0} (P : A → Type 0) (r : Run A) {a : A} → r ≡ ok a → Ends P r → P a
Ends-ok P r e h = rw e at h

pub Safe-ok : {A : Type 0} (P : A → Type 0) (r : Run A) {a : A} → r ≡ ok a → Safe P r → P a
Safe-ok P r e h = rw e at h

-- The rest of a chain matters only for what its first call returns.
pub same-bind {ℓ κ} :
    {A : Type ℓ} {B : Type κ} (x : Run A) (f g : A → Run B)
    → ((a : A) → x ≡ ok a → f a ≡ g a)
    → (x >>= f) ≡ (x >>= g)
same-bind undefined f g e = refl
same-bind (exited c) f g e = refl
same-bind assert_failed f g e = refl
same-bind blocked f g e = refl
same-bind (ok a) f g e = e a refl
