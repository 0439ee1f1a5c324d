-- ===== src/ProducerConsumer/Session/Subsequence.antt =====
-- One list within another, in order.
use slirp4tinc.Prelude.{List, [], ◌∷◌, ◌++◌}
use mathlib.Core.Path.{subst}
use mathlib.Core.List.{append-nil}

-- `xs` is `ys` with some elements left out.
pub data Subsequence {A : Type 0} : List A → List A → Type 0 where
  nil : Subsequence [] []
  keep : {x : A} {xs ys : List A} → Subsequence xs ys → Subsequence (x ∷ xs) (x ∷ ys)
  skip : {y : A} {xs ys : List A} → Subsequence xs ys → Subsequence xs (y ∷ ys)

module _ {A : Type 0} where
  pub Subsequence-append :
      {xs ys us vs : List A}
      → Subsequence xs ys
      → Subsequence us vs
      → Subsequence (xs ++ us) (ys ++ vs)
  Subsequence-append nil t = t
  Subsequence-append (keep s) t = keep (Subsequence-append s t)
  Subsequence-append (skip s) t = skip (Subsequence-append s t)

  pub Subsequence-nil : (ys : List A) → Subsequence [] ys
  Subsequence-nil [] = nil
  Subsequence-nil (y ∷ ys) = skip (Subsequence-nil ys)

  pub Subsequence-more :
      {xs ys : List A} (zs : List A) → Subsequence xs ys → Subsequence xs (ys ++ zs)
  Subsequence-more {xs} {ys} zs s =
      subst (λ l. Subsequence l (ys ++ zs)) (append-nil xs)
        (Subsequence-append s (Subsequence-nil zs))

  pub Subsequence-self : (xs : List A) → Subsequence xs xs
  Subsequence-self [] = nil
  Subsequence-self (x ∷ xs) = keep (Subsequence-self xs)

  pub Subsequence-trans :
      {ys zs : List A} → Subsequence ys zs → {xs : List A} → Subsequence xs ys → Subsequence xs zs
  Subsequence-trans nil s = s
  Subsequence-trans (skip t) s = skip (Subsequence-trans t s)
  Subsequence-trans (keep t) (keep s) = keep (Subsequence-trans t s)
  Subsequence-trans (keep t) (skip s) = skip (Subsequence-trans t s)
