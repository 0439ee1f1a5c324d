-- ===== src/FdSelectHandler/Dispatch.antt =====
-- The second loop of `waitOn` goes through the chain from its first handler to its last one.
use slirp4tinc.Prelude.{
  ℕ, zero, suc, ◌<◌, ◌≡◌, ◌≢◌, refl, sym, ap, ◌∙◌, Bool, true, false, ◌||◌, if◌then◌else◌, Option,
  List, [], ◌∷◌, arith, length, count,
}
use mathlib.Core.Path.{subst}
use slirp4tinc.Prelude.Int.{ℤ}
use slirp4tinc.Prelude.Run.{Run, ok, ◌>>=◌, >>=-eq-ok, ok-injective, same-bind}
use slirp4tinc.FdSelectHandler.{Client, next_of, fd_isset_if, dispatch_one, dispatch_loop}
use slirp4tinc.FdSelectHandler.Neighbours.{first, IsUnique, tail-IsUnique}

module _ {W : Type 0} (client : Client W) where
  -- `fd` leaves the links to next handlers, and `execute` those of all other handlers.
  pub record KeepsOthers : Type 0 where
    pub fd :
        (h i : ℕ) (w w' : W) (d : ℤ) (for_read for_write : Bool)
        → client.fd h w ≡ ok (d, for_read, for_write, w')
        → next_of client w' i ≡ next_of client w i
    pub execute :
        (h i : ℕ) (readable writable : Bool) (w w' : W)
        → client.execute h readable writable w ≡ ok w'
        → h ≢ i
        → next_of client w' i ≡ next_of client w i

  -- Each handler of the list is linked to the one behind it.
  abbrev pub Follows : W → List ℕ → Type 0
  Follows w [] = Unit
  Follows w (h ∷ l) = (next_of client w h ≡ first l) × Follows w l

  -- One pass for each handler of the list.
  pub dispatch_all : ℕ → List ℕ → List ℕ → List ℕ → W → Run W
  dispatch_all size read_set write_set [] w = ok w
  dispatch_all size read_set write_set (h ∷ l) w = do
    (next, w') ← dispatch_one client size read_set write_set h w
    dispatch_all size read_set write_set l w'

  module _ (keeps : KeepsOthers) (size : ℕ) (read_set write_set : List ℕ) where
    executed :
        (b readable writable : Bool) (h i : ℕ) (w w' : W)
        → (if b then client.execute h readable writable w else ok w) ≡ ok w'
        → h ≢ i
        → next_of client w' i ≡ next_of client w i
    executed true readable writable h i w w' e n = keeps.execute h i readable writable w w' e n
    executed false readable writable h i w w' e n =
        ap (λ (v : W). next_of client v i) (sym (ok-injective e))

    dispatch_one_lem :
        (h i : ℕ) (w w' : W) (next : Option ℕ)
        → dispatch_one client size read_set write_set h w ≡ ok (next, w')
        → (next ≡ next_of client w h) × (h ≢ i → next_of client w' i ≡ next_of client w i)
    unfolding dispatch_one
    dispatch_one_lem h i w w' next e =
        let ((d, r, x, w1), e1, e2) = >>=-eq-ok (client.fd h w) _ e in
        let (readable, e3, e4) = >>=-eq-ok (fd_isset_if size r d read_set) _ e2 in
        let (writable, e5, e6) = >>=-eq-ok (fd_isset_if size x d write_set) _ e4 in
        let (w2, e7, e8) =
          >>=-eq-ok (if readable || writable then client.execute h readable writable w1 else ok w1)
            _ e6 in
        subst
          (λ (t : Option ℕ × W).
            (t.0 ≡ next_of client w h) × (h ≢ i → next_of client t.1 i ≡ next_of client w i))
          (ok-injective e8)
          (
            keeps.fd h h w w1 d r x e1,
            λ n.
                executed (readable || writable) readable writable h i w1 w2 e7 n
                ∙ keeps.fd h i w w1 d r x e1,
          )

    pub Follows-later :
        (l : List ℕ) (w w' : W)
        → ((i : ℕ) → 0 < count i l → next_of client w' i ≡ next_of client w i)
        → Follows w l
        → Follows w' l
    Follows-later [] w w' same f = tt
    Follows-later (h ∷ l) w w' same f =
        (same h (ground arith) ∙ f.0, Follows-later l w w' (λ i m. same i (ground (arith, m))) f.1)

    -- If the handlers change no links to next handlers but their own, then, with fuel for one pass
    -- more than the chain has handlers, the second loop of `waitOn` makes one pass for each handler
    -- of a chain without repetitions, in order.
    pub dispatch_loop_lem :
        (l : List ℕ) (fuel : ℕ) (w : W)
        → IsUnique l
        → Follows w l
        → length l < fuel
        → dispatch_loop client size fuel read_set write_set (first l) w
          ≡ dispatch_all size read_set write_set l w
    unfolding dispatch_loop dispatch_all
    dispatch_loop_lem l zero w u f enough = absurd (omega (arith, enough))
    dispatch_loop_lem [] (suc fuel) w u f enough = refl
    dispatch_loop_lem (h ∷ l) (suc fuel) w u f enough =
        same-bind (dispatch_one client size read_set write_set h w) _ _ (λ r e.
          ap (λ (k : Option ℕ). dispatch_loop client size fuel read_set write_set k r.1)
            ((dispatch_one_lem h h w r.1 r.0 e).0 ∙ f.0)
          ∙ dispatch_loop_lem l fuel r.1 (tail-IsUnique h l u)
              (Follows-later l w r.1
                (λ i m. (dispatch_one_lem h i w r.1 r.0 e).1 (λ q. ground (arith, u h, m, q))) f.1)
              (omega (arith, enough)))
