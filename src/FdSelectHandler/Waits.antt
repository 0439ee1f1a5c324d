-- ===== src/FdSelectHandler/Waits.antt =====
-- A whole call of `waitOn`, over the list of the handlers of a chain.
use slirp4tinc.Prelude.{
  ℕ, zero, suc, ◌+◌, ◌<◌, ◌≡◌, refl, ap, ◌∙◌, Bool, true, false, Option, List, [], ◌∷◌, arith,
  length, count, eq→==, ne→==,
}
use mathlib.Core.Path.{subst}
use slirp4tinc.Prelude.Int.{ℤ, pos, negsuc}
use slirp4tinc.Prelude.Run.{Run, ok, ◌>>=◌, >>=-eq-ok, ok-injective, same-bind}
use slirp4tinc.Daemon.Os.{Sys, done, fail}
use slirp4tinc.FdSelectHandler.{
  Links, Client, Sets, next_of, fd_set_if, collect_one, collect_loop, dispatch_loop, after_pselect,
  wait_on, relative_wait, Timeout,
}
use slirp4tinc.FdSelectHandler.Neighbours.{first, after, IsUnique, tail-IsUnique}
use slirp4tinc.FdSelectHandler.Chain.{IsChain}
use slirp4tinc.FdSelectHandler.Dispatch.{
  KeepsOthers, Follows, dispatch_all, Follows-later, dispatch_loop_lem,
}

-- Neighbours in a chain are linked.
module _ {W : Type 0} (client : Client W) (w : W) where
  after-Follows :
      (l : List ℕ)
      → IsUnique l
      → ((i : ℕ) → 0 < count i l → next_of client w i ≡ after l i)
      → Follows client w l
  after-Follows [] u linked = tt
  after-Follows (h ∷ l) u linked = (
    linked h (ground arith) ∙ rw (eq→== h h refl) refl,
    after-Follows l (tail-IsUnique h l u) (λ i m.
        linked i (ground (arith, m)) ∙ rw (ne→== h i (λ e. ground (arith, u i, m, e))) refl),
  )

  pub IsChain-Follows : (c : ℕ) (l : List ℕ) → IsChain (client.handlers w) c l → Follows client w l
  IsChain-Follows c l chained =
      after-Follows l chained.unique (λ i m. ap (λ (k : Links). k.next) (chained.each i m))

module _ {W : Type 0} (client : Client W) where
  -- Each handler of the list is asked for its descriptor and adds it to the sets.
  unfoldable pub collect_all : ℕ → Sets client → List ℕ → W → Run (Sets client × W)
  collect_all size sets [] w = ok (sets, w)
  collect_all size sets (h ∷ l) w = do
    answer ← client.fd h w
    (sets', w') ← collect_one client size sets answer
    collect_all size sets' l w'

  -- What `pselect` answers, and the work that it leads to.
  pub answer_all : ℕ → List ℕ → Sys (ℕ × List ℕ × List ℕ) → W → Run (Bool × W)
  answer_all size l (fail e) w = ok (false, w)
  answer_all size l (done (zero, read_set, write_set)) w = ok (false, w)
  answer_all size l (done (suc n, read_set, write_set)) w = do
    w' ← dispatch_all client size read_set write_set l w
    ok (true, w')

  -- A call for the handlers of the list: it collects their descriptors, waits if there is one, and
  -- goes through them again if one is ready.
  pub wait_all :
      ℕ
      → (Timeout → ℕ → List ℕ → List ℕ → Sys (ℕ × List ℕ × List ℕ))
      → (ℕ × ℕ → Sys (Unit {0}))
      → Timeout
      → List ℕ
      → W
      → Run (Bool × W)
  unfolding collect_all answer_all
  wait_all size pselect nanosleep timeout l w = do
    ((fd_max, read_set, write_set), w') ← collect_all size (negsuc 0, [], []) l w
    elim fd_max [
      | negsuc n ↦ relative_wait client nanosleep timeout w'
      | pos m ↦ answer_all size l (pselect timeout (m + 1) read_set write_set) w'
    ]

  collect_one-state :
      (size : ℕ) (sets sets' : Sets client) (d : ℤ) (for_read for_write : Bool) (w w' : W)
      → collect_one client size sets (d, for_read, for_write, w) ≡ ok (sets', w')
      → w ≡ w'
  unfolding collect_one
  collect_one-state size sets sets' (negsuc n) for_read for_write w w' e =
      ap (λ (r : Sets client × W). r.1) (ok-injective e)
  collect_one-state size (fd_max, read_set, write_set) sets' (pos fd) for_read for_write w w' e =
      let (rs, e1, e2) = >>=-eq-ok (fd_set_if size for_read fd read_set) _ e in
      let (ws, e3, e4) = >>=-eq-ok (fd_set_if size for_write fd write_set) _ e2 in
      ap (λ (r : Sets client × W). r.1) (ok-injective e4)

  module _ (keeps : KeepsOthers client) (c : ℕ)
      (keeps_chain : (h : ℕ) (w w' : W) (d : ℤ) (for_read for_write : Bool)
        → client.fd h w ≡ ok (d, for_read, for_write, w')
        → (client.handlers w').chains c ≡ (client.handlers w).chains c) where
    -- The links to next handlers and the chain are as before.
    abbrev Leaves : W → W → Type 0
    Leaves w w' =
        ((i : ℕ) → next_of client w' i ≡ next_of client w i)
        × ((client.handlers w').chains c ≡ (client.handlers w).chains c)

    Leaves-pass :
        (size h : ℕ) (sets : Sets client) (answer : ℤ × Bool × Bool × W) (r : Sets client × W)
        (w : W)
        → client.fd h w ≡ ok answer
        → collect_one client size sets answer ≡ ok r
        → Leaves w r.1
    Leaves-pass size h sets (d, for_read, for_write, w1) (sets', w') w asked collected =
        subst (Leaves w) (collect_one-state size sets sets' d for_read for_write w1 w' collected) (
          λ i. keeps.fd h i w w1 d for_read for_write asked,
          keeps_chain h w w1 d for_read for_write asked,
        )

    pub collect_loop_lem :
        (size : ℕ) (l : List ℕ) (fuel : ℕ) (sets : Sets client) (w : W)
        → Follows client w l
        → length l < fuel
        → collect_loop client fuel size (first l) sets w ≡ collect_all size sets l w
    unfolding collect_loop collect_all
    collect_loop_lem size l zero sets w f enough = absurd (omega (arith, enough))
    collect_loop_lem size [] (suc fuel) sets w f enough = refl
    collect_loop_lem size (h ∷ l) (suc fuel) sets w f enough =
        same-bind (client.fd h w) _ _ (λ answer asked.
          same-bind (collect_one client size sets answer) _ _ (λ r collected.
            let leaves = Leaves-pass size h sets answer r w asked collected in
            ap (λ (k : Option ℕ). collect_loop client fuel size k r.0 r.1) (leaves.0 h ∙ f.0)
            ∙ collect_loop_lem size l fuel r.0 r.1
                (Follows-later client keeps 0 [] [] l w r.1 (λ i m. leaves.0 i) f.1)
                (omega (arith, enough))))

    collect_all-Leaves :
        (size : ℕ) (l : List ℕ) (sets : Sets client) (w : W) (r : Sets client × W)
        → collect_all size sets l w ≡ ok r
        → Leaves w r.1
    unfolding collect_all
    collect_all-Leaves size [] sets w r e =
        subst (λ (t : Sets client × W). Leaves w t.1) (ok-injective e) ((λ i. refl), refl)
    collect_all-Leaves size (h ∷ l) sets w r e =
        let (answer, asked, e1) = >>=-eq-ok (client.fd h w) _ e in
        let (q, collected, e2) = >>=-eq-ok (collect_one client size sets answer) _ e1 in
        let first_pass = Leaves-pass size h sets answer q w asked collected in
        let others = collect_all-Leaves size l q.0 q.1 r e2 in
        ((λ i. others.0 i ∙ first_pass.0 i), others.1 ∙ first_pass.1)

    answer_lem :
        (size : ℕ) (l : List ℕ) (fuel : ℕ) (answer : Sys (ℕ × List ℕ × List ℕ)) (w : W)
        → (client.handlers w).chains c ≡ first l
        → IsUnique l
        → Follows client w l
        → length l < fuel
        → after_pselect client size fuel c answer w ≡ answer_all size l answer w
    unfolding after_pselect answer_all
    answer_lem size l fuel (fail e) w head u f enough = refl
    answer_lem size l fuel (done (zero, read_set, write_set)) w head u f enough = refl
    answer_lem size l fuel (done (suc n, read_set, write_set)) w head u f enough =
        ap (λ (r : Run W). r >>= λ w'. ok (true, w'))
          (ap (λ (k : Option ℕ). dispatch_loop client size fuel read_set write_set k w) head
            ∙ dispatch_loop_lem client keeps size read_set write_set l fuel w u f enough)

    -- If the handlers change no links to next handlers but their own, and `fd` leaves the chain, then
    -- `waitOn` of a doubly linked chain, with fuel for one pass more than it has handlers, asks
    -- each handler once and in order for its descriptor and its flags, gives the sets to `pselect` if
    -- there is a descriptor, and, if one is ready, makes one more pass for each handler in order. It
    -- has done work exactly in that case. Without a descriptor it sleeps, if there is a timeout.
    pub wait_on_lem :
        (size : ℕ) (pselect : Timeout → ℕ → List ℕ → List ℕ → Sys (ℕ × List ℕ × List ℕ))
        (nanosleep : ℕ × ℕ → Sys (Unit {0})) (timeout : Timeout) (l : List ℕ) (fuel : ℕ) (w : W)
        → IsChain (client.handlers w) c l
        → length l < fuel
        → wait_on client fuel size pselect nanosleep timeout c w
          ≡ wait_all size pselect nanosleep timeout l w
    unfolding wait_on wait_all
    wait_on_lem size pselect nanosleep timeout [] fuel w chained enough =
        rw (wait_on, chained.head) refl
    wait_on_lem size pselect nanosleep timeout (h ∷ l) fuel w chained enough =
        rw (wait_on, chained.head)
          (ap (λ (r : Run (Sets client × W)). r >>= rest)
              (collect_loop_lem size (h ∷ l) fuel (negsuc 0, [], []) w
                (IsChain-Follows client w c (h ∷ l) chained) enough)
            ∙ same-bind (collect_all size (negsuc 0, [], []) (h ∷ l) w) rest _
                (λ r e. go r.0 r.1 (collect_all-Leaves size (h ∷ l) (negsuc 0, [], []) w r e)))
      where
        rest : Sets client × W → Run (Bool × W)
        rest ((fd_max, read_set, write_set), w') = elim fd_max [
          | negsuc n ↦ relative_wait client nanosleep timeout w'
          | pos m ↦ after_pselect client size fuel c (pselect timeout (m + 1) read_set write_set) w'
        ]

        go :
            (sets : Sets client) (w' : W)
            → Leaves w w'
            → rest (sets, w') ≡ elim sets.0 [
              | negsuc n ↦ relative_wait client nanosleep timeout w'
              | pos m ↦ answer_all size (h ∷ l) (pselect timeout (m + 1) sets.1 sets.2) w'
            ]
        go (negsuc n, read_set, write_set) w' leaves = refl
        go (pos m, read_set, write_set) w' leaves =
            answer_lem size (h ∷ l) fuel (pselect timeout (m + 1) read_set write_set) w'
              (leaves.1 ∙ chained.head) chained.unique
              (Follows-later client keeps 0 [] [] (h ∷ l) w w' (λ i m. leaves.0 i)
                (IsChain-Follows client w c (h ∷ l) chained))
              enough
