-- ===== src/FdSelectHandler/Tests.antt =====
-- A chain of two handlers.
use slirp4tinc.Prelude.{
  ℕ, ◌≡◌, refl, sym, ap, Bool, true, false, none, some, List, [], ◌∷◌, ◌++◌, arith,
}
use slirp4tinc.Prelude.Int.{ℤ, pos}
use slirp4tinc.Prelude.Run.{ok, ok-injective}
use slirp4tinc.FdSelectHandler.{
  Handlers, unlinked, Client, next_of, add_to, remove_from_chain, wait_on, Timeout,
}
use slirp4tinc.FdSelectHandler.Chain.{IsChain, add_to_lem, remove_from_chain_lem}
use slirp4tinc.FdSelectHandler.Dispatch.{KeepsOthers}
use slirp4tinc.FdSelectHandler.Waits.{wait_all, wait_on_lem}
use slirp4tinc.Daemon.Os.{Sys, done}

abbrev nothing : Handlers
nothing = record { links = λ i. unlinked; chains = λ c. none }

nothing-IsChain : IsChain nothing 5 []
nothing-IsChain = record {
  unique = λ i. omega arith;
  head = refl;
  each = λ i m. absurd (omega (arith, m));
}

one-IsChain : IsChain (add_to 1 5 nothing) 5 (1 ∷ [])
one-IsChain = add_to_lem nothing 5 1 [] nothing-IsChain refl

two-IsChain : IsChain (add_to 2 5 (add_to 1 5 nothing)) 5 (2 ∷ 1 ∷ [])
two-IsChain = add_to_lem (add_to 1 5 nothing) 5 2 (1 ∷ []) one-IsChain refl

add_to_lem_example : IsChain (add_to 2 5 (add_to 1 5 nothing)) 5 (2 ∷ 1 ∷ [])
add_to_lem_example = add_to_lem (add_to 1 5 nothing) 5 2 (1 ∷ []) one-IsChain refl

remove_from_chain_lem_example :
    IsChain (remove_from_chain 1 (add_to 2 5 (add_to 1 5 nothing))) 5 (2 ∷ [])
    × ((remove_from_chain 1 (add_to 2 5 (add_to 1 5 nothing))).links 1 ≡ unlinked)
remove_from_chain_lem_example =
    remove_from_chain_lem (add_to 2 5 (add_to 1 5 nothing)) 5 1 (2 ∷ 1 ∷ []) two-IsChain
      (omega arith)

-- Handlers whose descriptor is their number, that wait for reading, and note that they were executed.
abbrev noting : Client (Handlers × List ℕ)
noting = record {
  handlers = λ w. w.0;
  fd = λ h w. ok (pos h, true, false, w);
  execute = λ h readable writable w. ok (w.0, w.1 ++ h ∷ []);
}

noting-KeepsOthers : KeepsOthers noting
noting-KeepsOthers = record {
  fd = λ h i w w' d r x e.
      ap (λ (t : ℤ × Bool × Bool × (Handlers × List ℕ)). next_of noting t.3 i)
        (sym (ok-injective e));
  execute =
      λ h i r x w w' e n. ap (λ (t : Handlers × List ℕ). next_of noting t i) (sym (ok-injective e));
}

abbrev started : Handlers × List ℕ
started = (add_to 2 5 (add_to 1 5 nothing), [])

noting-chain :
    (h : ℕ) (w w' : Handlers × List ℕ) (d : ℤ) (for_read for_write : Bool)
    → noting.fd h w ≡ ok (d, for_read, for_write, w')
    → (noting.handlers w').chains 5 ≡ (noting.handlers w).chains 5
noting-chain h w w' d r x e =
    ap (λ (t : ℤ × Bool × Bool × (Handlers × List ℕ)). t.3.0.chains 5) (sym (ok-injective e))

-- All descriptors that are asked for are ready.
abbrev all_ready : Timeout → ℕ → List ℕ → List ℕ → Sys (ℕ × List ℕ × List ℕ)
all_ready timeout n read_set write_set = done (2, read_set, write_set)

wait_on_lem_example :
    wait_on noting 3 8 all_ready (λ t. done tt) (some (1, 0)) 5 started
    ≡ wait_all noting 8 all_ready (λ t. done tt) (some (1, 0)) (2 ∷ 1 ∷ []) started
wait_on_lem_example =
    wait_on_lem noting noting-KeepsOthers 5 noting-chain 8 all_ready (λ t. done tt) (some (1, 0))
      (2 ∷ 1 ∷ []) 3 started two-IsChain (omega arith)
