-- ===== src/ProducerConsumer/Threads/Fifo.antt =====
-- The order of the payloads, whatever threads interleave.
use mathlib.Core.Path.{subst}
use mathlib.Core.List.{append_assoc, map-append}
use slirp4tinc.Prelude.{
  ℕ, ◌≡◌, ◌<◌, ◌^◌, refl, ap, sym, ◌∙◌, List, [], ◌∷◌, ◌++◌, map, arith, length, length-map,
}
use slirp4tinc.Prelude.Run.{ok, ok-injective}
use slirp4tinc.ProducerConsumer.{ProducerConsumer, construct}
use slirp4tinc.ProducerConsumer.Pool
use slirp4tinc.ProducerConsumer.Pool.{Pool}
use slirp4tinc.ProducerConsumer.Rep.{Rep}
use slirp4tinc.ProducerConsumer.Refine.Construct.{construct-Rep}
use slirp4tinc.ProducerConsumer.Session.Subsequence.{Subsequence, nil, keep, skip, Subsequence-more}
use slirp4tinc.ProducerConsumer.Threads.{Point, Reachable, starts, steps, AreOrderly}
use slirp4tinc.ProducerConsumer.Threads.Log.{
  Leaving, received, dropped, values, waiting, step_released, step_leaving, released_in, log_of,
}
use slirp4tinc.ProducerConsumer.Threads.Invariant.{IsConsistent}
use slirp4tinc.ProducerConsumer.Threads.Runs.{starts-IsConsistent, Step-IsConsistent}

module _ {T : Type 0} where
  -- The payloads that consumers have received.
  abbrev pub receptions : List (Leaving T) → List T
  receptions [] = []
  receptions (received v ∷ log) = v ∷ receptions log
  receptions (dropped v ∷ log) = receptions log

  receptions-Subsequence : (log : List (Leaving T)) → Subsequence (receptions log) (values log)
  receptions-Subsequence [] = nil
  receptions-Subsequence (received v ∷ log) = keep (receptions-Subsequence log)
  receptions-Subsequence (dropped v ∷ log) = skip (receptions-Subsequence log)

  runs-order :
      {n : ℕ} {s0 : ProducerConsumer T} {p : Pool T} {a : List Point × ProducerConsumer T}
      → Rep n s0 p
      → p.released ≡ []
      → (run : Reachable n s0 a) → AreOrderly run
      → (c : IsConsistent n a.0 a.1) × (released_in run ≡ values (log_of run) ++ waiting c.pool)
  unfolding AreOrderly released_in log_of
  runs-order {p} r empty (starts threads) orderly =
      let (c, same) = starts-IsConsistent r threads in
      (c, sym (ap waiting same ∙ ap (map p.payload) empty))
  runs-order r empty (steps run step) (orderly, owner) =
      let (c, e) = runs-order r empty run orderly in
      let (c', flows) = Step-IsConsistent step c owner in
      let log = log_of run in
      (
        c',
        ap (λ (l : List T). l ++ step_released step) e
            ∙ append_assoc (values log) (waiting c.pool) (step_released step)
            ∙ ap (λ (l : List T). values log ++ l) flows
            ∙ sym (append_assoc (values log) (values (step_leaving step)) (waiting c'.pool))
            ∙ sym
                (ap (λ (l : List T). l ++ waiting c'.pool) (map-append _ log (step_leaving step))),
      )

  -- In any run of threads on a new context of at least one and less than 2 ^ 31 items, whatever they
  -- write to the items that are in production, if no thread begins to release an item that another
  -- one is releasing, nor to clean up one that another one is cleaning up: the payloads that were
  -- released are, in the order of the releases, those that have left the queue, in the order in
  -- which they left, and then as many as the context counts as released. What consumers have
  -- received is in the order of the releases, too, each payload at most once.
  pub released_order :
      (n : ℕ) (v : ℕ → T) (s0 : ProducerConsumer T)
      → 0 < n
      → n < 2 ^ 31
      → construct n v ≡ ok s0
      → (points : List Point) (s : ProducerConsumer T) (run : Reachable n s0 (points, s))
      → AreOrderly run
      → (queue : List T) × (released_in run ≡ values (log_of run) ++ queue)
        × (length queue ≡ s.num_released_items)
        × Subsequence (receptions (log_of run)) (released_in run)
  released_order n v s0 more small constructed points s run orderly =
      let (s1, same, r) = construct-Rep n v more small in
      let (c, e) =
        runs-order
          (subst (λ (t : ProducerConsumer T). Rep n t (Pool.initial n v))
            (ok-injective (sym same ∙ constructed)) r)
          refl run orderly in
      (
        waiting c.pool,
        e,
        omega (arith, length-map c.pool.payload c.pool.released, c.rep.counts.released),
        subst (Subsequence (receptions (log_of run))) (sym e)
            (Subsequence-more (waiting c.pool) (receptions-Subsequence (log_of run))),
      )
