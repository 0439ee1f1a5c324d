-- ===== src/ProducerConsumer/Threads/Log.antt =====
-- What the steps of threads do to the queue of payloads.
use mathlib.Core.List.{append-nil}
use slirp4tinc.Prelude.{
  ℕ, none, some, List, [], ◌∷◌, ◌++◌, map, get_elem?, ◌≡◌, ◌<◌, refl, ap, sym, ◌∙◌,
}
use slirp4tinc.ProducerConsumer.{ProducerConsumer}
use slirp4tinc.ProducerConsumer.Pool.{Pool}
use slirp4tinc.ProducerConsumer.Ring
use slirp4tinc.ProducerConsumer.Rep.{Rep, released-in_range}
use slirp4tinc.ProducerConsumer.Threads.{
  Point, outside, evict_section, consume_section, release_lock, Step, proceeds, Reachable, starts,
  steps,
}

-- A released payload leaves the queue for the consumer that receives it, or is dropped by a producer
-- that takes the oldest item back.
pub data Leaving {ℓ} (T : Type ℓ) : Type ℓ where
  received : T → Leaving T
  dropped : T → Leaving T

module _ {T : Type 0} where
  abbrev pub leaving_value : Leaving T → T
  leaving_value (received v) = v
  leaving_value (dropped v) = v

  abbrev pub values : List (Leaving T) → List T
  values log = map leaving_value log

  -- The payload of an item; a slot that is none has no payload.
  abbrev pub payload_at : ProducerConsumer T → ℕ → List T
  payload_at s x = elim (get_elem? s.item_buffer x) [ none ↦ [] | some it ↦ it.payload ∷ [] ]

  -- The payload of the item that stands at the front of the released ones.
  abbrev pub front_payload : ProducerConsumer T → List T
  front_payload s = elim (get_elem? s.released_buffer s.next_consume) [
    | none ↦ []
    | some none ↦ []
    | some (some x) ↦ payload_at s x
  ]

  -- The payloads that wait in the queue of released slots.
  abbrev pub waiting : Pool T → List T
  waiting p = map p.payload p.released

  -- The payload at the front of the queue leaves it.
  pub takes :
      (p : Pool T) {x : ℕ} {xs : List ℕ} {found : List T} (how : T → Leaving T)
      → ((v : T) → leaving_value (how v) ≡ v)
      → p.released ≡ x ∷ xs
      → found ≡ p.payload x ∷ []
      → waiting p ++ [] ≡ values (map how found) ++ map p.payload xs
  takes p {x} {xs} how same e at =
      append-nil _
      ∙ ap (map p.payload) e
      ∙ ap (λ (v : T). v ∷ map p.payload xs) (sym (same (p.payload x)))
      ∙ sym (ap (λ (l : List T). values (map how l) ++ map p.payload xs) at)

  module _ {n : ℕ} {s : ProducerConsumer T} {p : Pool T} (r : Rep n s p) where
    pub payload_at_lem : (x : ℕ) → x < n → payload_at s x ≡ p.payload x ∷ []
    payload_at_lem x less = rw (r.items.each x less, payload_at) refl

    pub front_payload_lem :
        (x : ℕ) (xs : List ℕ) → p.released ≡ x ∷ xs → front_payload s ≡ p.payload x ∷ []
    front_payload_lem x xs e =
        rw (Ring.front r.small (rw e at r.released_ring), front_payload)
          (payload_at_lem x (released-in_range r.partition e))

  -- The payload that the section of `release` gives to the queue.
  unfoldable pub released_by : Point → ProducerConsumer T → List T
  released_by (release_lock x) s = payload_at s x
  released_by before s = []

  -- The payloads that a step from one point to another takes from the queue: of the item that
  -- `consume` returns, and of the one that `produce` takes back.
  unfoldable pub leaving : Point → Point → ProducerConsumer T → List (Leaving T)
  leaving evict_section after s = map dropped (front_payload s)
  leaving consume_section (outside (some x)) s = map received (payload_at s x)
  leaving before after s = []

  unfoldable pub step_released :
      {n : ℕ} {a b : List Point × ProducerConsumer T} → Step n a b → List T
  unfolding released_by
  step_released (proceeds front back before after s s' e) = released_by before s
  step_released step = []

  unfoldable pub step_leaving :
      {n : ℕ} {a b : List Point × ProducerConsumer T} → Step n a b → List (Leaving T)
  unfolding leaving
  step_leaving (proceeds front back before after s s' e) = leaving before after s
  step_leaving step = []

  -- The payloads that were released in a run, and those that left the queue, in the order of the
  -- steps.
  unfoldable pub released_in :
      {n : ℕ} {s0 : ProducerConsumer T} {a : List Point × ProducerConsumer T}
      → Reachable n s0 a
      → List T
  unfolding step_released
  released_in (starts threads) = []
  released_in (steps run step) = released_in run ++ step_released step

  unfoldable pub log_of :
      {n : ℕ} {s0 : ProducerConsumer T} {a : List Point × ProducerConsumer T}
      → Reachable n s0 a
      → List (Leaving T)
  unfolding step_leaving
  log_of (starts threads) = []
  log_of (steps run step) = log_of run ++ step_leaving step
