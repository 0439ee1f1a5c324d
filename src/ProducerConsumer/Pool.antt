-- ===== src/ProducerConsumer/Pool.antt =====
-- What a producer-consumer context promises: each of the `n` slots is free, in production, released
-- or in consumption, and the free and the released slots wait in two queues.
use slirp4tinc.Prelude.{
  ℕ, Bool, true, false, Option, none, some, List, [], ◌∷◌, ◌++◌, if◌then◌else◌, has, remove, range,
  length,
}
use slirp4tinc.Prelude.Run.{Run, ok, blocked, assert_failed, undefined, ◌>>=◌}
use slirp4tinc.ProducerConsumer.{Ref, slot, foreign}

-- Both queues with the oldest slot first; `payload` is what the slots hold.
pub record Pool {ℓ} (T : Type ℓ) : Type ℓ where
  pub free : List ℕ
  pub released : List ℕ
  pub producing : List ℕ
  pub consuming : List ℕ
  pub payload : ℕ → T

module _ {ℓ} {T : Type ℓ} where
  abbrev pub initial : ℕ → (ℕ → T) → Pool T
  initial n v = record {
    free = range 0 n;
    released = [];
    producing = [];
    consuming = [];
    payload = v;
  }

  -- The oldest released slot is freed; with none released the caller waits.
  unfoldable pub evict : Pool T → Run (Pool T)
  evict p = elim p.released [
    | [] ↦ blocked
    | r ∷ rs ↦ ok (record p { free = p.free ++ r ∷ []; released = rs })
  ]

  -- The oldest free slot goes into production.
  unfoldable pub take : Pool T → Run (ℕ × Pool T)
  take p = elim p.free [
    | [] ↦ blocked
    | f ∷ fs ↦ ok (f, record p { free = fs; producing = f ∷ p.producing })
  ]

  -- A caller who does not block evicts if nothing is free.
  unfoldable pub produce : Bool → Pool T → Run (ℕ × Pool T)
  unfolding evict take
  produce true p = take p
  produce false p = elim p.free [ [] ↦ (do q ← evict p; take q) | f ∷ fs ↦ take p ]

  -- Only a slot in production can be released.
  unfoldable pub release : Ref → Pool T → Run (Pool T)
  release foreign p = undefined
  release (slot i) p =
      if has i p.producing
      then ok (record p { producing = remove i p.producing; released = p.released ++ i ∷ [] })
      else assert_failed

  unfoldable pub consume : Bool → Pool T → Run (Option ℕ × Pool T)
  consume block p = elim p.released [
    | [] ↦ (if block then blocked else ok (none, p))
    | r ∷ rs ↦ ok (some r, record p { released = rs; consuming = r ∷ p.consuming })
  ]

  -- Only a slot in consumption can be cleaned up.
  unfoldable pub cleanup : Option Ref → Pool T → Run (Pool T)
  cleanup none p = assert_failed
  cleanup (some foreign) p = undefined
  cleanup (some (slot i)) p =
      if has i p.consuming
      then ok (record p { consuming = remove i p.consuming; free = p.free ++ i ∷ [] })
      else assert_failed

  unfoldable pub slots_available : Pool T → ℕ
  slots_available p = length p.free

  unfoldable pub items_available : Pool T → ℕ
  items_available p = length p.released
