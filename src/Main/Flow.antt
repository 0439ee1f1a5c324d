-- ===== src/Main/Flow.antt =====
-- The packets on their way from the switch to the library, as the rounds of the loop move them.
use mathlib.Core.List.{append-nil, append_assoc}
use slirp4tinc.Prelude.{
  ℕ, zero, suc, ◌+◌, ◌≡◌, refl, ap, ◌∙◌, Bool, true, false, ◌&&◌, if◌then◌else◌, List, [], ◌∷◌,
  ◌++◌, has,
}
use slirp4tinc.Prelude.Int.{ℤ}
use slirp4tinc.Prelude.Run.{Run, ok}
use slirp4tinc.Daemon.Os.{Abi, Sys, done, fail}
use slirp4tinc.Daemon.Net.{net_recvfrom}
use slirp4tinc.Bridge.Order.{nonempties}
use slirp4tinc.Main.{Round}
use slirp4tinc.Main.Joined.{has_room, highest, watched_read, watched_write}
use slirp4tinc.Main.Turns.{take_one}

-- What `recvfrom` gives in a round.
abbrev pub packet_of : Run (ℤ × ℕ × List ℕ) → List ℕ
packet_of (ok (d, errno, p)) = p
packet_of r = []

-- The descriptors that `pselect` finds readable and writable.
abbrev pub found : Sys (ℕ × List ℕ × List ℕ) → List ℕ × List ℕ
found (fail e) = ([], [])
found (done (zero, read_set, write_set)) = ([], [])
found (done (suc n, read_set, write_set)) = (read_set, write_set)

-- `recvfrom` answers, if it is called.
abbrev pub IsAnswered : Abi → Round → Type 0
IsAnswered abi r =
    (d : ℤ) × (errno : ℕ) × (p : List ℕ) × (net_recvfrom abi r.read_attempts ≡ ok (d, errno, p))

-- `pselect` never finds the descriptor readable.
abbrev pub IsSilent : ℕ → Round → Type 0
IsSilent b r =
    (n : ℕ) (read_set write_set : List ℕ) → has b (found (r.pselect n read_set write_set)).0 ≡ false

abbrev pub Each : (Round → Type 0) → List Round → Type 0
Each P [] = Unit
Each P (r ∷ rounds) = P r × Each P rounds

module _ (abi : Abi) (a b : ℕ) where
  abbrev pub answer : Round → List (List ℕ) → Sys (ℕ × List ℕ × List ℕ)
  answer r ps = r.pselect (highest a b + 1) (watched_read a b ps) (watched_write b ps)

  -- The packet that comes in a round, if `ps` waits and the plug's descriptor is found readable.
  abbrev pub comes : Round → List (List ℕ) → List ℕ → List (List ℕ)
  comes r ps read_set =
      if has a read_set && has_room ps
      then packet_of (net_recvfrom abi r.read_attempts) ∷ []
      else []

  -- What the library is given in the round, and what then waits.
  abbrev pub flow : Round → List (List ℕ) → List ℕ × List ℕ → List (List ℕ) × List (List ℕ)
  flow r ps (read_set, write_set) = take_one (has b write_set) (ps ++ comes r ps read_set)

  -- The packets that come in the rounds.
  abbrev pub came : List Round → List (List ℕ) → List (List ℕ)
  came [] ps = []
  came (r ∷ rounds) ps =
      comes r ps (found (answer r ps)).0 ++ came rounds (flow r ps (found (answer r ps))).1

  pub flow_none : (r : Round) (ps : List (List ℕ)) → flow r ps ([], []) ≡ ([], ps)
  flow_none r [] = refl
  flow_none r (p ∷ ps) = rw (append-nil ps) refl

  take_one-more :
      (seen : Bool) (ps more : List (List ℕ))
      → (take_one seen ps).0 ++ nonempties ((take_one seen ps).1 ++ more) ≡ nonempties (ps ++ more)
  take_one-more seen [] more = refl
  take_one-more true (p ∷ ps) more = refl
  take_one-more false (p ∷ ps) more = refl

  pub flow-more :
      (g' g : List (List ℕ)) (seen : Bool) (ps new more : List (List ℕ))
      → g' ≡ g ++ (take_one seen (ps ++ new)).0
      → g' ++ nonempties ((take_one seen (ps ++ new)).1 ++ more)
        ≡ g ++ nonempties (ps ++ (new ++ more))
  flow-more g' g seen ps new more e =
      let qs = (take_one seen (ps ++ new)).1 ++ more in
      ap (λ l. l ++ nonempties qs) e
      ∙ append_assoc g (take_one seen (ps ++ new)).0 (nonempties qs)
      ∙ ap (λ l. g ++ l)
          (take_one-more seen (ps ++ new) more ∙ ap nonempties (append_assoc ps new more))
