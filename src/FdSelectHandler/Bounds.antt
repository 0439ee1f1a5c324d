-- ===== src/FdSelectHandler/Bounds.antt =====
-- The descriptors that `waitOn` gives to `pselect`.
use slirp4tinc.Prelude.{ℕ, ◌+◌, ◌<◌, ◌≤◌, List, count}
use slirp4tinc.Prelude.Int.{ℤ, pos, negsuc}
use slirp4tinc.Prelude.Run.{Returns}
use slirp4tinc.FdSelectHandler.{Client, Sets}

abbrev pub IsAtMost : ℕ → ℤ → Type 0
IsAtMost d (pos m) = d ≤ m
IsAtMost d (negsuc n) = ⊥

abbrev pub IsDescriptor : ℕ → ℤ → Type 0
IsDescriptor size (pos d) = d < size
IsDescriptor size (negsuc n) = Unit

module _ {W : Type 0} (client : Client W) (size : ℕ) where
  -- `fdMax` is not below a descriptor of one of the sets.
  abbrev pub Covers : Sets client → Type 0
  Covers (fd_max, read_set, write_set) =
      (d : ℕ) → 0 < count d read_set + count d write_set → IsAtMost d fd_max

  -- Every handler of the list answers, with a descriptor below FD_SETSIZE or a negative number.
  abbrev pub AnswerAll : List ℕ → Type 0
  AnswerAll l =
      (h : ℕ)
      → 0 < count h l
      → (w : W) → Returns (λ answer. IsDescriptor size answer.0) (client.fd h w)
