-- ===== src/Main/Drain.antt =====
-- Rounds of the loop in which the library takes packets: what waits is given to it.
use slirp4tinc.Prelude.{ℕ, ◌≡◌, true, List, has}
use slirp4tinc.Main.{Round}
use slirp4tinc.Main.Flow.{found}

-- `pselect` finds the descriptor writable whenever it is watched for that.
abbrev pub IsWritable : ℕ → Round → Type 0
IsWritable b r =
    (n : ℕ) (read_set write_set : List ℕ)
    → has b write_set ≡ true
    → has b (found (r.pselect n read_set write_set)).1 ≡ true
