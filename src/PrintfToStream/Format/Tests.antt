-- ===== src/PrintfToStream/Format/Tests.antt =====
-- src/Util/PrintfToStream.cpp: what flags do together.
use slirp4tinc.Prelude.{◌≡◌, refl, true, [], ◌∷◌}
use slirp4tinc.Prelude.Run.{ok}
use slirp4tinc.PrintfToStream.{printi, prints}

-- "%+05d" of 5 is "000+5".
zeros_before_plus : printi 5 10 true 5 6 97 ≡ ok (5, 48 ∷ 48 ∷ 48 ∷ 43 ∷ 53 ∷ [])
unfolding printi prints
zeros_before_plus = refl

-- "%-05d" of 5 is "50000".
zeros_behind : printi 5 10 true 5 3 97 ≡ ok (5, 53 ∷ 48 ∷ 48 ∷ 48 ∷ 48 ∷ [])
unfolding printi prints
zeros_behind = refl

-- "%+d" of 0 is "0".
zero_without_plus : printi 0 10 true 0 4 97 ≡ ok (1, 48 ∷ [])
unfolding printi prints
zero_without_plus = refl
