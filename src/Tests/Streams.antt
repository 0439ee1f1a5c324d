-- ===== src/Tests/Streams.antt =====
-- src/Interface/ByteStream.cpp and src/Util/FdIoStream.cpp: concrete streams.
use slirp4tinc.Prelude.{ℕ, Bool, zero, suc, ◌≤◌, ◌≡◌, refl, ◌⊎◌, true, List, [], ◌∷◌, arith, length}
use slirp4tinc.Prelude.Int.{pos}
use slirp4tinc.Prelude.Run.{ok}
use slirp4tinc.Daemon.Os.{Sys, done, fail}
use slirp4tinc.ByteStream.{ByteStream, write_block, read_block}
use slirp4tinc.ByteStream.Reads.{read_all, read_block_lem}
use slirp4tinc.ByteStream.Blocks.{IsSingle, write_block_lem, write_all}
use slirp4tinc.FdIoStream.{FdIoStream, Constants}
use slirp4tinc.FdIoStream
use slirp4tinc.FdIoStream.Errors.{Failed, write_block_error, read_block_error}

-- A stream with room for as many bytes as its state says, and as many bytes 65 to read.
abbrev room : ByteStream ℕ
room = record {
  write = λ b s. elim s [ zero ↦ (0, zero) | suc n ↦ (1, n) ];
  read = λ b s. elim s [ zero ↦ (0, b, zero) | suc n ↦ (1, 65, n) ];
}

write_at_most_one : (b s : ℕ) → (room.write b s).0 ≤ 1
write_at_most_one b zero = omega arith
write_at_most_one b (suc s) = omega arith

read_at_most_one : (b s : ℕ) → (room.read b s).0 ≤ 1
read_at_most_one b zero = omega arith
read_at_most_one b (suc s) = omega arith

room-IsSingle : IsSingle room
room-IsSingle = record { write = write_at_most_one; read = read_at_most_one }

read_block_lem_example :
    (read_block room (1 ∷ 2 ∷ 3 ∷ 9 ∷ []) 3 2 ≡ ok (2, 65 ∷ 65 ∷ 3 ∷ 9 ∷ [], 0))
    × (2 ≤ 3)
    × (length {A = ℕ} (65 ∷ 65 ∷ 3 ∷ []) ≡ 3)
unfolding read_all
read_block_lem_example = read_block_lem room room-IsSingle (1 ∷ 2 ∷ 3 ∷ []) (9 ∷ []) 2 (omega arith)

write_block_lem_example : (write_block room (7 ∷ 8 ∷ 9 ∷ []) 3 2 ≡ ok (2, 0)) × (2 ≤ 3)
unfolding write_all
write_block_lem_example = write_block_lem room room-IsSingle (7 ∷ 8 ∷ 9 ∷ []) 2 (omega arith)

abbrev linux : Constants
linux = record { eagain = 11; ewouldblock = 11; fd_setsize = 1024; or_nonblock = λ flags. flags }

abbrev stream : FdIoStream
stream = record { sys_fd = pos 3; my_errno = 0 }

write_block_error_example :
    ((FdIoStream.write_block linux (fail 32) stream).0 ≡ 0)
    × Failed linux {A = ℕ} (fail 32) (FdIoStream.write_block linux (fail 32) stream).1.my_errno
unfolding FdIoStream.write_block
write_block_error_example = write_block_error linux (fail 32) stream refl

read_block_error_example :
    (FdIoStream.read_block linux (done (1, true)) (fail 5) (0 ∷ []) stream
      ≡ ok (FdIoStream.after_select linux (done (1, true)) (fail 5) (0 ∷ []) stream))
    × ((FdIoStream.after_select linux (done (1, true)) (fail 5) (0 ∷ []) stream).0 ≡ 0)
    × ((FdIoStream.after_select linux (done (1, true)) (fail 5) (0 ∷ []) stream).1 ≡ 0 ∷ [])
    × ((◌≡◌ {A = Sys (ℕ × Bool)} (done (1, true)) (
          fail
            (FdIoStream.after_select linux (done (1, true)) (fail 5) (0 ∷ []) stream).2.my_errno))
        ⊎ Failed linux {A = List ℕ}
            (fail 5)
            (FdIoStream.after_select linux (done (1, true)) (fail 5) (0 ∷ []) stream).2.my_errno)
unfolding FdIoStream.after_select
read_block_error_example =
    read_block_error linux (done (1, true)) (fail 5) (0 ∷ []) stream 3 refl (omega arith) refl
