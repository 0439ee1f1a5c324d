-- ===== src/ByteStream/Decorator.antt =====
-- src/Interface/ByteStreamDecorator.cpp: the block operations, which are virtual functions too. A
-- stream has those of ByteStream.cpp, unless its class has its own.
use slirp4tinc.Prelude.{ℕ, ◌≡◌, refl, List}
use slirp4tinc.Prelude.Run.{Run}
use slirp4tinc.ByteStream.{ByteStream, decorator, write_block, read_block}

pub record BlockStream (S : Type 0) : Type 0 where
  pub bytes : ByteStream S
  pub write_block : List ℕ → ℕ → S → Run (ℕ × S)
  pub read_block : List ℕ → ℕ → S → Run (ℕ × List ℕ × S)

module _ {S : Type 0} where
  -- A stream whose class has the single-byte operations only.
  pub default_blocks : ByteStream S → BlockStream S
  default_blocks stream = record {
    bytes = stream;
    write_block = λ b num_bytes s. write_block stream b num_bytes s;
    read_block = λ b num_bytes s. read_block stream b num_bytes s;
  }

  -- `ByteStreamDecorator`: every operation is the one of `backendIo`.
  pub block_decorator : BlockStream S → BlockStream S
  block_decorator backend_io = record {
    bytes = decorator backend_io.bytes;
    write_block = λ b num_bytes s. backend_io.write_block b num_bytes s;
    read_block = λ b num_bytes s. backend_io.read_block b num_bytes s;
  }

  -- The blocks of a decorated stream with single-byte operations only are those that a decorator
  -- without block operations of its own would have.
  block_decorator-default_blocks :
      (stream : ByteStream S)
      → block_decorator (default_blocks stream) ≡ default_blocks (decorator stream)
  unfolding block_decorator default_blocks decorator
  block_decorator-default_blocks stream = refl
