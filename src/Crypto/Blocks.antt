-- ===== src/Crypto/Blocks.antt =====
-- What md5.go, sha1.go, sha256.go and sha512.go of stdlib/crypto have in common: the padding, the
-- one-shot Sum and the streaming Digest. They differ in the entries of `Scheme`.
pub mod Laws
pub mod Padding
pub mod Streams
use wasigoc.Common.{ℕ, zero, suc, ◌+◌, ◌-◌, ◌*◌, ◌/◌, ◌%◌, List, [], ◌∷◌, ◌++◌, ◌==◌, if◌then◌else◌}
use wasigoc.Common.{length, take, drop}
use wasigoc.Common.Bits.{u64}

pub record Scheme (H : Type 0) : Type 0 where
  -- the chaining value at the start, processBlock, and the bytes of the last chaining value
  pub start : H
  pub process_block : List ℕ → H → H
  pub bytes_of : H → List ℕ
  -- the length of a block, and of what stands in the last one before the length field
  pub block : ℕ
  pub room : ℕ
  pub length_field : ℕ → List ℕ

pub record Digest (H : Type 0) : Type 0 where
  pub h : H
  pub buf : List ℕ
  pub total_len : ℕ

module _ {H : Type 0} (f : Scheme H) where
  -- The loop over `n` blocks of bytes.
  pub process_blocks : ℕ → List ℕ → H → H
  process_blocks zero bytes h = h
  process_blocks (suc n) bytes h =
      process_blocks n (drop (f.block) bytes) (f.process_block (take (f.block) bytes) h)

  -- `for len(out)%64 != 56` on fuel: one round for a place in the block.
  pub zeros_loop : ℕ → List ℕ → List ℕ
  zeros_loop zero out = out
  zeros_loop (suc fuel) out =
      let longer = zeros_loop fuel (out ++ 0 ∷ []) in
      if length out % f.block == f.room then out else longer

  pub pad_block : List ℕ → ℕ → List ℕ
  pad_block tail bits = zeros_loop (f.block) (tail ++ 128 ∷ []) ++ f.length_field bits

  -- The padded end of the data: its blocks, then the bytes.
  pub finish : List ℕ → H → List ℕ
  finish padded h = f.bytes_of (process_blocks (length padded / f.block) padded h)

  pub sum_of : List ℕ → List ℕ
  sum_of bytes =
      let full = length bytes / f.block * f.block in
      let h = process_blocks (length bytes / f.block) bytes (f.start) in
      finish (pad_block (drop full bytes) (u64 (u64 (length bytes) * 8))) h

  pub new : Digest H
  new = record { h = f.start; buf = []; total_len = 0 }

  pub write : Digest H → List ℕ → Digest H
  write d p =
      let buf = d.buf ++ p in
      let full = length buf / f.block * f.block in
      record {
        h = process_blocks (length buf / f.block) buf (d.h);
        buf = drop full buf;
        total_len = u64 (d.total_len + u64 (length p));
      }

  pub sum : Digest H → List ℕ → List ℕ
  sum d b = b ++ finish (pad_block (d.buf) (u64 (d.total_len * 8))) (d.h)

  pub reset : Digest H → Digest H
  reset d = record { h = f.start; buf = []; total_len = 0 }
