-- ===== src/Crypto/Blocks/Streams.antt =====
-- A digest on blocks as a `hash.Hash`.
use wasigoc.Common.{
  ℕ, ◌+◌, ◌*◌, ◌/◌, ◌<◌, ◌≡◌, refl, sym, ap, ◌∙◌, List, ◌++◌, length, length-append, All,
}
use wasigoc.Common.Bits.{IsByte, u64}
use wasigoc.Common.Outcome.{ok}
use wasigoc.Hash.Interface.{Hash, IsHash}
use wasigoc.Crypto.Blocks.{
  Scheme, Digest, sum_of, write, sum, reset, finish, pad_block, process_blocks,
}
use wasigoc.Crypto.Blocks.Laws.{write-append}

module _ {H : Type 0} (f : Scheme H) (n : ℕ) where
  -- A digest of `n` bytes.
  pub record IsDigest : Type 0 where
    pub some_block : 0 < f.block
    pub bytes_shape : (h : H) → (length (f.bytes_of h) ≡ n) × All IsByte (f.bytes_of h)

  abbrev pub hash : Hash
  hash = record {
    State = Digest H;
    write = λ d p. ok (length p, write f d p);
    sum = sum f;
    reset = reset f;
    size = λ d. n;
    block_size = λ d. f.block;
  }

  -- The chaining value behind the padded end.
  last_h : Digest H → H
  last_h d =
      let padded = pad_block f (d.buf) (u64 (d.total_len * 8)) in
      process_blocks f (length padded / f.block) padded (d.h)

  pub hash-IsHash : IsDigest → IsHash hash (λ d. Unit)
  unfolding sum finish reset last_h
  hash-IsHash digest = record {
    write_total = λ d p v h. (write f d p, refl, tt, refl);
    write-append = λ d p q. ap ok (
        ap (λ k. (k, write f d (p ++ q))) (length-append p q)
        ∙ ap (λ e. (length p + length q, e)) (sym (write-append f d p q (digest.some_block))));
    sum_shape = λ d b.
        (let (count, all) = digest.bytes_shape (last_h d) in
          (f.bytes_of (last_h d), refl, count, all));
    reset-IsValid = λ d v. tt;
  }

  pub length-sum_of : IsDigest → (bytes : List ℕ) → length (sum_of f bytes) ≡ n
  unfolding sum_of finish
  length-sum_of digest bytes = (digest.bytes_shape _).0
