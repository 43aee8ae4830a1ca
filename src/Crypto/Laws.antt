-- ===== src/Crypto/Laws.antt =====
-- The digests of stdlib/crypto: as a `hash.Hash`, one-shot and streaming, and their padding.
use wasigoc.Common.{ℕ, ◌-◌, ◌%◌, ◌<◌, ◌≡◌, refl, arith, List, ◌∷◌, ◌++◌, length, replicate}
use wasigoc.Hash.Interface.{IsHash}
use wasigoc.Crypto.Blocks.Laws.{write_each, joined, stream-sum_of}
use wasigoc.Crypto.Blocks.Padding.{IsPadded, pad_block-blocks}
use wasigoc.Crypto.Blocks.Streams.{IsDigest, hash, hash-IsHash, length-sum_of}
use wasigoc.Crypto.Words.{big_bytes64, little_bytes64}
use wasigoc.Crypto.Md5
use wasigoc.Crypto.Sha1
use wasigoc.Crypto.Sha256
use wasigoc.Crypto.Sha512

md5-IsDigest : IsDigest Md5.scheme 16
unfolding Md5.hash_to_bytes
md5-IsDigest = record { some_block = omega arith; bytes_shape = λ h. (refl, omega arith) }

sha1-IsDigest : IsDigest Sha1.scheme 20
unfolding Sha1.hash_to_bytes
sha1-IsDigest = record { some_block = omega arith; bytes_shape = λ h. (refl, omega arith) }

sha256-IsDigest : IsDigest Sha256.scheme 32
unfolding Sha256.hash_to_bytes
sha256-IsDigest = record { some_block = omega arith; bytes_shape = λ h. (refl, omega arith) }

sha512-IsDigest : IsDigest Sha512.scheme 64
unfolding Sha512.hash_to_bytes
sha512-IsDigest = record { some_block = omega arith; bytes_shape = λ h. (refl, omega arith) }

-- The digests of md5, sha1, sha256 and sha512 meet the interface of hash.go in every state: a write
-- of bytes never fails, takes them all and may be cut anywhere, `Sum` appends the 16, 20, 32 or 64
-- bytes of the digest, `Reset` forgets the data.
pub digests-IsHash :
    IsHash (hash Md5.scheme 16) (λ d. Unit)
    × IsHash (hash Sha1.scheme 20) (λ d. Unit)
    × IsHash (hash Sha256.scheme 32) (λ d. Unit)
    × IsHash (hash Sha512.scheme 64) (λ d. Unit)
digests-IsHash = (
  hash-IsHash Md5.scheme 16 md5-IsDigest,
  hash-IsHash Sha1.scheme 20 sha1-IsDigest,
  hash-IsHash Sha256.scheme 32 sha256-IsDigest,
  hash-IsHash Sha512.scheme 64 sha512-IsDigest,
)

-- However the data is cut into writes to a new digest, Sum appends the one-shot sum of all of it: for
-- md5, sha1, sha256 and sha512.
pub stream-sums :
    (ps : List (List ℕ)) (b : List ℕ)
    → (Md5.sum (write_each Md5.write ps Md5.new) b ≡ b ++ Md5.sum_of (joined ps))
      × (Sha1.sum (write_each Sha1.write ps Sha1.new) b ≡ b ++ Sha1.sum_of (joined ps))
      × (Sha256.sum (write_each Sha256.write ps Sha256.new) b ≡ b ++ Sha256.sum_of (joined ps))
      × (Sha512.sum (write_each Sha512.write ps Sha512.new) b ≡ b ++ Sha512.sum_of (joined ps))
unfolding Md5.write Md5.sum Md5.new Md5.sum_of Sha1.write Sha1.sum Sha1.new Sha1.sum_of Sha256.write
    Sha256.sum Sha256.new Sha256.sum_of Sha512.write Sha512.sum Sha512.new Sha512.sum_of
stream-sums ps b = (
  stream-sum_of Md5.scheme ps b (omega arith),
  stream-sum_of Sha1.scheme ps b (omega arith),
  stream-sum_of Sha256.scheme ps b (omega arith),
  stream-sum_of Sha512.scheme ps b (omega arith),
)

md5-IsPadded : IsPadded Md5.scheme
md5-IsPadded = record {
  fill = λ n. ((120 - n % 64) % 64, omega arith, omega arith);
  field = λ n bits h. omega (arith, h);
}

sha512-IsPadded : IsPadded Sha512.scheme
sha512-IsPadded = record {
  fill = λ n. ((240 - n % 128) % 128, omega arith, omega arith);
  field = λ n bits h. omega (arith, h);
}

sha1-IsPadded : IsPadded Sha1.scheme
sha1-IsPadded = record { fill = md5-IsPadded.fill; field = λ n bits h. omega (arith, h) }

sha256-IsPadded : IsPadded Sha256.scheme
sha256-IsPadded = record { fill = md5-IsPadded.fill; field = λ n bits h. omega (arith, h) }

-- The padding of md5, sha1, sha256 and sha512 ends: behind the rest of the data it has the byte 128, a
-- number of zeros below the length of a block, and the length field, and it fills whole blocks of 64
-- or, for sha512, 128 bytes.
pub padding-blocks :
    (tail : List ℕ) (bits : ℕ)
    → ((k : ℕ) × (k < 64)
        × (Md5.pad_block tail bits ≡ tail ++ 128 ∷ (replicate k 0 ++ little_bytes64 bits))
        × (length (Md5.pad_block tail bits) % 64 ≡ 0))
      × ((k : ℕ) × (k < 64)
          × (Sha1.pad_block tail bits ≡ tail ++ 128 ∷ (replicate k 0 ++ big_bytes64 bits))
          × (length (Sha1.pad_block tail bits) % 64 ≡ 0))
      × ((k : ℕ) × (k < 64)
          × (Sha256.pad_block tail bits ≡ tail ++ 128 ∷ (replicate k 0 ++ big_bytes64 bits))
          × (length (Sha256.pad_block tail bits) % 64 ≡ 0))
      × ((k : ℕ) × (k < 128)
          × (Sha512.pad_block tail bits
              ≡ tail ++ 128 ∷ (replicate k 0 ++ (replicate 8 0 ++ big_bytes64 bits)))
          × (length (Sha512.pad_block tail bits) % 128 ≡ 0))
unfolding Md5.pad_block Sha1.pad_block Sha256.pad_block Sha512.pad_block
padding-blocks tail bits = (
  pad_block-blocks Md5.scheme md5-IsPadded tail bits,
  pad_block-blocks Sha1.scheme sha1-IsPadded tail bits,
  pad_block-blocks Sha256.scheme sha256-IsPadded tail bits,
  pad_block-blocks Sha512.scheme sha512-IsPadded tail bits,
)

pub length-sums :
    (bytes : List ℕ)
    → (length (Md5.sum_of bytes) ≡ 16)
      × (length (Sha1.sum_of bytes) ≡ 20)
      × (length (Sha256.sum_of bytes) ≡ 32)
unfolding Md5.sum_of Sha1.sum_of Sha256.sum_of
length-sums bytes = (
  length-sum_of Md5.scheme 16 md5-IsDigest bytes,
  length-sum_of Sha1.scheme 20 sha1-IsDigest bytes,
  length-sum_of Sha256.scheme 32 sha256-IsDigest bytes,
)
