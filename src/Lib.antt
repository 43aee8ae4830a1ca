-- ===== src/Lib.antt =====
-- A verification library for the standard library of wasigoc, the Go code under stdlib/ that the
-- compiler links into Go programs for WebAssembly.
--
-- The packages and their files here:
--   Hash      stdlib/hash: the interface hash.Hash and the digests crc32, crc64, adler32 and fnv.
--             Interface.antt has hash.Hash as a record with its laws, Crc.antt the table and the
--             loop that crc32 and crc64 share, Crc/Reference.antt the checksum bit by bit, and a
--             file for each digest its record and methods (Write, Sum, Sum32, Reset).
--   Encoding  stdlib/encoding: binary (the two byte orders), hex and base64, whose encoders and
--             decoders are modelled loop by loop. Hex/Encode and Base64/Text describe the text, Hex/Digits
--             the digits that DecodeString reads. Csv has
--             the Reader and the Writer of encoding/csv, Csv/Written the text of records.
--   Unicode   stdlib/unicode/utf16: EncodeRune, DecodeRune, Encode and Decode.
--   Sort      stdlib/sort and the sorting of stdlib/slices: Insertion has slices.Sort, IsSorted,
--             sort.Ints and sort.Strings, Interface has sort.Sort and sort.IsSorted, Search has
--             sort.Search, and Order the laws of an order.
--   Slices    the rest of stdlib/slices/slices.go.
--   Text      stdlib/strings and stdlib/bytes: Find has the two versions of Index, Pieces what both
--             packages build on it (Count, Split, Join, Replace, Cut), Strings and Bytes what is
--             left, Buffers the types Builder, Buffer and Reader.
--   Paths     stdlib/path/path.go, and in File stdlib/path/filepath/filepath.go.
--   Strconv   stdlib/strconv/strconv.go on unsigned numbers and booleans.
--   MathBits  stdlib/math/bits/bits.go.
--   Rc4       stdlib/crypto/rc4/rc4.go.
--   Heap      stdlib/container/heap/heap.go. Order has the order of a heap, Sift what up and down do to
--             it, and Laws the operations.
--   Container stdlib/container/list/list.go: Linked has the store of elements and the methods of List,
--             Linked/Chain the chains of linked elements, Linked/Laws the invariant.
--   Big       stdlib/math/big/big.go: Magnitude has the functions on limbs (addMag, subMag, mulMag,
--             divModMag), with a file each for the numbers they compute, and Integer the methods of
--             Int.
--   Crypto    stdlib/crypto: md5, sha1, sha256, sha512, hmac, hkdf, subtle, aes and des. Blocks has
--             what the four digests share (padBlock, Sum and the Digest that buffers a block), as
--             functions of a record in which they differ, Words the words they read and write, and
--             a file for each digest its processBlock and its instances; Hmac has hmacCore, Hkdf
--             Extract, Expand and Sum, whose Laws define HKDF as the RFC does; Subtle,
--             Aes and Des are the files of that name. The states, keys and tables of Aes and Des
--             are read at indexes that are in range by their lengths.
--   Url       stdlib/net/url/url.go: Escape has QueryEscape, PathEscape and what undoes them, Parse
--             has URL, Parse, String and ParseQuery.
--   Regexp    stdlib/regexp/regexp.go: Match has the matcher, with the relation that says what a node
--             matches in Match/Meaning, Find the search and the methods on it, with what they return in
--             Find/Loops and, for Split, in Find/Split, Parse the parser.
--   Mime      stdlib/mime/quotedprintable/quotedprintable.go.
--   Common    what these share: lists as slices, how a call ends, machine words and bits.
--
-- How the code is read. A number is a native natural number, and an operation on a word of w bits
-- has its wrap-around (u8, u32, u64) written out. A string and a slice of bytes are the list of
-- their bytes, and a slice that a function fills is an argument and a part of the result. A read or
-- a write by index panics out of range (load and store of Common/Slices), and a call that can fail
-- returns an Outcome: a value, an error with its text or a panic. An index of -1 is `none`, and so
-- is a count of matches or pieces below zero, which asks for all; the length of hkdf is an integer
-- with its sign. A method
-- that changes its receiver takes the record and returns the new one. An interface that the caller
-- implements (sort.Interface, heap.Interface) is a parameter, for which the laws that the
-- documentation asks are named hypotheses. The io.Writer of Csv is a parameter too; that of Mime takes
-- all bytes, since the code never reads what a write returns. An io.Reader is given by its bytes.
--
-- Loops are recursive on what they walk over, or on fuel. The fuel is a number that the loop's own
-- bound gives: the length of the text and one more in Text (each round takes a byte at least), the
-- length of the text in Base64, the width of the word in MathBits and Strconv, the distance of the
-- bounds in Search, the index or the length in Heap. In Big a digit of a quotient takes 20 rounds of
-- binary search (a limb is below 2^20), SetInt64 11 limbs for 64 bits, and Exp 20 rounds for a limb of
-- the exponent; padBlock writes fewer zeros than a block is long; Expand of hkdf
-- adds 32 bytes in a round and has a round for each byte; ParseQuery takes a round for each byte and one more.
-- In Regexp a repetition takes a round for each byte and one more, the loops of Find one for each
-- place and one more, and the parser three calls for each byte; in Csv a field or a record takes a
-- byte, and so does a round of decodeAll in Mime. Where a theorem is about such a loop, its proof shows
-- that the fuel is not used up.
--
-- Pointers. In Container the elements of lists stand at addresses in a store that the methods change,
-- so that an element is shared by its neighbours and the list; the address of a new element is an
-- argument. In Big receivers and arguments are objects of their own: aliasing of them is left out.
--
-- Not modelled: the compiler and its runtime, which are C++; functions that range over the runes of
-- a string, which the runtime decodes; floating point; what calls the host (os, net but for url, time,
-- syscall); the packages of stdlib that the list above does not name. Capacities of slices and the sharing of
-- their arrays are left out: the functions here return or fill one slice.
pub mod Common
pub mod Hash
pub mod Encoding
pub mod Unicode
pub mod Sort
pub mod Text
pub mod Paths
pub mod Rc4
pub mod Slices
pub mod Heap
pub mod MathBits
pub mod Tests
pub mod Strconv
pub mod Big
pub mod Container
pub mod Crypto
pub mod Url
pub mod Regexp
pub mod Mime
