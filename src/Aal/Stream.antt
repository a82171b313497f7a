-- ===== src/Aal/Stream.antt =====
-- What bitmap.c takes from libaal's streams and from the machine: a stream is the list of its unread
-- bytes; a uint64_t is written as the eight bytes that it has in memory, in the host's order.
use reiser4progs.Prelude.{
  ℕ, ◌%◌, ◌<◌, ◌≡◌, refl, List, ◌++◌, length, take, drop, u64_mod, arith, bytes_of, of_bytes,
  length-bytes_of, of_bytes-bytes_of,
}

pub record Stream : Type 0 where
  -- aal_stream_read: the bytes got, and the stream behind them.
  pub read : List ℕ → ℕ → List ℕ × List ℕ
  -- aal_stream_write
  pub write : List ℕ → List ℕ → List ℕ
  pub word_bytes : ℕ → List ℕ
  pub bytes_word : List ℕ → ℕ
  pub read_lem : (s : List ℕ) (n : ℕ) → read s n ≡ (take n s, drop n s)
  pub write_lem : (s bytes : List ℕ) → write s bytes ≡ s ++ bytes
  pub length-word_bytes : (x : ℕ) → length (word_bytes x) ≡ 8
  pub bytes_word-word_bytes : (x : ℕ) → x < u64_mod → bytes_word (word_bytes x) ≡ x
  pub bytes_word-lt : (bytes : List ℕ) → bytes_word bytes < u64_mod

pub length-word : (x : ℕ) → length (bytes_of 8 x) ≡ 8
length-word x = length-bytes_of 8 x

pub of_word : (x : ℕ) → x < u64_mod → of_bytes (bytes_of 8 x) % u64_mod ≡ x
of_word x h = omega (arith, of_bytes-bytes_of 8 x h)

pub word_bound : (x : ℕ) → x % u64_mod < u64_mod
word_bound x = omega arith

instance abbrev pub little_endian : Stream
little_endian = record {
  read = λ s n. (take n s, drop n s);
  write = λ s bytes. s ++ bytes;
  word_bytes = bytes_of 8;
  bytes_word = λ bytes. of_bytes bytes % u64_mod;
  read_lem = λ s n. refl;
  write_lem = λ s bytes. refl;
  length-word_bytes = length-word;
  bytes_word-word_bytes = of_word;
  bytes_word-lt = λ bytes. word_bound (of_bytes bytes);
}
