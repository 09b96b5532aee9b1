-- ===== src/Transport/Framing.antt =====
-- src/replication/transport.rs: what a stream's task makes of a framed message.
use edgeproxy.Prelude.{
  ℕ, ◌/◌, ◌%◌, ◌^◌, ◌<◌, ◌≡◌, refl, ap, List, [], ◌∷◌, ◌++◌, none, some, if◌then◌else◌, ltb, length,
  u32_mod, arith,
}
use edgeproxy.Transport.{
  Message, Wire, WireLaws, decode_length, frame, encode_message, read_exact, read_length,
  read_stream, max_message,
}

-- A `u32` is read back from its bytes.
decode_length-bytes :
    (n : ℕ)
    → n < u32_mod
    → decode_length
        (n % u32_mod / 2 ^ 24 % 256)
        (n % u32_mod / 2 ^ 16 % 256)
        (n % u32_mod / 2 ^ 8 % 256)
        (n % u32_mod % 256)
      ≡ n
unfolding decode_length
decode_length-bytes n h = omega arith

-- The bytes taken are those that were written, whatever follows them.
read_exact-append : (bytes rest : List ℕ) → read_exact (length bytes) (bytes ++ rest) ≡ some bytes
unfolding read_exact
read_exact-append [] rest = refl
read_exact-append (b ∷ bs) rest = rw (read_exact-append bs rest)

read_length-frame :
    (bytes rest : List ℕ)
    → length bytes < u32_mod
    → read_length (frame bytes ++ rest) ≡ some (length bytes, bytes ++ rest)
unfolding read_length frame
read_length-frame bytes rest h =
    ap (λ n. some (n, bytes ++ rest)) (decode_length-bytes (length bytes) h)

module _ (w : Wire) (laws : WireLaws w) where
  -- A stream that holds an encoded message, and then whatever it holds, gives the message if that is
  -- of 10 MiB at most and nothing if it is longer, for messages of less than 4 GiB.
  pub read_stream-encode_message :
      (m : Message) (bytes framed rest : List ℕ)
      → w.serialize m ≡ some bytes
      → encode_message w m ≡ some framed
      → length bytes < u32_mod
      → read_stream w (framed ++ rest) ≡ (if ltb max_message (length bytes) then none else some m)
  unfolding read_stream encode_message
  read_stream-encode_message m bytes framed rest e f h = ground (
    arith,
    read_length-frame bytes rest h,
    read_exact-append bytes rest,
    laws.reads_back m bytes e,
  )
