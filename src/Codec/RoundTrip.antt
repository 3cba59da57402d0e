-- ===== src/Codec/RoundTrip.antt =====
-- myIOCP/CPacket.cpp: `Encode`, and `Decode` behind it.
use iocp_chatserver.Prelude.{
  ℕ, ◌+◌, ◌≤◌, ◌<◌, ◌^◌, ◌≡◌, refl, sym, ap, ap₂, ◌∙◌, List, [], ◌++◌, some, arith, length, take,
  drop, slice, copy_at, le_bytes, slice-mid, copy_at-mid, copy_at-append_add, take-append-drop,
  length-take, length-drop, take_all, drop-drop,
}
use iocp_chatserver.Codec.{
  Crypto, IsCrypto, iv_of, encipher, stamp, encode, decode, pkt_header_size, pkt_aes_key,
  pkt_mac_key, pkt_mac_size,
}
use iocp_chatserver.Codec.Frame.{
  layout, frame, frame-append, cipher_of, length-tag_of, decode-frame,
}

-- A buffer cut where the fields of a frame begin.
abbrev parts : List ℕ → List ℕ → List ℕ → List ℕ → List ℕ → List ℕ
parts l nonce tag cipher rest = l ++ (nonce ++ (tag ++ (cipher ++ rest)))

module _ (c : Crypto) (l nonce tag cipher rest : List ℕ) where
  encipher-parts :
      (plain : List ℕ)
      → length l ≡ 2
      → length nonce ≡ 12
      → length tag ≡ 16
      → length (c.encrypt pkt_aes_key (iv_of c nonce) plain) ≡ length cipher
      → encipher c (parts l nonce tag cipher rest) plain
        ≡ parts l nonce tag (c.encrypt pkt_aes_key (iv_of c nonce) plain) rest
  unfolding encipher
  encipher-parts plain hl hn ht hc =
      let new = c.encrypt pkt_aes_key (iv_of c nonce) plain in
      rw (slice-mid 2 12 l nonce (tag ++ (cipher ++ rest)) (omega arith) (omega arith)) (
        copy_at-append_add 30 28 l (nonce ++ (tag ++ (cipher ++ rest))) new (omega arith)
        ∙ ap (◌++◌ l) (
            copy_at-append_add 28 16 nonce (tag ++ (cipher ++ rest)) new (omega arith)
            ∙ ap (◌++◌ nonce) (copy_at-mid 16 tag cipher new rest (omega arith) hc)))

  stamp-parts :
      length l ≡ 2
      → length nonce ≡ 12
      → length tag ≡ 16
      → let mac = take pkt_mac_size (c.hmac pkt_mac_key ((l ++ nonce) ++ cipher)) in
        length mac ≡ 16
        → stamp c (parts l nonce tag cipher rest) (length cipher) ≡ parts l nonce mac cipher rest
  unfolding stamp
  stamp-parts hl hn ht hm =
      let lay = layout l nonce tag cipher rest hl hn ht in
      let mac = take pkt_mac_size (c.hmac pkt_mac_key ((l ++ nonce) ++ cipher)) in
      ap
        (λ m. copy_at (parts l nonce tag cipher rest) 14 (take pkt_mac_size (c.hmac pkt_mac_key m)))
        (ap₂ ◌++◌ lay.head lay.cipher_at)
      ∙ (copy_at-append_add 14 12 l (nonce ++ (tag ++ (cipher ++ rest))) mac (omega arith)
          ∙ ap (◌++◌ l) (copy_at-mid 12 nonce tag mac (cipher ++ rest) (omega arith) (omega arith)))

module _ {c : Crypto} (laws : IsCrypto c) (random plain : List ℕ) (size : length random ≡ 12) where
  encode-parts :
      (l nonce tag cipher rest : List ℕ)
      → length l ≡ 2
      → length nonce ≡ 12
      → length tag ≡ 16
      → length cipher ≡ length plain
      → encode c random plain (length plain) (parts l nonce tag cipher rest)
        ≡ (pkt_header_size + length plain, frame c random plain ++ rest)
  unfolding encode
  encode-parts l nonce tag cipher rest hl hn ht hc =
      let n = length plain in
      let new = cipher_of c random plain in
      let same : length new ≡ n = laws.length-encrypt pkt_aes_key (iv_of c random) plain in
      let nonced : copy_at (parts l nonce tag cipher rest) 2 random
          ≡ parts l random tag cipher rest =
        copy_at-mid 2 l nonce random (tag ++ (cipher ++ rest)) (omega arith) (omega arith) in
      let sized : copy_at (parts l random tag new rest) 0 (le_bytes 2 n)
          ≡ parts (le_bytes 2 n) random tag new rest =
        copy_at-mid 0 [] l (le_bytes 2 n) (random ++ (tag ++ (new ++ rest))) refl (omega arith) in
      let ciphered : encipher c (copy_at (parts l nonce tag cipher rest) 2 random) (take n plain)
          ≡ parts l random tag new rest =
        ap₂ (encipher c) nonced (take_all n plain (omega arith))
        ∙ encipher-parts c l random tag cipher rest plain hl size ht (omega arith) in
      ap (λ b. (pkt_header_size + n, stamp c (copy_at b 0 (le_bytes 2 n)) n)) ciphered
      ∙ (ap (λ b. (pkt_header_size + n, stamp c b n)) sized
          ∙ ap (λ b. (pkt_header_size + n, b))
              (ap (stamp c (parts (le_bytes 2 n) random tag new rest)) (sym same)
                ∙ (stamp-parts c (le_bytes 2 n) random tag new rest refl size ht
                      (length-tag_of laws random plain)
                    ∙ sym (frame-append c random plain rest))))

  cut_parts :
      (out : List ℕ)
      → out
        ≡ parts
            (take 2 out)
            (slice out 2 12)
            (slice out 14 16)
            (slice out 30 (length plain))
            (drop (30 + length plain) out)
  cut_parts out =
      sym (take-append-drop 2 out)
      ∙ ap (◌++◌ (take 2 out)) (
          sym (take-append-drop 12 (drop 2 out))
          ∙ ap (◌++◌ (slice out 2 12)) (
              ap (λ b. b) (drop-drop 12 2 14 out refl)
              ∙ (sym (take-append-drop 16 (drop 14 out))
                  ∙ ap (◌++◌ (slice out 14 16)) (
                      drop-drop 16 14 30 out refl
                      ∙ (sym (take-append-drop (length plain) (drop 30 out))
                          ∙ ap (◌++◌ (slice out 30 (length plain)))
                              (drop-drop (length plain) 30 (30 + length plain) out refl))))))

  -- With 12 random bytes and the laws of `IsCrypto`, `Encode` into a buffer with room writes the
  -- frame at its start, returns the frame's length, and leaves the bytes behind it as they were.
  pub encode-frame :
      (out : List ℕ)
      → pkt_header_size + length plain ≤ length out
      → encode c random plain (length plain) out ≡ (
        pkt_header_size + length plain,
        frame c random plain ++ drop (pkt_header_size + length plain) out,
      )
  encode-frame out room =
      ap (encode c random plain (length plain)) (cut_parts out)
      ∙ encode-parts (take 2 out) (slice out 2 12) (slice out 14 16) (slice out 30 (length plain))
          (drop (30 + length plain) out) (omega (arith, length-take 2 out))
          (omega (arith, length-take 12 (drop 2 out), length-drop 2 out))
          (omega (arith, length-take 16 (drop 14 out), length-drop 14 out))
          (omega (arith, length-take (length plain) (drop 30 out), length-drop 30 out))

  -- With 12 random bytes and the laws of `IsCrypto`, a payload of less than 2^16 bytes that
  -- `Encode` put into a buffer with room for it comes back from `Decode`, with its length.
  pub decode-encode :
      (out : List ℕ)
      → pkt_header_size + length plain ≤ length out
      → length plain < 2 ^ 16
      → decode c (encode c random plain (length plain) out).1 ≡ some (length plain, plain)
  decode-encode out room small =
      ap (λ r. decode c r.1) (encode-frame out room)
      ∙ decode-frame laws random plain (drop (pkt_header_size + length plain) out) size small
