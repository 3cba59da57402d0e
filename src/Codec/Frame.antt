-- ===== src/Codec/Frame.antt =====
-- myIOCP/CPacket.cpp: the bytes of a frame, and `Decode` of them.
use iocp_chatserver.Prelude.{
  ℕ, ◌+◌, ◌<◌, ◌^◌, ◌≡◌, refl, sym, ap, ◌∙◌, List, ◌++◌, none, some, arith, length, take, slice,
  le_bytes, of_le, of_le-le_bytes2, bytes_eq, bytes_eq_refl, slice-mid, slice-append_add,
  take-append_self, take-append_add, append_assoc, length-append, length-take, if◌then◌else◌,
}
use iocp_chatserver.Codec.{
  Crypto, IsCrypto, iv_of, decode, pkt_header_size, pkt_aes_key, pkt_mac_key, pkt_mac_size,
  pkt_mac_offset,
}

module _ (c : Crypto) where
  -- The ciphertext, the tag and the whole frame of a payload under a nonce.
  abbrev pub cipher_of : List ℕ → List ℕ → List ℕ
  cipher_of nonce plain = c.encrypt pkt_aes_key (iv_of c nonce) plain

  abbrev tag_of : List ℕ → List ℕ → List ℕ
  tag_of nonce plain =
      take pkt_mac_size
        (c.hmac pkt_mac_key ((le_bytes 2 (length plain) ++ nonce) ++ cipher_of nonce plain))

  abbrev pub frame : List ℕ → List ℕ → List ℕ
  frame nonce plain =
      le_bytes 2 (length plain) ++ (nonce ++ (tag_of nonce plain ++ cipher_of nonce plain))

module _ {c : Crypto} (laws : IsCrypto c) where
  pub length-tag_of : (nonce plain : List ℕ) → length (tag_of c nonce plain) ≡ 16
  length-tag_of nonce plain = omega (
    arith,
    length-take pkt_mac_size
        (c.hmac pkt_mac_key ((le_bytes 2 (length plain) ++ nonce) ++ cipher_of c nonce plain)),
    laws.length-hmac pkt_mac_key ((le_bytes 2 (length plain) ++ nonce) ++ cipher_of c nonce plain),
  )

  pub length-frame :
      (nonce plain : List ℕ)
      → length nonce ≡ 12
      → length (frame c nonce plain) ≡ pkt_header_size + length plain
  length-frame nonce plain h = omega (
    arith,
    length-append nonce (tag_of c nonce plain ++ cipher_of c nonce plain),
    length-append (tag_of c nonce plain) (cipher_of c nonce plain),
    length-tag_of nonce plain,
    laws.length-encrypt pkt_aes_key (iv_of c nonce) plain,
  )

-- The five reads of `Decode` and of the MAC, on a buffer laid out as a frame.
pub record Layout (buf l nonce tag cipher : List ℕ) : Type 0 where
  pub len : take 2 buf ≡ l
  pub head : take pkt_mac_offset buf ≡ l ++ nonce
  pub nonce_at : slice buf 2 12 ≡ nonce
  pub tag_at : slice buf pkt_mac_offset pkt_mac_size ≡ tag
  pub cipher_at : slice buf pkt_header_size (length cipher) ≡ cipher

pub layout :
    (l nonce tag cipher rest : List ℕ)
    → length l ≡ 2
    → length nonce ≡ 12
    → length tag ≡ 16
    → Layout (l ++ (nonce ++ (tag ++ (cipher ++ rest)))) l nonce tag cipher
layout l nonce tag cipher rest hl hn ht = record {
  len = take-append_self 2 l (nonce ++ (tag ++ (cipher ++ rest))) (omega arith);
  head =
      take-append_add 14 12 l (nonce ++ (tag ++ (cipher ++ rest))) (omega arith)
      ∙ ap (◌++◌ l) (take-append_self 12 nonce (tag ++ (cipher ++ rest)) (omega arith));
  nonce_at = slice-mid 2 12 l nonce (tag ++ (cipher ++ rest)) (omega arith) (omega arith);
  tag_at =
      slice-append_add 14 12 16 l (nonce ++ (tag ++ (cipher ++ rest))) (omega arith)
      ∙ slice-mid 12 16 nonce tag (cipher ++ rest) (omega arith) (omega arith);
  cipher_at =
      slice-append_add 30 28 (length cipher) l (nonce ++ (tag ++ (cipher ++ rest))) (omega arith)
      ∙ (slice-append_add 28 16 (length cipher) nonce (tag ++ (cipher ++ rest)) (omega arith)
          ∙ slice-mid 16 (length cipher) tag cipher rest (omega arith) refl);
}

pub frame-append :
    (c : Crypto) (nonce plain rest : List ℕ)
    → frame c nonce plain ++ rest
      ≡ le_bytes 2 (length plain)
        ++ (nonce ++ (tag_of c nonce plain ++ (cipher_of c nonce plain ++ rest)))
frame-append c nonce plain rest =
    append_assoc (le_bytes 2 (length plain))
      (nonce ++ (tag_of c nonce plain ++ cipher_of c nonce plain)) rest
    ∙ ap (◌++◌ (le_bytes 2 (length plain))) (
        append_assoc nonce (tag_of c nonce plain ++ cipher_of c nonce plain) rest
        ∙ ap (◌++◌ nonce) (append_assoc (tag_of c nonce plain) (cipher_of c nonce plain) rest))

decode-Layout :
    (c : Crypto) {buf l nonce tag cipher : List ℕ}
    → Layout buf l nonce tag cipher
    → of_le l ≡ length cipher
    → decode c buf ≡ (
        if bytes_eq tag (take pkt_mac_size (c.hmac pkt_mac_key ((l ++ nonce) ++ cipher)))
        then some (length cipher, c.decrypt pkt_aes_key (iv_of c nonce) cipher)
        else none)
unfolding decode
decode-Layout c lay e = rw (lay.len, e, lay.head, lay.nonce_at, lay.tag_at, lay.cipher_at)

module _ {c : Crypto} (laws : IsCrypto c) where
  -- `Decode` of a frame, whatever bytes follow it, returns the payload.
  pub decode-frame :
      (nonce plain rest : List ℕ)
      → length nonce ≡ 12
      → length plain < 2 ^ 16
      → decode c (frame c nonce plain ++ rest) ≡ some (length plain, plain)
  decode-frame nonce plain rest h small =
      let cipher = cipher_of c nonce plain in
      let same : length cipher ≡ length plain =
        laws.length-encrypt pkt_aes_key (iv_of c nonce) plain in
      rw (frame-append c nonce plain rest) (
        decode-Layout c
          (layout (le_bytes 2 (length plain)) nonce (tag_of c nonce plain) cipher rest refl h
            (length-tag_of laws nonce plain))
          (of_le-le_bytes2 (length plain) small ∙ sym same)
        ∙ rw (bytes_eq_refl (tag_of c nonce plain), laws.decrypt-encrypt, same))

-- The length field at the start of a frame.
pub length_field_lem :
    (c : Crypto) (nonce plain rest : List ℕ)
    → length plain < 2 ^ 16
    → of_le (take 2 (frame c nonce plain ++ rest)) ≡ length plain
length_field_lem c nonce plain rest small =
    ap (λ b. of_le (take 2 b)) (frame-append c nonce plain rest)
    ∙ of_le-le_bytes2 (length plain) small
