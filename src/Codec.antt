-- ===== src/Codec.antt =====
-- myIOCP/CPacket.h and CPacket.cpp, the static part: the header layout, the keys, `Encode` and
-- `Decode`. AES-128-CTR and HMAC-SHA-256 are OpenSSL's: a record of functions, `Crypto`.
pub mod Frame
pub mod RoundTrip
use iocp_chatserver.Prelude.{
  ℕ, ◌+◌, Bool, List, [], ◌∷◌, ◌++◌, Option, none, some, ◌≡◌, if◌then◌else◌, length, take, slice,
  replicate, copy_at, le_bytes, of_le, bytes_eq,
}

abbrev pub packet_buffer_size : ℕ
packet_buffer_size = 4096

abbrev pkt_nonce_offset : ℕ
pkt_nonce_offset = 2

abbrev pkt_nonce_size : ℕ
pkt_nonce_size = 12

abbrev pub pkt_mac_offset : ℕ
pkt_mac_offset = 14

abbrev pub pkt_mac_size : ℕ
pkt_mac_size = 16

abbrev pkt_mac_full_size : ℕ
pkt_mac_full_size = 32

abbrev pub pkt_header_size : ℕ
pkt_header_size = 30

abbrev pub pkt_aes_key : List ℕ
pkt_aes_key =
    0x2B ∷ 0x7E ∷ 0x15 ∷ 0x16 ∷ 0x28 ∷ 0xAE ∷ 0xD2 ∷ 0xA6 ∷ 0xAB ∷ 0xF7 ∷ 0x15 ∷ 0x88 ∷ 0x09 ∷ 0xCF
    ∷ 0x4F ∷ 0x3C ∷ []

abbrev pub pkt_mac_key : List ℕ
pkt_mac_key =
    0xA1 ∷ 0xB2 ∷ 0xC3 ∷ 0xD4 ∷ 0xE5 ∷ 0xF6 ∷ 0x07 ∷ 0x18 ∷ 0x29 ∷ 0x3A ∷ 0x4B ∷ 0x5C ∷ 0x6D ∷ 0x7E
    ∷ 0x8F ∷ 0x90 ∷ 0xAA ∷ 0xBB ∷ 0xCC ∷ 0xDD ∷ 0xEE ∷ 0xFF ∷ 0x11 ∷ 0x22 ∷ 0x33 ∷ 0x44 ∷ 0x55
    ∷ 0x66 ∷ 0x77 ∷ 0x88 ∷ 0x99 ∷ 0x00 ∷ []

-- What the code calls of OpenSSL, each with the key first: `EVP_EncryptUpdate` and
-- `EVP_DecryptUpdate` under an iv, and an HMAC over the concatenation of its updates.
pub record Crypto : Type 0 where
  pub encrypt : List ℕ → List ℕ → List ℕ → List ℕ
  pub decrypt : List ℕ → List ℕ → List ℕ → List ℕ
  pub hmac : List ℕ → List ℕ → List ℕ

-- A stream cipher keeps the length and decryption undoes encryption; a SHA-256 tag has 32 bytes.
pub record IsCrypto (c : Crypto) : Type 0 where
  pub decrypt-encrypt : (key iv m : List ℕ) → c.decrypt key iv (c.encrypt key iv m) ≡ m
  pub length-encrypt : (key iv m : List ℕ) → length (c.encrypt key iv m) ≡ length m
  pub length-hmac : (key m : List ℕ) → length (c.hmac key m) ≡ pkt_mac_full_size

module _ (c : Crypto) where
  -- `BYTE iv[16] = { 0 }` with the nonce copied over its start.
  unfoldable pub iv_of : List ℕ → List ℕ
  iv_of nonce = copy_at (replicate 16 0) 0 nonce

  -- `EVP_EncryptUpdate` into `out`, under the nonce that stands there.
  unfoldable pub encipher : List ℕ → List ℕ → List ℕ
  unfolding iv_of
  encipher out plain =
      copy_at out pkt_header_size
        (c.encrypt pkt_aes_key (iv_of (slice out pkt_nonce_offset pkt_nonce_size)) plain)

  -- The HMAC over the head and the ciphertext, cut to its first bytes.
  unfoldable pub stamp : List ℕ → ℕ → List ℕ
  stamp out plain_len =
      let mac =
        c.hmac pkt_mac_key (take pkt_mac_offset out ++ slice out pkt_header_size plain_len) in
      copy_at out pkt_mac_offset (take pkt_mac_size mac)

  -- `random` is what `RAND_bytes` writes. Returned: the frame's length, and `out` as written.
  -- The length field is a `WORD`: the two low bytes of `plainLen`.
  unfoldable pub encode : List ℕ → List ℕ → ℕ → List ℕ → ℕ × List ℕ
  unfolding encipher stamp
  encode random plain plain_len out =
      let ciphered = encipher (copy_at out pkt_nonce_offset random) (take plain_len plain) in
      (pkt_header_size + plain_len, stamp (copy_at ciphered 0 (le_bytes 2 plain_len)) plain_len)

  -- `none` is the result -1; otherwise the length returned and the bytes written to `outPlain`.
  -- The parameter `inLen` is not read by the code.
  unfoldable pub decode : List ℕ → Option (ℕ × List ℕ)
  unfolding iv_of
  decode input =
      let len = of_le (take 2 input) in
      let calc_mac =
        c.hmac pkt_mac_key (take pkt_mac_offset input ++ slice input pkt_header_size len) in
      if bytes_eq (slice input pkt_mac_offset pkt_mac_size) (take pkt_mac_size calc_mac)
      then some (
        len,
        c.decrypt pkt_aes_key (iv_of (slice input pkt_nonce_offset pkt_nonce_size))
            (slice input pkt_header_size len),
      )
      else none
