-- ===== src/Client.antt =====
-- DummyClient/DummyClient.cpp: the load-test client, its copy of the codec and its requests. Winsock
-- is the system's: `send` takes some of the bytes that it is offered, and 0 stands for every result
-- that is not positive.
pub mod Receive
pub mod Stream
pub mod Returning
pub mod Sending
pub mod Asking
pub mod Printing
pub mod Boxes
pub mod Credentials
pub mod SignUp
pub mod Console
pub mod Bot
pub mod Online
pub mod Counting
use iocp_chatserver.Prelude.{
  ℕ, zero, suc, ◌+◌, ◌-◌, ◌*◌, ◌%◌, ◌^◌, ◌≤◌, ◌≡◌, Bool, true, false, List, [], ◌∷◌, ◌++◌, Option,
  none, some, if◌then◌else◌, ◌==◌, ltb, length, take, drop, slice, replicate, copy_at, le_bytes,
  of_le, bytes_eq,
}
use Prim.Native.Nat.{bit_xor}
use iocp_chatserver.Protocol.{
  max_nickname_len, max_account_len, max_password_len, max_chat_len, wchar_size, cs_login_req,
  cs_room_enter_req, cs_room_leave_req, cs_chat_req, cs_signup_req,
}
use iocp_chatserver.Codec.{Crypto}
use iocp_chatserver.Db.{wide_copy}

-- The layout and the keys, which this program defines again.
abbrev pub pkt_mac_offset : ℕ
pkt_mac_offset = 14

abbrev pub pkt_mac_size : ℕ
pkt_mac_size = 16

abbrev pub pkt_header_size : ℕ
pkt_header_size = 30

abbrev pkt_aes_key : List ℕ
pkt_aes_key =
    0x2B ∷ 0x7E ∷ 0x15 ∷ 0x16 ∷ 0x28 ∷ 0xAE ∷ 0xD2 ∷ 0xA6 ∷ 0xAB ∷ 0xF7 ∷ 0x15 ∷ 0x88 ∷ 0x09 ∷ 0xCF
    ∷ 0x4F ∷ 0x3C ∷ []

abbrev pkt_mac_key : List ℕ
pkt_mac_key =
    0xA1 ∷ 0xB2 ∷ 0xC3 ∷ 0xD4 ∷ 0xE5 ∷ 0xF6 ∷ 0x07 ∷ 0x18 ∷ 0x29 ∷ 0x3A ∷ 0x4B ∷ 0x5C ∷ 0x6D ∷ 0x7E
    ∷ 0x8F ∷ 0x90 ∷ 0xAA ∷ 0xBB ∷ 0xCC ∷ 0xDD ∷ 0xEE ∷ 0xFF ∷ 0x11 ∷ 0x22 ∷ 0x33 ∷ 0x44 ∷ 0x55
    ∷ 0x66 ∷ 0x77 ∷ 0x88 ∷ 0x99 ∷ 0x00 ∷ []

module _ (c : Crypto) where
  -- `Encode` on what `RAND_bytes` gives: the length returned, and `out` as written.
  unfoldable pub encode : List ℕ → List ℕ → ℕ → List ℕ → ℕ × List ℕ
  encode random plain plain_len out =
      let nonced = copy_at out 2 random in
      let iv = copy_at (replicate 16 0) 0 (slice nonced 2 12) in
      let ciphered =
        copy_at nonced pkt_header_size (c.encrypt pkt_aes_key iv (take plain_len plain)) in
      let sized = copy_at ciphered 0 (le_bytes 2 plain_len) in
      let mac =
        c.hmac pkt_mac_key (take pkt_mac_offset sized ++ slice sized pkt_header_size plain_len) in
      (pkt_header_size + plain_len, copy_at sized pkt_mac_offset (take pkt_mac_size mac))

  -- `none` is the result -1.
  unfoldable pub decode : List ℕ → Option (ℕ × List ℕ)
  decode input =
      let len = of_le (take 2 input) in
      let cipher = slice input pkt_header_size len in
      let calc_mac = c.hmac pkt_mac_key (take pkt_mac_offset input ++ cipher) in
      let iv = copy_at (replicate 16 0) 0 (slice input 2 12) in
      if bytes_eq (slice input pkt_mac_offset pkt_mac_size) (take pkt_mac_size calc_mac)
      then some (len, c.decrypt pkt_aes_key iv cipher)
      else none

-- A socket, with the bytes that the system has taken of it, oldest first.
pub record Socket (W : Type 0) : Type 0 where
  pub world : W
  pub taken : List ℕ

-- The payload array of a request, and how much of it is sent.
pub record Request : Type 0 where
  pub payload : List ℕ
  pub payload_len : ℕ

-- `wcsncpy_s(_, size, text, _TRUNCATE)` to the place `at` of a payload; `text` is a string with its
-- end mark.
abbrev pub with_box : ℕ → ℕ → List ℕ → List ℕ → List ℕ
with_box at size text payload =
    copy_at payload at (wide_copy (size - 1) (slice payload at (wchar_size * size)) text)

unfoldable pub login_request : List ℕ → List ℕ → Request
login_request account password =
    let size = 2 + wchar_size * max_account_len + wchar_size * max_password_len in
    let typed = copy_at (replicate size 0) 0 (le_bytes 2 cs_login_req) in
    record {
      payload =
          with_box (2 + wchar_size * max_account_len) max_password_len password
            (with_box 2 max_account_len account typed);
      payload_len = size;
    }

unfoldable pub sign_up_request : List ℕ → List ℕ → List ℕ → Request
sign_up_request account password nickname =
    let nickname_at = 2 + wchar_size * max_account_len + wchar_size * max_password_len in
    let size = nickname_at + wchar_size * max_nickname_len in
    let typed = copy_at (replicate size 0) 0 (le_bytes 2 cs_signup_req) in
    record {
      payload = with_box nickname_at max_nickname_len nickname (
          with_box (2 + wchar_size * max_account_len) max_password_len password
            (with_box 2 max_account_len account typed));
      payload_len = size;
    }

unfoldable pub room_enter_request : ℕ → Request
room_enter_request room_no = record {
  payload =
      copy_at (copy_at (replicate 4 0) 0 (le_bytes 2 cs_room_enter_req)) 2 (le_bytes 2 room_no);
  payload_len = 4;
}

unfoldable pub room_leave_request : Request
room_leave_request = record {
  payload = copy_at (replicate 2 0) 0 (le_bytes 2 cs_room_leave_req);
  payload_len = 2;
}

-- `chat` is the string less its end mark.
unfoldable pub chat_len : List ℕ → ℕ
chat_len chat =
    let len = (length chat % 2 ^ 16 + 1) % 2 ^ 16 in
    if ltb max_chat_len len then max_chat_len else len

unfoldable pub chat_request : List ℕ → Request
chat_request chat =
    let len = chat_len chat in
    let typed = copy_at (replicate (2 + 2 + max_chat_len) 0) 0 (le_bytes 2 cs_chat_req) in
    record {
      payload = copy_at (copy_at typed 2 (le_bytes 2 len)) 4 (take len (chat ++ (0 ∷ [])));
      payload_len = 2 + 2 + len;
    }

-- `buf[i] ^= 0x01`
unfoldable pub flip_at : ℕ → List ℕ → List ℕ
flip_at i [] = []
flip_at zero (b ∷ bs) = bit_xor b 1 ∷ bs
flip_at (suc i) (b ∷ bs) = b ∷ flip_at i bs

module _ {W : Type 0} (send : List ℕ → W → ℕ × W) where
  -- The loop of `SendAll`; `rest` is what is not sent yet.
  unfoldable pub send_loop : ℕ → List ℕ → Socket W → Option (Bool × Socket W)
  send_loop fuel [] s = some (true, s)
  send_loop zero (b ∷ bs) s = none
  send_loop (suc fuel) (b ∷ bs) s =
      let (n, w) = send (b ∷ bs) s.world in
      let s' : Socket W = record { world = w; taken = s.taken ++ take n (b ∷ bs) } in
      let result = send_loop fuel (drop n (b ∷ bs)) s' in
      if n == 0 then some (false, s') else result

  unfoldable pub send_all : List ℕ → Socket W → Option (Bool × Socket W)
  send_all buf s = send_loop (length buf) buf s

  -- `memory` is what the 1024 bytes of `buf` held.
  unfoldable pub send_packet :
      Crypto → List ℕ → List ℕ → Request → Socket W → Option (Bool × Socket W)
  send_packet c random memory r s =
      let (total, buf) = encode c random r.payload r.payload_len memory in
      if ltb 1024 (pkt_header_size + r.payload_len)
      then some (false, s)
      else send_all (take total buf) s

  -- `SendChatTampered`: the first byte of the ciphertext has its lowest bit turned over.
  unfoldable pub send_chat_tampered :
      Crypto → List ℕ → List ℕ → List ℕ → Socket W → Option (Bool × Socket W)
  send_chat_tampered c random memory chat s =
      let r = chat_request chat in
      let (total, buf) = encode c random r.payload r.payload_len memory in
      send_all (take total (flip_at pkt_header_size buf)) s
