-- ===== src/Tests/Wire.antt =====
-- The ring, the packets and the codec on concrete bytes. The cipher of the tests leaves its input
-- as it is, and its tag is all zeros.
use iocp_chatserver.Prelude.{
  ◌<◌, ◌^◌, ℕ, ◌+◌, ◌≤◌, ◌≡◌, ◌↔◌, ◌^◌, refl, List, [], ◌∷◌, ◌++◌, some, arith, length, replicate,
}
use iocp_chatserver.RingBuffer
use iocp_chatserver.SessionId
use iocp_chatserver.SessionId.Laws.{make_fields}
use iocp_chatserver.RingBuffer.{RingBuffer}
use iocp_chatserver.RingBuffer.Bounds as RingBounds
use iocp_chatserver.RingBuffer.Bounds.{sizes_bounds}
use iocp_chatserver.RingBuffer.Refine.{contents, contents-receive, read_lem}
use iocp_chatserver.Codec.{Crypto, IsCrypto, encode, decode}
use iocp_chatserver.Codec.Frame.{frame}
use iocp_chatserver.Codec.RoundTrip.{decode-encode}
use iocp_chatserver.Packet
use iocp_chatserver.Packet.{Packet}
use iocp_chatserver.Packet.Bounds
use iocp_chatserver.Packet.Payload.{written, decode-wire-set_header}
use iocp_chatserver.PacketStore.{PacketStore}
use iocp_chatserver.PacketStore.Counts.{IsSound}

abbrev pub toy : Crypto
toy = record { encrypt = λ key iv m. m; decrypt = λ key iv m. m; hmac = λ key m. replicate 32 0 }

pub toy-IsCrypto : IsCrypto toy
toy-IsCrypto = record {
  decrypt-encrypt = λ key iv m. refl;
  length-encrypt = λ key iv m. refl;
  length-hmac = λ key m. refl;
}

-- 8 and 9, the second one round the end.
abbrev wrapped : RingBuffer
wrapped = record { max_size = 4; rear = 1; front = 3; buffer = 9 ∷ 0 ∷ 0 ∷ 8 ∷ [] }

wrapped-IsValid : RingBounds.IsValid wrapped
wrapped-IsValid = record { storage = refl; rear_in = omega arith; front_in = omega arith }

-- 5, with one place to the end of the array.
abbrev near_end : RingBuffer
near_end = record { max_size = 4; rear = 3; front = 2; buffer = 0 ∷ 0 ∷ 5 ∷ 0 ∷ [] }

near_end-IsValid : RingBounds.IsValid near_end
near_end-IsValid = record { storage = refl; rear_in = omega arith; front_in = omega arith }

contents-receive_example : contents (RingBuffer.receive near_end (6 ∷ [])) ≡ 5 ∷ 6 ∷ []
unfolding RingBuffer.direct_enqueue_size
contents-receive_example = contents-receive (6 ∷ []) near_end-IsValid (omega arith)

read_lem_example :
    ((RingBuffer.read wrapped 2).0 ≡ (2, 8 ∷ 9 ∷ []))
    × (contents (RingBuffer.read wrapped 2).1 ≡ [])
read_lem_example = read_lem 2 wrapped-IsValid

sizes_bounds_example :
    (RingBuffer.use_size wrapped + RingBuffer.free_size wrapped + 1 ≡ 4)
    × (RingBuffer.direct_enqueue_size wrapped ≤ RingBuffer.free_size wrapped)
    × (1 + RingBuffer.direct_enqueue_size wrapped ≤ 4)
    × (RingBuffer.direct_dequeue_size wrapped ≤ RingBuffer.use_size wrapped)
    × (3 + RingBuffer.direct_dequeue_size wrapped ≤ 4)
    × ((RingBuffer.direct_enqueue_size wrapped ≡ 0) ↔ (RingBuffer.free_size wrapped ≡ 0))
    × ((RingBuffer.direct_dequeue_size wrapped ≡ 0) ↔ (RingBuffer.use_size wrapped ≡ 0))
sizes_bounds_example = sizes_bounds wrapped-IsValid

abbrev nonce : List ℕ
nonce = 1 ∷ 2 ∷ 3 ∷ 4 ∷ 5 ∷ 6 ∷ 7 ∷ 8 ∷ 9 ∷ 10 ∷ 11 ∷ 12 ∷ []

abbrev text : List ℕ
text = 104 ∷ 105 ∷ 33 ∷ []

decode-encode_example : decode toy (encode toy nonce text 3 (replicate 40 0)).1 ≡ some (3, text)
decode-encode_example =
    decode-encode toy-IsCrypto nonce text refl (replicate 40 0) (omega arith) (omega arith)

-- A chat request of two bytes.
abbrev request : Packet
request = Packet.write_packet (Packet.put Packet.init 2 2) (7 ∷ 8 ∷ []) 2

request-IsValid : Bounds.IsValid request
request-IsValid =
    Bounds.write_packet-IsValid (7 ∷ 8 ∷ []) 2 (Bounds.put-IsValid 2 2 Bounds.init-IsValid)
      (omega arith)

decode-wire-set_header_example :
    (Packet.wire (Packet.set_header toy nonce request) ≡ frame toy nonce (written request))
    × (decode toy (Packet.wire (Packet.set_header toy nonce request))
        ≡ some (length (written request), written request))
decode-wire-set_header_example = decode-wire-set_header toy-IsCrypto nonce request-IsValid refl

-- Four bytes of payload, in a buffer of which only the positions matter here.
abbrev memory : List ℕ
memory = replicate 30 0 ++ (2 ∷ 0 ∷ 7 ∷ 8 ∷ replicate 4062 0)

abbrev full_request : Packet
full_request = record { buffer = memory; read_pos = 30; write_pos = 34; ref_count = 1 }

full_request-IsValid : Bounds.IsValid full_request
full_request-IsValid = record {
  storage = refl;
  read_in = omega arith;
  in_order = omega arith;
  write_in = omega arith;
}

-- Two packets, the second one free.
abbrev store : PacketStore
store = record { packets = full_request ∷ Packet.init ∷ []; pool = 1 ∷ [] }

store-IsSound : IsSound store
unfolding Packet.init
store-IsSound = record { distinct = (refl, tt); free = λ i e. ground arith }

make_fields_example :
    (SessionId.index_of (SessionId.make 3 17) ≡ 3)
    × (SessionId.generation_of (SessionId.make 3 17) ≡ 17)
    × (SessionId.make 3 17 < 2 ^ 64)
make_fields_example = make_fields 3 17 (omega arith) (omega arith)
