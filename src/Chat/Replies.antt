-- ===== src/Chat/Replies.antt =====
-- myIOCP/CChatServer.cpp: the fields that a handler writes into a packet, and the frame of that
-- packet.
use iocp_chatserver.Prelude.{
  ℕ, ◌+◌, ◌≤◌, ◌≡◌, refl, sym, ap, ◌∙◌, List, [], ◌∷◌, ◌++◌, some, arith, length, take, le_bytes,
  append-nil, append_assoc, length-append, length-le_bytes, length-take, le→leb,
}
use iocp_chatserver.Codec.{Crypto, IsCrypto, decode, packet_buffer_size, pkt_header_size}
use iocp_chatserver.Packet
use iocp_chatserver.Packet.{Packet}
use iocp_chatserver.Packet.Bounds
use iocp_chatserver.Packet.Payload.{
  written, length-written, write_packet_lem, put_lem, decode-wire-set_header,
}
use iocp_chatserver.Chat.State.{Field, value, bytes, write_field, write_fields}

-- The bytes of a field.
abbrev pub field_bytes : Field → List ℕ
field_bytes (value size v) = le_bytes size v
field_bytes (bytes src len) = take len src

abbrev pub all_bytes : List Field → List ℕ
all_bytes [] = []
all_bytes (f ∷ fs) = field_bytes f ++ all_bytes fs

-- A raw field does not ask for more bytes than its source has.
abbrev pub IsWritable : Field → Type 0
IsWritable (value size v) = Unit
IsWritable (bytes src len) = len ≤ length src

abbrev pub AllWritable : List Field → Type 0
AllWritable [] = Unit
AllWritable (f ∷ fs) = IsWritable f × AllWritable fs

write_field_lem :
    (p : Packet) (f : Field)
    → Bounds.IsValid p
    → IsWritable f
    → p.write_pos + length (field_bytes f) ≤ packet_buffer_size
    → (written (write_field p f) ≡ written p ++ field_bytes f) × Bounds.IsValid (write_field p f)
unfolding write_field
write_field_lem p (value size v) valid w h = (
  put_lem size v valid
      ∙ rw (le→leb (p.write_pos + size) packet_buffer_size (omega (arith, length-le_bytes size v)))
          refl,
  Bounds.put-IsValid size v valid,
)
write_field_lem p (bytes src len) valid w h = (
  write_packet_lem src len valid w
      ∙ rw (le→leb (p.write_pos + len) packet_buffer_size (omega (arith, length-take len src, w)))
          refl,
  Bounds.write_packet-IsValid src len valid w,
)

pub write_fields_lem :
    (fs : List Field) (p : Packet)
    → Bounds.IsValid p
    → AllWritable fs
    → p.write_pos + length (all_bytes fs) ≤ packet_buffer_size
    → (written (write_fields p fs) ≡ written p ++ all_bytes fs) × Bounds.IsValid (write_fields p fs)
unfolding write_fields
write_fields_lem [] p valid w h = (sym (append-nil (written p)), valid)
write_fields_lem (f ∷ fs) p valid w h =
    let size = length-append (field_bytes f) (all_bytes fs) in
    let (first, valid') = write_field_lem p f valid w.0 (omega (arith, size)) in
    let at : (write_field p f).write_pos ≡ p.write_pos + length (field_bytes f) = omega (
      arith,
      length-written valid,
      length-written valid',
      ap length first,
      length-append (written p) (field_bytes f),
    ) in
    let (rest, valid'') =
      write_fields_lem fs (write_field p f) valid' w.1 (omega (arith, size, at)) in
    (
      rest
          ∙ (ap (λ l. l ++ all_bytes fs) first
              ∙ append_assoc (written p) (field_bytes f) (all_bytes fs)),
      valid'',
    )

-- With 12 random bytes and the laws of `IsCrypto`, the fields that a handler writes into a valid
-- packet that is empty, and that fit, are what `Decode` gives the client of the frame that
-- `SetHeader` makes: their bytes in the order written, and nothing else.
pub decode-write_fields :
    {c : Crypto} (laws : IsCrypto c) (random : List ℕ) (fs : List Field) (p : Packet)
    → Bounds.IsValid p
    → length random ≡ 12
    → written p ≡ []
    → AllWritable fs
    → pkt_header_size + length (all_bytes fs) ≤ packet_buffer_size
    → decode c (Packet.wire (Packet.set_header c random (write_fields p fs)))
      ≡ some (length (all_bytes fs), all_bytes fs)
decode-write_fields {c} laws random fs p valid h e w fits =
    let (same, valid') =
      write_fields_lem fs p valid w (omega (arith, length-written valid, ap length e)) in
    let payload : written (write_fields p fs) ≡ all_bytes fs =
      same ∙ ap (λ l. l ++ all_bytes fs) e in
    (decode-wire-set_header laws random valid' h).1 ∙ ap (λ l. some (length l, l)) payload
