-- ===== src/Client/Returning.antt =====
-- DummyClient/DummyClient.cpp: the receiving loops on whatever bytes arrive.
use iocp_chatserver.Prelude.{
  ℕ, zero, suc, ◌+◌, ◌<◌, ◌≡◌, ◌⊎◌, ◌≢◌, refl, ap, ◌∙◌, Bool, true, false, List, [], ◌∷◌, ◌++◌,
  Option, none, some, arith, length, take, drop, of_le, inl, inr, Bool-cases, ltb, length-drop,
  append_assoc, take-append-drop,
}
use iocp_chatserver.Codec.{Crypto}
use iocp_chatserver.Client.{decode, pkt_header_size}
use iocp_chatserver.Client.Receive.{packet_loop, receive}

-- Fewer bytes than the packet that they begin.
abbrev pub IsCut : List ℕ → Type 0
IsCut held = (length held < pkt_header_size) ⊎ (length held < pkt_header_size + of_le (take 2 held))

-- The loop returns. What it leaves are the last of the bytes: the start of a packet, if it goes on,
-- and otherwise a packet whose MAC is wrong.
pub record Returns {A : Type 0} (crypto : Crypto) (held : List ℕ)
    (result : Option (Bool × List ℕ × A)) : Type 0 where
  pub ok : Bool
  pub left : List ℕ
  pub handled : List ℕ
  pub state : A
  pub returned : result ≡ some (ok, left, state)
  pub parts : handled ++ left ≡ held
  pub cut : ok ≡ true → IsCut left
  pub wrong : ok ≡ false → decode crypto left ≡ none

module _ (crypto : Crypto) {A : Type 0} (handle : List ℕ → A → A) where
  waits : (held : List ℕ) (a : A) → IsCut held → Returns crypto held (some (true, held, a))
  waits held a c = record {
    ok = true;
    left = held;
    handled = [];
    state = a;
    returned = refl;
    parts = refl;
    cut = λ good. c;
    wrong = λ bad. ground arith;
  }

  packet_loop-Returns :
      (fuel : ℕ) (held : List ℕ) (a : A)
      → length held < fuel
      → Returns crypto held (packet_loop crypto handle fuel held a)
  unfolding packet_loop
  packet_loop-Returns zero held a h = absurd (omega arith)
  packet_loop-Returns (suc fuel) held a h = elim (Bool-cases (ltb (length held) pkt_header_size)) [
    | inl few ↦ rw (few, packet_loop) (waits held a (inl (ground arith)))
    | inr head ↦ elim (Bool-cases (ltb (length held) size)) [
      | inl short ↦ rw (head, packet_loop, short) (waits held a (inr (ground arith)))
      | inr whole ↦ after_decode (packet_loop-Returns fuel) head whole (decode crypto held) refl
    ]
  ]
    where
      size : ℕ
      size = pkt_header_size + of_le (take 2 held)

      after_decode :
          ((rest : List ℕ) (b : A)
            → length rest < fuel
            → Returns crypto rest (packet_loop crypto handle fuel rest b))
          → ltb (length held) pkt_header_size ≡ false
          → ltb (length held) size ≡ false
          → (d : Option (ℕ × List ℕ)) → decode crypto held ≡ d
          → Returns crypto held (packet_loop crypto handle (suc fuel) held a)
      after_decode again head whole none e =
          rw (head, packet_loop, whole, e)
            (record {
              ok = false;
              left = held;
              handled = [];
              state = a;
              returned = refl;
              parts = refl;
              cut = λ good. ground arith;
              wrong = λ bad. e;
            })
      after_decode again head whole (some (len, plain)) e =
          let rest =
            again (drop size held) (handle plain a) (ground (arith, length-drop size held)) in
          rw (head, packet_loop, whole, e)
            (record {
              ok = rest.ok;
              left = rest.left;
              handled = take size held ++ rest.handled;
              state = rest.state;
              returned = rest.returned;
              parts =
                  append_assoc (take size held) rest.handled rest.left
                  ∙ (ap (◌++◌ (take size held)) rest.parts ∙ take-append-drop size held);
              cut = rest.cut;
              wrong = rest.wrong;
            })

  -- The receiving loops of both clients, whatever they do with a packet and whatever bytes arrive,
  -- return. They use up bytes from the front; they go on only when what is left is less than the
  -- packet that it begins, and stop on bytes only when the packet that it begins has a wrong MAC.
  pub receive-Returns :
      (bytes held : List ℕ) (a : A)
      → bytes ≢ []
      → Returns crypto (held ++ bytes) (receive crypto handle bytes held a)
  unfolding receive
  receive-Returns [] held a some_bytes = absurd (some_bytes refl)
  receive-Returns (b ∷ bs) held a some_bytes =
      packet_loop-Returns (length (held ++ (b ∷ bs)) + 1) (held ++ (b ∷ bs)) a (omega arith)
