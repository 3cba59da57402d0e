-- ===== src/PacketStore/Covering.antt =====
-- myIOCP/CPacket.cpp: a list of references that someone holds, next to the reference counts.
use iocp_chatserver.Prelude.{
  ℕ, ◌+◌, ◌≤◌, ◌<◌, ◌^◌, ◌≡◌, Bool-cases, inl, inr, List, [], ◌∷◌, ◌++◌, arith, length,
  if◌then◌else◌, ◌==◌, length-set,
}
use iocp_chatserver.Packet
use iocp_chatserver.PacketStore.{PacketStore, add_ref, release, update, at}
use iocp_chatserver.PacketStore.Counts.{refs, IsSound, add_ref_lem, release_lem}

-- How often a packet stands in a list.
abbrev pub count : ℕ → List ℕ → ℕ
count p [] = 0
count p (q ∷ qs) = (if q == p then 1 else 0) + count p qs

pub count-append : (p : ℕ) (xs ys : List ℕ) → count p (xs ++ ys) ≡ count p xs + count p ys
count-append p [] ys = omega arith
count-append p (x ∷ xs) ys = omega (arith, count-append p xs ys)

-- A sound store whose counts have not overflowed, and in which each packet has at least as many
-- references as it stands in a list.
pub record Covers (store : PacketStore) (ps : List ℕ) : Type 0 where
  pub sound : IsSound store
  pub small : (p : ℕ) → refs store p < 2 ^ 32
  pub known : (p : ℕ) → 0 < count p ps → p < length store.packets
  pub enough : (p : ℕ) → count p ps ≤ refs store p

pub Covers-same :
    {store : PacketStore} (ps qs : List ℕ)
    → ((p : ℕ) → count p qs ≡ count p ps)
    → Covers store ps
    → Covers store qs
Covers-same ps qs e v = record {
  sound = v.sound;
  small = v.small;
  known = λ p h. v.known p (omega (arith, e p));
  enough = λ p. omega (arith, e p, v.enough p);
}

length-release :
    (store : PacketStore) (p : ℕ) → length (release store p).packets ≡ length store.packets
unfolding release update at
length-release store p = ground (arith, length-set store.packets p (Packet.drop_ref (at store p)))

length-add_ref :
    (store : PacketStore) (p : ℕ) → length (add_ref store p).packets ≡ length store.packets
unfolding add_ref update
length-add_ref store p = length-set store.packets p (Packet.add_ref (at store p))

-- `Release` gives one of the references back.
pub release-Covers :
    {store : PacketStore} (p : ℕ) (ps : List ℕ)
    → Covers store (p ∷ ps)
    → Covers (release store p) ps
      × ((q : ℕ) → refs (release store p) q + count q (p ∷ []) ≡ refs store q)
release-Covers {store} p ps v =
    let mine : 1 ≤ count p (p ∷ ps) = ground arith in
    let (one, others, pooled, sound) =
      release_lem p v.sound (v.known p mine) (omega (arith, mine, v.enough p)) (v.small p) in
    let step : (q : ℕ) → refs (release store p) q + count q (p ∷ []) ≡ refs store q = λ q.
      elim (Bool-cases (p == q)) [
        | inl same ↦ ground (arith, same, one, mine, v.enough p)
        | inr other ↦ ground (arith, other, others q)
      ] in
    (
      record {
        sound = sound;
        small = λ q. omega (arith, step q, v.small q);
        known = λ q h. omega (arith, length-release store p, v.known q (omega (arith, h)));
        enough = λ q. omega (arith, step q, v.enough q);
      },
      step,
    )

-- `AddRef` by a holder gives one more.
pub add_ref-Covers :
    {store : PacketStore} (p : ℕ) (ps : List ℕ)
    → Covers store ps
    → p < length store.packets
    → 0 < refs store p
    → refs store p + 1 < 2 ^ 32
    → Covers (add_ref store p) (p ∷ ps)
      × ((q : ℕ) → refs (add_ref store p) q ≡ refs store q + count q (p ∷ []))
add_ref-Covers {store} p ps v here pos room =
    let (one, others, sound) = add_ref_lem p v.sound here pos room in
    let step : (q : ℕ) → refs (add_ref store p) q ≡ refs store q + count q (p ∷ []) = λ q.
      elim (Bool-cases (p == q)) [
        | inl same ↦ ground (arith, same, one)
        | inr other ↦ ground (arith, other, others q)
      ] in
    (
      record {
        sound = sound;
        small = λ q. elim (Bool-cases (p == q)) [
          | inl same ↦ ground (arith, same, one)
          | inr other ↦ ground (arith, other, others q, v.small q)
        ];
        known = λ q h. elim (Bool-cases (p == q)) [
          | inl same ↦ ground (arith, same, length-add_ref store p)
          | inr other ↦ ground (arith, other, length-add_ref store p, v.known q)
        ];
        enough = λ q. omega (arith, step q, v.enough q);
      },
      step,
    )
