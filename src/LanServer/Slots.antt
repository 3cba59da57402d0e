-- ===== src/LanServer/Slots.antt =====
-- myIOCP/CLanServer.cpp: `sessions` and `indexPool`: which slots the pool has, and which are in
-- use.
use iocp_chatserver.Prelude.{
  ℕ, zero, suc, ◌<◌, ◌≡◌, ◌≢◌, inl, inr, refl, sym, subst, ◌∙◌, Bool-cases, Bool, true, false, List,
  ◌∷◌, arith, if◌then◌else◌, ◌==◌, ltb, length, get_or, set, elem, replicate, IsDistinct,
  length-set, get_or-set, length-replicate,
}
use iocp_chatserver.LanServer.State.{Slot, Conn, fresh_session}
use iocp_chatserver.LanServer.Server.{Server, fresh_slot, all_indices, slot_at, conn_at, with_conn}
use iocp_chatserver.LanServer.Lifetime.{Counted}
use iocp_chatserver.LanServer.Settle.{InUse, IsFree, Settles, Counted-IsFree}

-- Whether the pool has a slot's index decides what the slot must be.
abbrev pub IsSettled : Bool → Slot → Type 0
IsSettled true s = IsFree s
IsSettled false s = InUse s

pub record IsSound (max_session : ℕ) (slots : List Slot) (pool : List ℕ) : Type 0 where
  pub all_slots : length slots ≡ max_session
  pub distinct : IsDistinct pool
  pub in_range : (i : ℕ) → elem i pool ≡ true → i < max_session
  pub settled : (i : ℕ) → i < max_session → IsSettled (elem i pool) (get_or slots i fresh_slot)

pub used :
    (pool : List ℕ) (i : ℕ) (s : Slot) → IsSettled (elem i pool) s → elem i pool ≡ false → InUse s
used pool i s v e = subst (λ b. IsSettled b s) e v

pub free :
    (pool : List ℕ) (i : ℕ) (s : Slot) → IsSettled (elem i pool) s → elem i pool ≡ true → IsFree s
free pool i s v e = subst (λ b. IsSettled b s) e v

IsSettled-free : (b : Bool) (s : Slot) → b ≡ true → IsFree s → IsSettled b s
IsSettled-free true s e v = v
IsSettled-free false s e v = ground arith

IsSettled-used : (b : Bool) (s : Slot) → b ≡ false → InUse s → IsSettled b s
IsSettled-used false s e v = v
IsSettled-used true s e v = ground arith

-- One slot is worked on while its index is out of the pool `rest`, and goes back exactly when the
-- slot falls free.
pub change_slot :
    (max_session : ℕ) (slots : List Slot) (rest pool : List ℕ) (idx : ℕ) (s : Slot)
    → length slots ≡ max_session
    → idx < max_session
    → IsDistinct rest
    → elem idx rest ≡ false
    → ((i : ℕ) → elem i rest ≡ true → i < max_session)
    → ((i : ℕ) → i < max_session → i ≢ idx → IsSettled (elem i rest) (get_or slots i fresh_slot))
    → Counted 0 s
    → pool ≡ (if s.session.io_ref_count == 0 then idx ∷ rest else rest)
    → IsSound max_session (set slots idx s) pool
change_slot max_session slots rest pool idx s len h d out range others v e = record {
  all_slots = length-set slots idx s ∙ len;
  distinct = ground (arith, d, out);
  in_range = λ i m. ground (arith, range i, h);
  settled = λ i lt. elim (Bool-cases (idx == i)) [
    | inl same ↦ subst (IsSettled (elem i pool)) (sym (at i ∙ rw same)) (own i (ground arith))
    | inr other ↦
        subst (λ b. IsSettled b (get_or (set slots idx s) i fresh_slot)) (rest_of i (ground arith))
          (subst (IsSettled (elem i rest)) (sym (at i ∙ rw other)) (others i lt (ground arith)))
  ];
}
  where
    at :
        (i : ℕ)
        → get_or (set slots idx s) i fresh_slot
          ≡ (if idx == i then s else get_or slots i fresh_slot)
    at i = get_or-set slots idx i s fresh_slot (omega (arith, len))

    own : (i : ℕ) → i ≡ idx → IsSettled (elem i pool) s
    own i q = elim (Bool-cases (s.session.io_ref_count == 0)) [
      | inl gone ↦ IsSettled-free _ s (ground (arith, e)) (Counted-IsFree s v (ground arith))
      | inr kept ↦
          IsSettled-used _ s (ground (arith, e, out))
            (record { counted = v; referred = ground arith })
    ]

    rest_of : (i : ℕ) → i ≢ idx → elem i rest ≡ elem i pool
    rest_of i ne = ground (arith, e)

elem-all_indices : (n i : ℕ) → elem i (all_indices n) ≡ ltb i n
unfolding all_indices
elem-all_indices zero i = ground arith
elem-all_indices (suc n) i = ground (arith, elem-all_indices n i)

all_indices-IsDistinct : (n : ℕ) → IsDistinct (all_indices n)
unfolding all_indices
all_indices-IsDistinct zero = tt
all_indices-IsDistinct (suc n) = ground (arith, all_indices-IsDistinct n, elem-all_indices n n)

pub get_or-replicate : (n i : ℕ) (s : Slot) → get_or (replicate n s) i s ≡ s
get_or-replicate zero i s = refl
get_or-replicate (suc n) zero s = refl
get_or-replicate (suc n) (suc i) s = get_or-replicate n i s

fresh_slot-IsFree : IsFree fresh_slot
unfolding fresh_session
fresh_slot-IsFree = record { unreferred = refl; no_recv = refl; no_send = refl; shut = λ e. refl }

pub start-IsSound : (n : ℕ) → IsSound n (replicate n fresh_slot) (all_indices n)
start-IsSound n = record {
  all_slots = length-replicate {A = Slot} n fresh_slot;
  distinct = all_indices-IsDistinct n;
  in_range = λ i e. ground (arith, elem-all_indices n i);
  settled = λ i h.
      subst (IsSettled (elem i (all_indices n))) (sym (get_or-replicate n i fresh_slot))
        (IsSettled-free _ fresh_slot (ground (arith, elem-all_indices n i)) fresh_slot-IsFree);
}

module _ {App : Type 0} where
  abbrev pub Sound : Server App → Type 0
  Sound srv = IsSound srv.max_session srv.slots srv.shared.index_pool

  -- A slot in use that is worked on.
  pub step_slot :
      (srv : Server App) (idx : ℕ) (c : Conn App)
      → Sound srv
      → idx < srv.max_session
      → elem idx srv.shared.index_pool ≡ false
      → Settles idx (conn_at srv idx) c
      → Sound (with_conn srv idx c)
  step_slot srv idx c v h out k =
      change_slot srv.max_session srv.slots srv.shared.index_pool c.shared.index_pool idx c.slot
        v.all_slots h v.distinct out v.in_range (λ i lt ne. v.settled i lt) k.counted k.pool

  pub same_slot :
      (srv : Server App) (idx : ℕ)
      → Sound srv
      → idx < srv.max_session
      → Sound (with_conn srv idx (conn_at srv idx))
  same_slot srv idx v h = record {
    all_slots = length-set srv.slots idx (slot_at srv idx) ∙ v.all_slots;
    distinct = v.distinct;
    in_range = v.in_range;
    settled = λ i lt.
        subst (IsSettled (elem i srv.shared.index_pool))
          (ground (arith, v.all_slots, get_or-set srv.slots idx i (slot_at srv idx) fresh_slot))
          (v.settled i lt);
  }

  -- An open slot that was ever used is not in the pool.
  pub opened_used :
      (srv : Server App) (idx : ℕ)
      → Sound srv
      → idx < srv.max_session
      → (slot_at srv idx).session.generation ≢ 0
      → (slot_at srv idx).session.close_flag ≡ 0
      → elem idx srv.shared.index_pool ≡ false
  opened_used srv idx v h g e = elim (Bool-cases (elem idx srv.shared.index_pool)) [
    | inr out ↦ out
    | inl pooled ↦
        let f = free srv.shared.index_pool idx (slot_at srv idx) (v.settled idx h) pooled in
        ground (arith, f.shut e)
  ]
