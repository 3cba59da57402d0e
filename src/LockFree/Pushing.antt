-- ===== src/LockFree/Pushing.antt =====
-- myIOCP/CLockFreeStack.h: the steps of `Push`.
use iocp_chatserver.Prelude.{
  ℕ, ◌+◌, ◌^◌, ◌<◌, ◌≡◌, refl, sym, ap, ◌∙◌, subst, true, false, List, ◌∷◌, some, arith,
}
use iocp_chatserver.LockFree.{
  Node, Pc, idle, push_begun, push_read, System, get_ptr, get_stamp, combine, update, move, write,
  swing,
}
use iocp_chatserver.LockFree.Invariant.{
  IsOwned, Knows, Linked, owned, Inv, Linked-write, dead_outside,
}
use iocp_chatserver.LockFree.Others.{
  Knows-write, Knows-swing, Inv-move, owned_lem, ptr_combine, stamp_combine,
}

module _ {s : System} {chain values : List ℕ} (i : ℕ) (v : Inv s chain values) where
  -- A move that changes nothing but where the thread stands.
  pub Inv-stay :
      (p : Pc)
      → Knows s.heap s.top s.changes chain p
      → ((a : ℕ) → owned p ≡ some a → owned (s.pc i) ≡ some a)
      → Inv (move s i p) chain values
  Inv-stay p k own =
      Inv-move {t = s} i p v refl v.linked v.distinct v.stamped k (λ j ne. v.known j)
        (λ j a ne e f. ne (v.apart j i a f (own a e)))

  pub begin_push-Inv :
      (node value junk : ℕ)
      → (s.heap node).live ≡ false
      → 0 < node
      → node < 2 ^ 47
      → Inv
          (move
            (write s node (record { live = true; value = value; next = junk }))
            i
            (push_begun node value))
          chain
          values
  begin_push-Inv node value junk dead pos small =
      let n : Node = record { live = true; value = value; next = junk } in
      let out = dead_outside s.heap (get_ptr s.top) chain values node v.linked dead in
      let mine : IsOwned (update s.heap node n) chain node value = record {
        alive = ground arith;
        holds = ground arith;
        outside = out;
        nonnull = pos;
        small = small;
      } in
      Inv-move {t = write s node n} i (push_begun node value) v refl
        (Linked-write s.heap (get_ptr s.top) chain values node n out v.linked) v.distinct v.stamped
        mine
        (λ j ne.
          Knows-write s.heap s.top s.changes chain values node n (s.pc j) v.linked out
            (λ e.
              ground (arith, owned_lem s.heap s.top s.changes chain (s.pc j) node (v.known j) e))
            (v.known j))
        (λ j a ne e f.
          ground (arith, owned_lem s.heap s.top s.changes chain (s.pc j) a (v.known j) f))

  pub read_top_push-Inv :
      (node value : ℕ)
      → s.pc i ≡ push_begun node value
      → Inv
          (move
            (write s node (record (s.heap node) { next = get_ptr s.top }))
            i
            (push_read node value s.top s.changes))
          chain
          values
  read_top_push-Inv node value e =
      let n : Node = record (s.heap node) { next = get_ptr s.top } in
      let k : IsOwned s.heap chain node value =
        subst (Knows s.heap s.top s.changes chain) e (v.known i) in
      let mine : IsOwned (update s.heap node n) chain node value = record {
        alive = ground arith;
        holds = ground arith;
        outside = k.outside;
        nonnull = k.nonnull;
        small = k.small;
      } in
      Inv-move {t = write s node n} i (push_read node value s.top s.changes) v refl
        (Linked-write s.heap (get_ptr s.top) chain values node n k.outside v.linked) v.distinct
        v.stamped
        (
          mine,
          record { earlier = omega arith; stamp = v.stamped; current = λ q. refl },
          ground arith,
        )
        (λ j ne.
          Knows-write s.heap s.top s.changes chain values node n (s.pc j) v.linked k.outside
            (λ f. ne (v.apart j i node f (ground (arith, e)))) (v.known j))
        (λ j a ne f g. ne (v.apart j i a g (ground (arith, e))))

  pub push_wins-Inv :
      (node value old seen : ℕ)
      → s.pc i ≡ push_read node value old seen
      → s.top ≡ old
      → Inv
          (move (swing s (combine (get_stamp old + 1) node)) i idle)
          (node ∷ chain)
          (value ∷ values)
  push_wins-Inv node value old seen e same =
      let (own, saw, points) = subst (Knows s.heap s.top s.changes chain) e (v.known i) in
      let top' = combine (get_stamp old + 1) node in
      let at = ptr_combine (get_stamp old + 1) node own.small in
      Inv-move {t = swing s top'} i idle v refl
        (
          at,
          own.nonnull,
          own.small,
          own.alive,
          own.holds,
          subst (λ q. Linked s.heap q chain values) (ap get_ptr same ∙ sym points) v.linked,
        )
        (own.outside, v.distinct)
        (stamp_combine (get_stamp old + 1) node own.small
          ∙ omega (arith, v.stamped, ap get_stamp same))
        tt
        (λ j ne.
          Knows-swing s.heap s.top s.changes top' chain (node ∷ chain) (s.pc j)
            (λ b f out. ground (arith, v.apart j i b f)) (v.known j))
        (λ j a ne f. cc)
