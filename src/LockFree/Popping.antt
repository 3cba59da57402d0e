-- ===== src/LockFree/Popping.antt =====
-- myIOCP/CLockFreeStack.h: the steps of `Pop`.
use iocp_chatserver.Prelude.{
  ℕ, ◌+◌, ◌^◌, ◌<◌, ◌≡◌, ◌≢◌, refl, sym, ap, ◌∙◌, subst, true, false, List, [], ◌∷◌, arith, elem,
  IsDistinct,
}
use iocp_chatserver.LockFree.{
  Node, idle, pop_read, pop_ready, won, System, get_ptr, get_stamp, combine, move, write, swing,
}
use iocp_chatserver.LockFree.Invariant.{IsOwned, Knows, Linked, Inv, Linked-write}
use iocp_chatserver.LockFree.Others.{
  owned_lem, Knows-write, Knows-swing, Inv-move, ptr_combine, stamp_combine,
}
use iocp_chatserver.LockFree.Pushing.{Inv-stay}

head_live :
    (heap : ℕ → Node) (ptr : ℕ) (chain values : List ℕ)
    → Linked heap ptr chain values
    → ptr ≢ 0
    → (heap ptr).live ≡ true
head_live heap ptr [] [] l ne = absurd (ne l)
head_live heap ptr (b ∷ bs) (v ∷ vs) l ne = ground (arith, l)
head_live heap ptr [] (v ∷ vs) l ne = absurd l
head_live heap ptr (b ∷ bs) [] l ne = absurd l

empty_list :
    (heap : ℕ → Node) (ptr : ℕ) (chain values : List ℕ)
    → Linked heap ptr chain values
    → ptr ≡ 0
    → values ≡ []
empty_list heap ptr [] [] l e = refl
empty_list heap ptr (b ∷ bs) (v ∷ vs) l e = ground (arith, l)
empty_list heap ptr [] (v ∷ vs) l e = absurd l
empty_list heap ptr (b ∷ bs) [] l e = absurd l

-- The first node of a list, and the rest of the list.
pub record Head (heap : ℕ → Node) (ptr : ℕ) (chain values : List ℕ) : Type 0 where
  pub rest : List ℕ
  pub tail : List ℕ
  pub chain_at : chain ≡ ptr ∷ rest
  pub values_at : values ≡ (heap ptr).value ∷ tail
  pub linked : Linked heap (heap ptr).next rest tail
  pub alive : (heap ptr).live ≡ true
  pub nonnull : 0 < ptr
  pub small : ptr < 2 ^ 47

head_lem :
    (heap : ℕ → Node) (ptr : ℕ) (chain values : List ℕ)
    → Linked heap ptr chain values
    → ptr ≢ 0
    → Head heap ptr chain values
head_lem heap ptr [] [] l ne = absurd (ne l)
head_lem heap ptr (b ∷ bs) (v ∷ vs) l ne = record {
  rest = bs;
  tail = vs;
  chain_at = ground (arith, l);
  values_at = ground (arith, l);
  linked = subst (λ p. Linked heap (heap p).next bs vs) (sym l.0) l.5;
  alive = ground (arith, l);
  nonnull = ground (arith, l);
  small = ground (arith, l);
}
head_lem heap ptr [] (v ∷ vs) l ne = absurd l
head_lem heap ptr (b ∷ bs) [] l ne = absurd l

next_small :
    (heap : ℕ → Node) (ptr : ℕ) (chain values : List ℕ)
    → Linked heap ptr chain values
    → ptr < 2 ^ 47
next_small heap ptr [] [] l = omega (arith, l)
next_small heap ptr (b ∷ bs) (v ∷ vs) l = omega (arith, l)
next_small heap ptr [] (v ∷ vs) l = absurd l
next_small heap ptr (b ∷ bs) [] l = absurd l

module _ {s : System} {chain values : List ℕ} (i : ℕ) (v : Inv s chain values) where
  pub read_top_pop-Inv : get_ptr s.top ≢ 0 → Inv (move s i (pop_read s.top s.changes)) chain values
  read_top_pop-Inv ne =
      Inv-stay i v (pop_read s.top s.changes)
        (record { earlier = omega arith; stamp = v.stamped; current = λ q. refl }, ne) (λ a e. cc)

  pub pop_empty-Inv : get_ptr s.top ≡ 0 → (values ≡ []) × Inv (move s i idle) chain values
  pop_empty-Inv e =
      (empty_list s.heap (get_ptr s.top) chain values v.linked e, Inv-stay i v idle tt (λ a e. cc))

  pub read_next-Inv :
      (old seen next : ℕ)
      → s.pc i ≡ pop_read old seen
      → ((s.heap (get_ptr old)).live ≡ true → next ≡ (s.heap (get_ptr old)).next)
      → Inv (move s i (pop_ready old next seen)) chain values
  read_next-Inv old seen next e read =
      let (saw, ne) = subst (Knows s.heap s.top s.changes chain) e (v.known i) in
      Inv-stay i v (pop_ready old next seen)
        (
          saw,
          ne,
          λ q.
              let same = ap get_ptr (saw.current q) in
              read (
                rw same
                  (head_live s.heap (get_ptr s.top) chain values v.linked (λ z. ne (same ∙ z)))),
        )
        (λ a e. cc)

  pub pop_wins-Inv :
      (old next seen : ℕ)
      → s.pc i ≡ pop_ready old next seen
      → s.top ≡ old
      → s.changes < seen + 2 ^ 17
      → let value = (s.heap (get_ptr old)).value in
        (chain' : List ℕ) × (values' : List ℕ) × (values ≡ value ∷ values')
        × Inv
            (move (swing s (combine (get_stamp old + 1) next)) i (won (get_ptr old) value))
            chain'
            values'
  pop_wins-Inv old next seen e same fresh =
      let (saw, ne, reads) = subst (Knows s.heap s.top s.changes chain) e (v.known i) in
      let now : seen ≡ s.changes =
        omega (arith, saw.earlier, saw.stamp, v.stamped, ap get_stamp same) in
      let l = subst (λ q. Linked s.heap q chain values) (ap get_ptr same) v.linked in
      let h = head_lem s.heap (get_ptr old) chain values l ne in
      let l' : Linked s.heap next h.rest h.tail =
        subst (λ q. Linked s.heap q h.rest h.tail) (sym (reads now)) h.linked in
      let small = next_small s.heap next h.rest h.tail l' in
      let top' = combine (get_stamp old + 1) next in
      let d : IsDistinct (get_ptr old ∷ h.rest) = subst IsDistinct h.chain_at v.distinct in
      let mine : IsOwned s.heap h.rest (get_ptr old) (s.heap (get_ptr old)).value = record {
        alive = h.alive;
        holds = refl;
        outside = d.0;
        nonnull = h.nonnull;
        small = h.small;
      } in
      let others : (b : ℕ) → elem b chain ≡ false → (elem b h.rest ≡ false) × (get_ptr old ≢ b) =
        λ b out. ground (arith, h.chain_at) in
      (
        h.rest,
        h.tail,
        h.values_at,
        Inv-move {t = swing s top'} i (won (get_ptr old) (s.heap (get_ptr old)).value) v refl
            (subst (λ q. Linked s.heap q h.rest h.tail)
              (sym (ptr_combine (get_stamp old + 1) next small)) l')
            d.1
            (stamp_combine (get_stamp old + 1) next small
              ∙ omega (arith, v.stamped, ap get_stamp same))
            mine
            (λ j q.
              Knows-swing s.heap s.top s.changes top' chain h.rest (s.pc j)
                (λ b f out. (others b out).0) (v.known j))
            (λ j a q f g.
              (others a (owned_lem s.heap s.top s.changes chain (s.pc j) a (v.known j) g).1).1
                (ground arith)),
      )

  pub finish_pop-Inv :
      (node taken : ℕ)
      → s.pc i ≡ won node taken
      → (taken ≡ (s.heap node).value)
        × Inv (move (write s node (record (s.heap node) { live = false })) i idle) chain values
  finish_pop-Inv node taken e =
      let n : Node = record (s.heap node) { live = false } in
      let own : IsOwned s.heap chain node taken =
        subst (Knows s.heap s.top s.changes chain) e (v.known i) in
      (
        sym own.holds,
        Inv-move {t = write s node n} i idle v refl
            (Linked-write s.heap (get_ptr s.top) chain values node n own.outside v.linked)
            v.distinct v.stamped tt
            (λ j ne.
              Knows-write s.heap s.top s.changes chain values node n (s.pc j) v.linked own.outside
                (λ f. ne (v.apart j i node f (ground (arith, e)))) (v.known j))
            (λ j a ne f. cc),
      )
