-- ===== src/LockFree/Refine.antt =====
-- myIOCP/CLockFreeStack.h: runs of any number of threads, and the stack that they implement.
use iocp_chatserver.Prelude.{
  ℕ, ◌+◌, ◌≡◌, refl, ap, ◌∙◌, subst, List, [], ◌∷◌, Option, none, some, arith, if◌then◌else◌, ◌==◌,
}
use iocp_chatserver.LockFree.{
  push_begun, pop_begun, System, get_ptr, Effect, silent, pushes, pops, finds_empty, returns, Step,
  begin_push, read_top_push, push_wins, push_loses, begin_pop, read_top_pop, pop_empty, read_next,
  pop_wins, pop_loses, finish_pop, IsInit, IsFresh,
}
use iocp_chatserver.LockFree.Invariant.{Knows, Linked, Inv}
use iocp_chatserver.LockFree.Pushing.{Inv-stay, begin_push-Inv, read_top_push-Inv, push_wins-Inv}
use iocp_chatserver.LockFree.Popping.{
  read_top_pop-Inv, pop_empty-Inv, read_next-Inv, pop_wins-Inv, finish_pop-Inv,
}

-- A stack whose calls take effect at once: the new contents, or `none` if it would not do that.
abbrev obey : Effect → List ℕ → Option (List ℕ)
obey silent values = some values
obey (pushes v) values = some (v ∷ values)
obey (pops v) [] = none
obey (pops v) (x ∷ xs) = if x == v then some xs else none
obey finds_empty [] = some []
obey finds_empty (x ∷ xs) = none
obey (returns taken v) values = if taken == v then some values else none

abbrev replay_from : Option (List ℕ) → List Effect → Option (List ℕ)
replay_from none effects = none
replay_from (some values) [] = some values
replay_from (some values) (e ∷ es) = replay_from (obey e values) es

abbrev pub replay : List ℕ → List Effect → Option (List ℕ)
replay values effects = replay_from (some values) effects

-- The calls that took effect at a compare-exchange.
abbrev pub changed : List Effect → ℕ
changed [] = 0
changed (pushes v ∷ es) = changed es + 1
changed (pops v ∷ es) = changed es + 1
changed (silent ∷ es) = changed es
changed (finds_empty ∷ es) = changed es
changed (returns taken v ∷ es) = changed es

pub data Run (u : System) : System → List Effect → Type 0 where
  done : Run u u []
  first :
      {s t : System} {i : ℕ} {e : Effect} {es : List Effect}
      → Step s i e t
      → Run u t es
      → Run u s (e ∷ es)

-- Every compare-exchange of `Pop` that wins is fresh.
abbrev pub AllFresh : {u s : System} {es : List Effect} → Run u s es → Type 0
AllFresh done = Unit
AllFresh (first {s} st r) = IsFresh s st × AllFresh r

-- A step does what the stack does, and keeps the invariant.
record Obeys (e : Effect) (t : System) (values : List ℕ) : Type 0 where
  values' : List ℕ
  chain' : List ℕ
  obeyed : obey e values ≡ some values'
  kept : Inv t chain' values'

Step-Obeys :
    {s : System} {i : ℕ} {e : Effect} {t : System} {chain values : List ℕ} (st : Step s i e t)
    → IsFresh s st
    → Inv s chain values
    → Obeys e t values
Step-Obeys {i = i} {chain = chain} {values = values} (begin_push node value junk at dead pos small)
      fresh v =
    record {
      values' = values;
      chain' = chain;
      obeyed = refl;
      kept = begin_push-Inv i v node value junk dead pos small;
    }
Step-Obeys {i = i} {chain = chain} {values = values} (read_top_push node value at) fresh v =
    record {
      values' = values;
      chain' = chain;
      obeyed = refl;
      kept = read_top_push-Inv i v node value at;
    }
Step-Obeys {i = i} {chain = chain} {values = values} (push_wins node value old seen at same) fresh
      v =
    record {
      values' = value ∷ values;
      chain' = node ∷ chain;
      obeyed = refl;
      kept = push_wins-Inv i v node value old seen at same;
    }
Step-Obeys {s} {i = i} {chain = chain} {values = values} (push_loses node value old seen at other)
      fresh v =
    let k = subst (Knows s.heap s.top s.changes chain) at (v.known i) in
    record {
      values' = values;
      chain' = chain;
      obeyed = refl;
      kept = Inv-stay i v (push_begun node value) k.0 (λ a e. ground (arith, at));
    }
Step-Obeys {i = i} {chain = chain} {values = values} (begin_pop at) fresh v = record {
  values' = values;
  chain' = chain;
  obeyed = refl;
  kept = Inv-stay i v pop_begun tt (λ a e. cc);
}
Step-Obeys {i = i} {chain = chain} {values = values} (read_top_pop at ne) fresh v = record {
  values' = values;
  chain' = chain;
  obeyed = refl;
  kept = read_top_pop-Inv i v ne;
}
Step-Obeys {i = i} {chain = chain} {values = values} (pop_empty at null) fresh v =
    let (none_there, kept) = pop_empty-Inv i v null in
    record { values' = values; chain' = chain; obeyed = rw none_there refl; kept = kept }
Step-Obeys {i = i} {chain = chain} {values = values} (read_next old seen next at read) fresh v =
    record {
      values' = values;
      chain' = chain;
      obeyed = refl;
      kept = read_next-Inv i v old seen next at read;
    }
Step-Obeys {s} {i = i} {chain = chain} {values = values} (pop_wins old next seen at same) fresh v =
    let (chain', values', top, kept) = pop_wins-Inv i v old next seen at same fresh in
    record {
      values' = values';
      chain' = chain';
      obeyed = ap (obey (pops (s.heap (get_ptr old)).value)) top ∙ ground arith;
      kept = kept;
    }
Step-Obeys {i = i} {chain = chain} {values = values} (pop_loses old next seen at other) fresh v =
    record {
      values' = values;
      chain' = chain;
      obeyed = refl;
      kept = Inv-stay i v pop_begun tt (λ a e. cc);
    }
Step-Obeys {i = i} {chain = chain} {values = values} (finish_pop node taken at) fresh v =
    let (same, kept) = finish_pop-Inv i v node taken at in
    record { values' = values; chain' = chain; obeyed = ground arith; kept = kept }

Run-Inv :
    {u s : System} {es : List Effect} {chain values : List ℕ} (r : Run u s es)
    → AllFresh r
    → Inv s chain values
    → (values' : List ℕ) × (chain' : List ℕ) × (replay values es ≡ some values')
      × Inv u chain' values'
Run-Inv {chain = chain} {values = values} done fresh v = (values, chain, refl, v)
Run-Inv {values = values} (first {es = es} st r) fresh v =
    let o = Step-Obeys st fresh.0 v in
    let (values', chain', replayed, kept) = Run-Inv r fresh.1 o.kept in
    (values', chain', ap (λ p. replay_from p es) o.obeyed ∙ replayed, kept)

init-Inv : (s : System) → IsInit s → Inv s [] []
init-Inv s (empty, none_yet, all_idle) = record {
  linked = omega (arith, empty);
  distinct = tt;
  stamped = omega (arith, empty, none_yet);
  known = λ i. rw (all_idle i) tt;
  apart = λ i j a p q. ground (arith, all_idle i);
}

-- From an empty stack that no thread has called yet, in every interleaving of any number of calls,
-- as long as no compare-exchange of `Pop` wins 2^17 or more changes after its read of the top, the
-- calls take effect one after the other as those of a sequential stack: each `Pop` takes the value
-- on top at its compare-exchange and returns that value, `Pop` fails only on an empty stack, and
-- the list in memory holds what the stack holds.
pub Run_refines :
    {s u : System} {es : List Effect} (r : Run u s es)
    → IsInit s
    → AllFresh r
    → (values : List ℕ) × (chain : List ℕ) × (replay [] es ≡ some values)
      × Linked u.heap (get_ptr u.top) chain values
Run_refines {s} r init fresh =
    let (values, chain, replayed, kept) = Run-Inv r fresh (init-Inv s init) in
    (values, chain, replayed, kept.linked)

Step-changes :
    {s : System} {i : ℕ} {e : Effect} {t : System}
    → Step s i e t
    → t.changes ≡ s.changes + changed (e ∷ [])
Step-changes (begin_push node value junk at dead pos small) = omega arith
Step-changes (read_top_push node value at) = omega arith
Step-changes (push_wins node value old seen at same) = omega arith
Step-changes (push_loses node value old seen at other) = omega arith
Step-changes (begin_pop at) = omega arith
Step-changes (read_top_pop at ne) = omega arith
Step-changes (pop_empty at null) = omega arith
Step-changes (read_next old seen next at read) = omega arith
Step-changes (pop_wins old next seen at same) = omega arith
Step-changes (pop_loses old next seen at other) = omega arith
Step-changes (finish_pop node taken at) = omega arith

changed-cons : (e : Effect) (es : List Effect) → changed (e ∷ es) ≡ changed (e ∷ []) + changed es
changed-cons silent es = omega arith
changed-cons (pushes v) es = omega arith
changed-cons (pops v) es = omega arith
changed-cons finds_empty es = omega arith
changed-cons (returns taken v) es = omega arith

Run-changes : {u s : System} {es : List Effect} → Run u s es → u.changes ≡ s.changes + changed es
Run-changes done = omega arith
Run-changes (first {e = e} {es = es} st r) =
    omega (arith, Step-changes st, Run-changes r, changed-cons e es)
