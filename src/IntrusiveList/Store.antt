-- ===== src/IntrusiveList/Store.antt =====
-- kernel/include/nimble_list.h: all the lists of a memory at once, and the sequences that they stand
-- for.
use nimble_rtos.Common.{
  ℕ, ◌≡◌, refl, Bool, true, false, ◌||◌, some, List, [], ◌∷◌, ◌++◌, ◌==◌, arith, update, Bool-cases,
  inl, inr, ◌⊎◌, is_nil, head?, subst, ==_iff,
}
use nimble_rtos.Common.Tids.{mem, distinct, remove, mem-remove, remove_of_not_mem, distinct-remove}
use nimble_rtos.IntrusiveList.{Links, insert_before, list_remove, list_insert_tail, list_is_empty}
use nimble_rtos.IntrusiveList.Chain.{
  Chain, insert_at, frame, prev_mem, next_mem, insert_before-Chain, list_remove-Chain,
}

-- `lists l` is the sequence of the nodes of the list with head `l`. No node is on two lists, and a
-- node on no list points to itself.
pub record Store (is_head : ℕ → Bool) (lists : ℕ → List ℕ) (h : Links) : Type 0 where
  pub linked : (l : ℕ) → is_head l ≡ true → Chain h l (lists l) l
  pub distinct_list : (l : ℕ) → distinct (lists l) ≡ true
  pub no_head : (l n : ℕ) → mem n (lists l) ≡ true → is_head n ≡ false
  pub of_head : (l n : ℕ) → mem n (lists l) ≡ true → is_head l ≡ true
  pub one_list : (l j n : ℕ) → mem n (lists l) ≡ true → mem n (lists j) ≡ true → l ≡ j
  pub loose :
      (n : ℕ)
      → is_head n ≡ false
      → ((l : ℕ) → mem n (lists l) ≡ false)
      → (h.next n ≡ n) × (h.prev n ≡ n)

mem-insert_at :
    (at node n : ℕ) (xs : List ℕ) → mem n (insert_at at node xs) ≡ ((n == node) || mem n xs)
unfolding mem insert_at
mem-insert_at at node n [] = refl
mem-insert_at at node n (x ∷ xs) = ground (arith, mem-insert_at at node n xs)

distinct-insert_at :
    (at node : ℕ) (xs : List ℕ)
    → distinct xs ≡ true
    → mem node xs ≡ false
    → distinct (insert_at at node xs) ≡ true
unfolding distinct insert_at
distinct-insert_at at node [] d f = refl
distinct-insert_at at node (x ∷ xs) d f =
    ground (arith, distinct-insert_at at node xs, mem-insert_at at node x xs)

pub insert_at_end :
    (at node : ℕ) (xs : List ℕ) → mem at xs ≡ false → insert_at at node xs ≡ xs ++ node ∷ []
unfolding mem insert_at
insert_at_end at node [] f = refl
insert_at_end at node (x ∷ xs) f = ground (arith, insert_at_end at node xs)

chain_first :
    (h : Links) (a : ℕ) (xs : List ℕ) (b n : ℕ) → Chain h a xs b → head? xs ≡ some n → h.next a ≡ n
chain_first h a [] b n c e = absurd (ground arith)
chain_first h a (x ∷ xs) b n c e = ground arith

chain_empty :
    (h : Links) (a : ℕ) (xs : List ℕ)
    → Chain h a xs a
    → mem a xs ≡ false
    → (h.next a == a) ≡ is_nil xs
unfolding mem
chain_empty h a [] c f = ground arith
chain_empty h a (x ∷ xs) c f = ground arith

module _ {is_head : ℕ → Bool} {lists : ℕ → List ℕ} {h : Links} (s : Store is_head lists h) (l : ℕ)
    (hl : is_head l ≡ true) where
  open s use {linked, distinct_list, no_head, of_head, one_list, loose}

  -- `nimble_list_is_empty` tells whether the sequence is empty.
  pub list_is_empty-is_nil : list_is_empty l h ≡ is_nil (lists l)
  unfolding list_is_empty
  list_is_empty-is_nil = chain_empty h l (lists l) (linked l hl) (ground (arith, no_head l l))

  -- `list->next` is the first node.
  pub next-head : (n : ℕ) → head? (lists l) ≡ some n → h.next l ≡ n
  next-head n e = chain_first h l (lists l) l n (linked l hl) e

  insert-linked :
      (at node : ℕ)
      → is_head node ≡ false
      → ((j : ℕ) → mem node (lists j) ≡ false)
      → (mem at (lists l) || (at == l)) ≡ true
      → (j : ℕ) → is_head j ≡ true
      → Chain (insert_before at node h) j (update lists l (insert_at at node (lists l)) j) j
  unfolding insert_before
  insert-linked at node nh out pos j hj = elim (Bool-cases (l == j)) [
    | inl same ↦
        let own =
          insert_before-Chain h at node l (lists l) l (linked l hl) pos (distinct_list l)
            (ground (arith, no_head l l, out l)) in
        rw same (
          subst (λ i. Chain (insert_before at node h) i (insert_at at node (lists l)) i)
            ((==_iff l j).0 same) own)
    | inr other ↦ rw other (
        frame h (insert_before at node h) j (lists j) j (linked j hj)
          (λ c m. ground (
            arith,
            out j,
            no_head l c,
            no_head j c,
            one_list l j c,
            prev_mem h l (lists l) l at (linked l hl),
          ))
          (λ c m. ground (arith, out j, no_head l c, no_head j c, one_list l j c)))
  ]

  insert-loose :
      (at node : ℕ)
      → (mem at (lists l) || (at == l)) ≡ true
      → (n : ℕ) → is_head n ≡ false
      → mem node (lists l) ≡ false
      → ((j : ℕ) → mem n (lists j) ≡ false)
      → (n == node) ≡ false
      → ((insert_before at node h).next n ≡ n) × ((insert_before at node h).prev n ≡ n)
  unfolding insert_before
  insert-loose at node pos n nn outl out ne =
      let was = loose n nn out in
      (ground (arith, out l, prev_mem h l (lists l) l at (linked l hl)), ground (arith, out l))

  pub insert_before-Store :
      (at node : ℕ)
      → is_head node ≡ false
      → ((j : ℕ) → mem node (lists j) ≡ false)
      → (mem at (lists l) || (at == l)) ≡ true
      → Store is_head (update lists l (insert_at at node (lists l))) (insert_before at node h)
  insert_before-Store at node nh out pos = record {
    linked = insert-linked at node nh out pos;
    distinct_list =
        λ j. ground (arith, distinct_list j, out l, distinct-insert_at at node (lists l));
    no_head = λ j n m. ground (arith, no_head j n, mem-insert_at at node n (lists l));
    of_head = λ j n m. ground (arith, of_head j n);
    one_list = λ i j n mi mj.
        ground (arith, one_list i j n, out i, out j, mem-insert_at at node n (lists l));
    loose = λ n nn f.
        insert-loose at node pos n nn (out l)
          (λ j. ground (arith, f j, mem-insert_at at node n (lists l)))
          (ground (arith, f l, mem-insert_at at node n (lists l)));
  }

  -- On a memory whose pointers carry the sequences `lists`, `nimble_list_insert_tail` of a node
  -- that is on no list leaves pointers that carry the same sequences with the node appended to
  -- list `l`.
  pub list_insert_tail-Store :
      (node : ℕ)
      → is_head node ≡ false
      → ((j : ℕ) → mem node (lists j) ≡ false)
      → Store is_head (update lists l (lists l ++ node ∷ [])) (list_insert_tail l node h)
  unfolding list_insert_tail insert_before
  list_insert_tail-Store node nh out =
      let whole = insert_before-Store l node nh out (ground arith) in
      subst (λ zs. Store is_head (update lists l zs) (insert_before l node h))
        (insert_at_end l node (lists l) (ground (arith, no_head l l))) whole

  remove-linked :
      (node : ℕ)
      → mem node (lists l) ≡ true
      → (j : ℕ) → is_head j ≡ true
      → Chain (list_remove node h) j (remove node (lists j)) j
  unfolding list_remove
  remove-linked node m j hj = elim (Bool-cases (l == j)) [
    | inl same ↦
        let own =
          list_remove-Chain h l node l (lists l) l (linked l hl) m (distinct_list l)
            (ground (arith, no_head l l)) in
        subst (λ i. Chain (list_remove node h) i (remove node (lists i)) i) ((==_iff l j).0 same)
          own
    | inr other ↦
        let apart : remove node (lists j) ≡ lists j =
          remove_of_not_mem node (lists j) (ground (arith, one_list l j node)) in
        rw apart (
          frame h (list_remove node h) j (lists j) j (linked j hj)
            (λ c mc. ground (
              arith,
              no_head l c,
              no_head j c,
              no_head l node,
              one_list l j c,
              prev_mem h l (lists l) l node (linked l hl),
            ))
            (λ c mc. ground (
              arith,
              no_head l c,
              no_head j c,
              no_head l node,
              one_list l j c,
              next_mem h l (lists l) l node (linked l hl),
            )))
  ]

  remove-loose :
      (node : ℕ)
      → mem node (lists l) ≡ true
      → (n : ℕ) → is_head n ≡ false
      → ((n == node) ≡ true) ⊎ ((j : ℕ) → mem n (lists j) ≡ false)
      → ((list_remove node h).next n ≡ n) × ((list_remove node h).prev n ≡ n)
  unfolding list_remove
  remove-loose node m n nn (inl same) = (ground arith, ground arith)
  remove-loose node m n nn (inr out) =
      let was = loose n nn out in
      (
        ground (arith, out l, prev_mem h l (lists l) l node (linked l hl)),
        ground (arith, out l, next_mem h l (lists l) l node (linked l hl)),
      )

  removed_or_out :
      (node n : ℕ)
      → ((j : ℕ) → mem n (remove node (lists j)) ≡ false)
      → ((n == node) ≡ true) ⊎ ((j : ℕ) → mem n (lists j) ≡ false)
  removed_or_out node n f = elim (Bool-cases (n == node)) [
    | inl same ↦ inl same
    | inr other ↦ inr (λ j. ground (arith, f j, mem-remove n node (lists j)))
  ]

  -- On a memory whose pointers carry the sequences `lists`, `nimble_list_remove` of a node of list
  -- `l` leaves pointers that carry the same sequences without the node.
  pub list_remove-Store :
      (node : ℕ)
      → mem node (lists l) ≡ true
      → Store is_head (λ j. remove node (lists j)) (list_remove node h)
  list_remove-Store node m = record {
    linked = remove-linked node m;
    distinct_list = λ j. distinct-remove node (lists j) (distinct_list j);
    no_head = λ j n mn. ground (arith, no_head j n, mem-remove n node (lists j));
    of_head = λ j n mn. ground (arith, of_head j n, mem-remove n node (lists j));
    one_list = λ i j n mi mj.
        ground (arith, one_list i j n, mem-remove n node (lists i), mem-remove n node (lists j));
    loose = λ n nn f. remove-loose node m n nn (removed_or_out node n f);
  }

-- Removing a node that is on no list changes no pointer: `nimble_list_remove` on it is a no-op.
pub list_remove_loose :
    {is_head : ℕ → Bool} {lists : ℕ → List ℕ} {h : Links}
    → Store is_head lists h
    → (node : ℕ) → is_head node ≡ false
    → ((j : ℕ) → mem node (lists j) ≡ false)
    → (n : ℕ) → ((list_remove node h).next n ≡ h.next n) × ((list_remove node h).prev n ≡ h.prev n)
unfolding list_remove
list_remove_loose s node nh out n = let was = s.loose node nh out in (ground arith, ground arith)
