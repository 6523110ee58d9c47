-- ===== src/IntrusiveList/Chain.antt =====
-- kernel/include/nimble_list.h: the nodes that a run of pointers passes.
use nimble_rtos.Common.{
  ℕ, ◌≡◌, true, false, ◌||◌, List, [], ◌∷◌, ◌==◌, arith, if◌then◌else◌, Bool-cases, inl, inr,
}
use nimble_rtos.Common.Tids.{mem, distinct, remove, remove_of_not_mem}
use nimble_rtos.IntrusiveList.{Links, insert_before, list_remove}

-- From `a` the `next` pointers lead through `xs` to `b`, and the `prev` pointers lead back.
abbrev pub Chain : Links → ℕ → List ℕ → ℕ → Type 0
Chain h a [] b = (h.next a ≡ b) × (h.prev b ≡ a)
Chain h a (x ∷ xs) b = (h.next a ≡ x) × (h.prev x ≡ a) × Chain h x xs b

-- Where `node` stands after an insertion before `at`, which is on the list or is its end.
unfoldable pub insert_at : ℕ → ℕ → List ℕ → List ℕ
insert_at at node [] = node ∷ []
insert_at at node (x ∷ xs) = if x == at then node ∷ x ∷ xs else x ∷ insert_at at node xs

module _ (h g : Links) where
  -- A chain stays as long as its own pointers do.
  pub frame :
      (a : ℕ) (xs : List ℕ) (b : ℕ)
      → Chain h a xs b
      → ((c : ℕ) → ((c == a) || mem c xs) ≡ true → g.next c ≡ h.next c)
      → ((c : ℕ) → ((c == b) || mem c xs) ≡ true → g.prev c ≡ h.prev c)
      → Chain g a xs b
  unfolding mem
  frame a [] b c n p = ground (arith, n a, p b)
  frame a (x ∷ xs) b c n p = (
    ground (arith, n a),
    ground (arith, p x),
    frame x xs b c.2 (λ d e. n d (ground arith)) (λ d e. p d (ground arith)),
  )

module _ (h : Links) where
  -- The node before one of the chain is its start or on the chain.
  pub prev_mem :
      (a : ℕ) (xs : List ℕ) (b n : ℕ)
      → Chain h a xs b
      → (mem n xs || (n == b)) ≡ true
      → ((h.prev n == a) || mem (h.prev n) xs) ≡ true
  unfolding mem
  prev_mem a [] b n c m = ground arith
  prev_mem a (x ∷ xs) b n c m = ground (arith, prev_mem x xs b n c.2)

  pub next_mem :
      (a : ℕ) (xs : List ℕ) (b n : ℕ)
      → Chain h a xs b
      → ((n == a) || mem n xs) ≡ true
      → (mem (h.next n) xs || (h.next n == b)) ≡ true
  unfolding mem
  next_mem a [] b n c m = ground arith
  next_mem a (x ∷ xs) b n c m = ground (arith, next_mem x xs b n c.2)

module _ (h : Links) (at node : ℕ) where
  -- `insert_before` puts a detached node in front of `at` in the chain that `at` is on.
  pub insert_before-Chain :
      (a : ℕ) (xs : List ℕ) (b : ℕ)
      → Chain h a xs b
      → (mem at xs || (at == b)) ≡ true
      → distinct xs ≡ true
      → ((mem a xs || mem b xs) || ((node == a) || (node == b) || mem node xs)) ≡ false
      → Chain (insert_before at node h) a (insert_at at node xs) b
  unfolding insert_before insert_at mem distinct
  insert_before-Chain a [] b c m d f = ground arith
  insert_before-Chain a (x ∷ xs) b c m d f = elim (Bool-cases (x == at)) [
    | inl here ↦
        let rest : Chain (insert_before at node h) x xs b =
          frame h (insert_before at node h) x xs b c.2 (λ e me. ground arith)
            (λ e me. ground arith) in
        rw here (ground arith, ground arith, (ground arith, ground arith, rest))
    | inr later ↦ rw later (
      ground (arith, prev_mem h x xs b at c.2),
      ground arith,
      insert_before-Chain x xs b c.2 (ground arith) (ground arith) (ground arith),
    )
  ]

  -- The nodes round the removed one are joined.
  bridge :
      (a x : ℕ) (xs : List ℕ) (b : ℕ)
      → Chain h a (x ∷ xs) b
      → distinct (x ∷ xs) ≡ true
      → (mem a (x ∷ xs) || mem b (x ∷ xs)) ≡ false
      → (node == x) ≡ true
      → Chain (list_remove node h) a xs b
  unfolding list_remove mem distinct
  bridge a x [] b c d f e = ground arith
  bridge a x (y ∷ ys) b c d f e = (
    ground arith,
    ground arith,
    frame h (list_remove node h) y ys b c.2.2 (λ i mi. ground arith) (λ i mi. ground arith),
  )

  -- `nimble_list_remove` takes a node out of the chain that it is on.
  pub list_remove-Chain :
      (a : ℕ) (xs : List ℕ) (b : ℕ)
      → Chain h a xs b
      → mem node xs ≡ true
      → distinct xs ≡ true
      → (mem a xs || mem b xs) ≡ false
      → Chain (list_remove node h) a (remove node xs) b
  unfolding list_remove remove mem distinct
  list_remove-Chain a [] b c m d f = absurd (ground arith)
  list_remove-Chain a (x ∷ xs) b c m d f = elim (Bool-cases (node == x)) [
    | inl here ↦
        let same : remove node xs ≡ xs = ground (arith, remove_of_not_mem node xs) in
        rw here (rw same (bridge a x xs b c d f here))
    | inr later ↦ rw later (
      ground (arith, prev_mem h x xs b node c.2),
      ground (arith, next_mem h x xs b node c.2),
      list_remove-Chain x xs b c.2 (ground arith) (ground arith) (ground arith),
    )
  ]
