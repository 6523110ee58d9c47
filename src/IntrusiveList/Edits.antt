-- ===== src/IntrusiveList/Edits.antt =====
-- kernel/include/nimble_list.h: any sequence of the list operations, against the same edits of sequences.
use nimble_rtos.Common.{
  ℕ, ◌<◌, ◌≡◌, refl, Bool, true, false, ◌||◌, some, List, [], ◌∷◌, ◌++◌, ◌==◌, arith, update, subst,
  sym, length,
}
use nimble_rtos.Common.Tids.{mem, remove}
use nimble_rtos.Waiters.{insert_sorted}
use nimble_rtos.IntrusiveList.{
  Links, insert_before, list_insert_tail, list_insert_head, list_remove, insert_sorted_pointers,
}
use nimble_rtos.IntrusiveList.Chain.{Chain, insert_at}
use nimble_rtos.IntrusiveList.Store.{
  Store, insert_before-Store, list_insert_tail-Store, list_remove-Store, list_remove_loose,
}
use nimble_rtos.IntrusiveList.Sorting.{insert_sorted_pointers-Store}

links_ext :
    {h g : Links} → ((n : ℕ) → h.next n ≡ g.next n) → ((n : ℕ) → h.prev n ≡ g.prev n) → h ≡ g
links_ext p q = λ i. record { next = λ n. p n i; prev = λ n. q n i }

-- The pointer behind a list head, and back.
first_of :
    (h : Links) (l node : ℕ) (xs : List ℕ)
    → Chain h l xs l
    → (h.prev (h.next l) ≡ l)
      × ((mem (h.next l) xs || (h.next l == l)) ≡ true)
      × (mem l xs ≡ false → insert_at (h.next l) node xs ≡ node ∷ xs)
unfolding mem insert_at
first_of h l node [] c = (ground arith, ground arith, λ out. refl)
first_of h l node (x ∷ xs) c = (ground arith, ground arith, λ out. ground arith)

module _ {is_head : ℕ → Bool} {lists : ℕ → List ℕ} {h : Links} (s : Store is_head lists h) (l : ℕ)
    (hl : is_head l ≡ true) (node : ℕ) (nh : is_head node ≡ false)
    (out : (j : ℕ) → mem node (lists j) ≡ false) where
  head_is_before :
      h.prev (h.next l) ≡ l
      → (mem (h.next l) (lists l) || (h.next l == l)) ≡ true
      → insert_before (h.next l) node h ≡ list_insert_head l node h
  unfolding insert_before list_insert_head
  head_is_before back place =
      let apart : (l == node) ≡ false = ground arith in
      let away : (h.next l == node) ≡ false = ground (arith, out l) in
      links_ext (λ n. ground arith) (λ n. ground arith)

  list_insert_head-Store :
      Store is_head (update lists l (node ∷ lists l)) (list_insert_head l node h)
  list_insert_head-Store =
      let f = first_of h l node (lists l) (s.linked l hl) in
      let own : mem l (lists l) ≡ false = ground (arith, s.no_head l l) in
      subst (λ g. Store is_head (update lists l (node ∷ lists l)) g) (head_is_before f.0 f.1)
        (subst (λ zs. Store is_head (update lists l zs) (insert_before (h.next l) node h)) (f.2 own)
          (insert_before-Store s l hl (h.next l) node nh out f.1))

-- A node that is no list head and is on no list.
abbrev pub Free : (ℕ → Bool) → (ℕ → List ℕ) → ℕ → Type 0
Free is_head lists node = (is_head node ≡ false) × ((j : ℕ) → mem node (lists j) ≡ false)

-- The operations on the pointers, with what they mean for the sequences. A free node is inserted, any node
-- of a list is removed, and a free node may be removed once more.
pub data Edits (is_head : ℕ → Bool) (lists : ℕ → List ℕ) (h : Links)
    : (ℕ → List ℕ) → Links → Type 0 where
  unedited : Edits is_head lists h lists h
  appended :
      (now : ℕ → List ℕ) (g : Links) (l node : ℕ)
      → Edits is_head lists h now g
      → is_head l ≡ true
      → Free is_head now node
      → Edits is_head lists h (update now l (now l ++ node ∷ [])) (list_insert_tail l node g)
  prepended :
      (now : ℕ → List ℕ) (g : Links) (l node : ℕ)
      → Edits is_head lists h now g
      → is_head l ≡ true
      → Free is_head now node
      → Edits is_head lists h (update now l (node ∷ now l)) (list_insert_head l node g)
  sorted_in :
      (now : ℕ → List ℕ) (g g' : Links) (l node fuel : ℕ) (prio : ℕ → ℕ)
      → Edits is_head lists h now g
      → is_head l ≡ true
      → Free is_head now node
      → length (now l) < fuel
      → insert_sorted_pointers prio fuel l node g ≡ some g'
      → Edits is_head lists h (update now l (insert_sorted prio node (now l))) g'
  removed :
      (now : ℕ → List ℕ) (g : Links) (l node : ℕ)
      → Edits is_head lists h now g
      → is_head l ≡ true
      → mem node (now l) ≡ true
      → Edits is_head lists h (λ j. remove node (now j)) (list_remove node g)
  removed_again :
      (now : ℕ → List ℕ) (g : Links) (node : ℕ)
      → Edits is_head lists h now g
      → Free is_head now node
      → Edits is_head lists h now (list_remove node g)

-- On a memory whose pointers carry the sequences `lists`, any operations on the pointers, which
-- put free nodes in at the tail, at the head or by priority, remove nodes of a list, or remove
-- free nodes once more, leave pointers that carry the sequences after the same edits.
pub Edits-Store :
    {is_head : ℕ → Bool} {lists : ℕ → List ℕ} {h : Links} {lists' : ℕ → List ℕ} {h' : Links}
    → Store is_head lists h
    → Edits is_head lists h lists' h'
    → Store is_head lists' h'
Edits-Store s unedited = s
Edits-Store s (appended now g l node before hl free) =
    list_insert_tail-Store (Edits-Store s before) l hl node free.0 free.1
Edits-Store s (prepended now g l node before hl free) =
    list_insert_head-Store (Edits-Store s before) l hl node free.0 free.1
Edits-Store {is_head} s (sorted_in now g g' l node fuel prio before hl free enough found) =
    let r =
      insert_sorted_pointers-Store (Edits-Store s before) l hl prio fuel node enough free.0
        free.1 in
    let same : r.0 ≡ g' = cc (r.1, found) in
    subst (λ links. Store is_head (update now l (insert_sorted prio node (now l))) links) same r.2
Edits-Store s (removed now g l node before hl m) =
    list_remove-Store (Edits-Store s before) l hl node m
Edits-Store {is_head} s (removed_again now g node before free) =
    let was = Edits-Store s before in
    let same = list_remove_loose was node free.0 free.1 in
    subst (λ links. Store is_head now links) (links_ext (λ n. sym (same n).0) (λ n. sym (same n).1))
      was
