-- ===== src/Book/RbIndex/Validate.antt =====
-- The checks `validate` and `check_node` of include/titan/book/rb_price_index.hpp, and the index
-- against them after insertions and erasures in several orders.
use titan_hft.Common.{
  ℕ, zero, suc, ◌+◌, ◌≡◌, refl, Bool, true, false, not, ◌&&◌, ◌||◌, Option, none, some, List, [],
  ◌∷◌, ◌==◌, if◌then◌else◌, pos, ltb_ℤ,
}
use titan_hft.Domain.{PriceTick}
use titan_hft.Book.Index.{nil}
use titan_hft.Book.RbIndex.{create, try_emplace, erase_node, find}
use titan_hft.Book.RbIndex.Fixup.{
  Rb, Color, insert_fixup, rotate_left, rotate_right, transplant, delete_fixup,
}

abbrev is_red : Color → Bool
is_red Color.red = true
is_red Color.black = false

module _ (before : PriceTick → PriceTick → Bool) where
  -- The black height of the subtree at `x`, or `none` for -1.
  check_node : ℕ → Rb → ℕ → Option ℕ
  check_node zero t x = none
  check_node (suc fuel) t x =
      let n = t.nodes x in
      let l = t.nodes n.left in
      let r = t.nodes n.right in
      let lh = check_node fuel t n.left in
      let rh = check_node fuel t n.right in
      if x == nil
      then some 1
      else if is_red n.color && (is_red l.color || is_red r.color)
      then none
      else if not (n.left == nil) && (not (l.parent == x) || not (before l.key n.key))
      then none
      else if not (n.right == nil) && (not (r.parent == x) || not (before n.key r.key))
      then none
      else elim lh [
        | none ↦ none
        | some a ↦ elim rh [
          | none ↦ none
          | some b ↦ if a == b then some (if is_red n.color then a else a + 1) else none
        ]
      ]

  -- The walk along the `succ` links from `i`, which `prev` precedes: the number of nodes, or `none`
  -- for a wrong link or order.
  walk : ℕ → Rb → (prev i : ℕ) → Option ℕ
  walk zero t prev i = none
  walk (suc fuel) t prev i =
      let rest = walk fuel t i (t.nodes i).succ in
      if i == nil
      then some 0
      else if not ((t.nodes i).pred == prev)
      then none
      else if not (prev == nil) && not (before (t.nodes prev).key (t.nodes i).key)
      then none
      else elim rest [ none ↦ none | some k ↦ some (k + 1) ]

  unfoldable pub validate : Rb → Bool
  unfolding check_node walk
  validate t =
      if t.root == nil
      then (t.size == 0) && (t.begin == nil)
      else if is_red (t.nodes t.root).color
      then false
      else elim (walk (t.size + 1) t nil t.begin) [
        | none ↦ false
        | some k ↦
            (k == t.size)
            && (elim (check_node (t.size + 1) t t.root) [ none ↦ false | some h ↦ true ])
      ]

abbrev insert_all : Rb → List ℕ → Rb
insert_all t [] = t
insert_all t (p ∷ ps) = elim (try_emplace ltb_ℤ t (pos p)) [
  | none ↦ insert_all t ps
  | some (t', it, new) ↦ insert_all t' ps
]

abbrev erase_all : Rb → List ℕ → Rb
erase_all t [] = t
erase_all t (p ∷ ps) = erase_all (erase_node ltb_ℤ t (find ltb_ℤ t (pos p))) ps

abbrev prices : List ℕ
prices = 8 ∷ 3 ∷ 10 ∷ 1 ∷ 6 ∷ 14 ∷ 4 ∷ 7 ∷ 13 ∷ 2 ∷ 5 ∷ []

abbrev grown : Rb
grown = insert_all (create 16) prices

valid_grown : validate ltb_ℤ grown ≡ true
unfolding validate create try_emplace insert_fixup rotate_left rotate_right
valid_grown = refl

valid_pruned : validate ltb_ℤ (erase_all grown (8 ∷ 1 ∷ 14 ∷ 6 ∷ [])) ≡ true
unfolding validate create try_emplace erase_node find insert_fixup rotate_left rotate_right
    transplant delete_fixup
valid_pruned = refl

size_pruned : (erase_all grown (8 ∷ 1 ∷ 14 ∷ 6 ∷ [])).size ≡ 7
unfolding validate create try_emplace erase_node find insert_fixup rotate_left rotate_right
    transplant delete_fixup
size_pruned = refl
