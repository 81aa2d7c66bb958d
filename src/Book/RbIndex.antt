-- ===== src/Book/RbIndex.antt =====
-- include/titan/book/rb_price_index.hpp: the pooled Red-Black tree of price levels with
-- neighbour links. Node 0 is the sentinel. The node pool is a function of the node number, and
-- the free list has the back of the vector as its head.
pub mod Fixup
pub mod Links
pub mod Listed
mod Validate
use titan_hft.Common.{
  ℕ, zero, suc, ◌+◌, ◌-◌, ◌*◌, ◌/◌, ◌%◌, ◌^◌, ◌≤◌, ◌<◌, min, ◌≡◌, ◌≢◌, refl, sym, ap, ap₂, ◌∙◌,
  subst, subst₂, ◌↔◌, ◌⊎◌, inl, inr, Bool, true, false, not, ◌&&◌, ◌||◌, Option, none, some, List,
  [], ◌∷◌, ◌++◌, map, map-append, append-nil, append_assoc, arith, ltb, leb, ◌==◌, if◌then◌else◌,
  ==→eq, eq_refl, Bool-cases, Option-cases, update, length, get_elem?, take, drop, length-append,
  take-append-drop, length-take, length-drop, has, Distinct, erase, last_or, head_or, All,
  All-append, has-append, has-erase, has-erase_self, erase-Distinct, length-erase, append-Distinct,
  u32, u64, sub64, test_bit, set_bit, clear_bit, lowest_clear, popcount, test_bit-set_bit,
  test_bit-clear_bit, test_bit-zero, lowest_clear_lem, set_bit-lt, clear_bit-le, popcount-le,
  popcount-none, popcount-clear_bit, popcount-full_iff, popcount-eq-zero, ℤ, pos, negsuc, ◌≤ℤ◌,
  ◌<ℤ◌, leb_ℤ, ltb_ℤ, eqb_ℤ, cast_u64, eq_of_parts, eqb_ℤ→eq, eqb_ℤ_refl, Seg, Seg-frame, Seg-split,
  Seg-join, last_or-append, has-last_or, has-split, Distinct-split, append_next, unlink_next,
  unlink_prev, Seg-append_last, Seg-unlink,
}
use titan_hft.Domain.{PriceTick}
use titan_hft.Book.Level.{PriceLevel, default_level}
use titan_hft.Book.Index.{nil, PriceIndex}
use Fixup.{
  Color, black, red, Node, Rb, default_node, set_left, set_right, set_parent, set_color, set_pred,
  set_succ, insert_fixup, transplant, delete_fixup,
}

-- The free list of a pool of `n` nodes: 1, 2, ..., n.
count_up : ℕ → ℕ → List ℕ
count_up zero i = []
count_up (suc n) i = i ∷ count_up n (i + 1)

unfoldable pub create : ℕ → Rb
unfolding count_up
create capacity = record {
  nodes = λ _. default_node;
  free = count_up capacity 1;
  root = nil;
  begin = nil;
  size = 0;
}

unfoldable pub alloc : Rb → Option (Rb × ℕ)
alloc t = elim t.free [
  | [] ↦ none
  | i ∷ rest ↦ some (record t { free = rest; nodes = update t.nodes i default_node }, i)
]

unfoldable pub release : Rb → ℕ → Rb
release t i = record t { free = i ∷ t.free }

module _ (before : PriceTick → PriceTick → Bool) where
  -- The loop of `find`, on fuel.
  find_from : ℕ → Rb → PriceTick → ℕ → ℕ
  find_from zero t price x = nil
  find_from (suc fuel) t price x =
      let k = (t.nodes x).key in
      let next = if before price k then (t.nodes x).left else (t.nodes x).right in
      let rest = find_from fuel t price next in
      if x == nil then nil else if eqb_ℤ price k then x else rest

  unfoldable pub find : Rb → PriceTick → ℕ
  unfolding find_from
  find t price = find_from (t.size + 1) t price t.root

  -- The descent of `try_emplace`: the equal node if there is one, else `nil`; then the last node
  -- visited and the neighbours in order.
  descend : ℕ → Rb → PriceTick → (y x pred succ : ℕ) → ℕ × ℕ × ℕ × ℕ
  descend zero t price y x pred succ = (nil, y, pred, succ)
  descend (suc fuel) t price y x pred succ =
      let k = (t.nodes x).key in
      let lower = descend fuel t price x (t.nodes x).left pred x in
      let upper = descend fuel t price x (t.nodes x).right x succ in
      if x == nil
      then (nil, y, pred, succ)
      else if eqb_ℤ price k
      then (x, x, pred, succ)
      else if before price k
      then lower
      else upper

  -- The new node `z` below `y`, between its neighbours, before the rebalancing.
  attach : Rb → PriceTick → (z y pred succ : ℕ) → Rb
  attach t price z y pred succ =
      let t1 = record t {
        nodes = update t.nodes z (record (t.nodes z) {
          key = price;
          left = nil;
          right = nil;
          parent = y;
          color = red;
          pred = pred;
          succ = succ;
        });
      } in
      let t2 =
        if y == nil
        then record t1 { root = z }
        else if before price (t1.nodes y).key
        then set_left t1 y z
        else set_right t1 y z in
      let t3 = if pred == nil then record t2 { begin = z } else set_succ t2 pred z in
      if succ == nil then t3 else set_pred t3 succ z

  unfoldable pub try_emplace : Rb → PriceTick → Option (Rb × ℕ × Bool)
  unfolding descend attach alloc
  try_emplace t price =
      let (hit, y, pred, succ) = descend (t.size + 1) t price nil t.root nil nil in
      if not (hit == nil) then some (t, hit, false) else elim (alloc t) [
        | none ↦ none
        | some (t1, z) ↦
            let t2 = insert_fixup (t1.size + 2) (attach t1 price z y pred succ) z in
            some (record t2 { size = t2.size + 1 }, z, true)
      ]

  -- Takes `z` out of the neighbour links.
  unfoldable pub unlink : Rb → ℕ → Rb
  unlink t z =
      let p = (t.nodes z).pred in
      let n = (t.nodes z).succ in
      let t1 = if p == nil then record t { begin = n } else set_succ t p n in
      if n == nil then t1 else set_pred t1 n p

  -- Takes `z` out of the tree: the new tree, the node to rebalance from, and the colour that went.
  unfoldable pub detach : Rb → ℕ → Rb × ℕ × Color
  detach t z =
      let zl = (t.nodes z).left in
      let zr = (t.nodes z).right in
      if zl == nil
      then (transplant t z zr, zr, (t.nodes z).color)
      else if zr == nil
      then (transplant t z zl, zl, (t.nodes z).color)
      else let y = (t.nodes z).succ in
        let went = (t.nodes y).color in
        let x = (t.nodes y).right in
        let t1 =
          if (t.nodes y).parent == z
          then set_parent t x y
          else let a = transplant t y (t.nodes y).right in
            let b = set_right a y (a.nodes z).right in set_parent b (b.nodes y).right y in
        let t2 = transplant t1 z y in
        let t3 = set_left t2 y (t2.nodes z).left in
        let t4 = set_parent t3 (t3.nodes y).left y in (set_color t4 y (t4.nodes z).color, x, went)

  abbrev pub is_black : Color → Bool
  is_black Color.black = true
  is_black Color.red = false

  unfoldable pub erase_node : Rb → ℕ → Rb
  unfolding unlink detach release
  erase_node t z =
      if z == nil
      then t
      else let (t1, x, went) = detach (unlink t z) z in
        let t2 = if is_black went then delete_fixup (t1.size + 1) t1 x else t1 in
        let t3 = set_color (set_parent t2 nil nil) nil black in
        let t4 = release t3 z in record t4 { size = t4.size - 1 }

  -- The index as a container of the order book.
  abbrev pub rb_index : PriceIndex
  rb_index = record {
    Index = Rb;
    begin = λ t. t.begin;
    succ = λ t i. (t.nodes i).succ;
    size = λ t. t.size;
    find = find;
    try_emplace = try_emplace;
    erase = erase_node;
    level = λ t i. (t.nodes i).level;
    set_level = λ t i l. record t { nodes = update t.nodes i (record (t.nodes i) { level = l }) };
  }

-- std::less and std::greater on prices.
abbrev pub ask_index : PriceIndex
ask_index = rb_index ltb_ℤ

abbrev pub bid_index : PriceIndex
bid_index = rb_index (λ a b. ltb_ℤ b a)
