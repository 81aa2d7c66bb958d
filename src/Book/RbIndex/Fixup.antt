-- ===== src/Book/RbIndex/Fixup.antt =====
-- include/titan/book/rb_price_index.hpp: the nodes, the rotations and the rebalancing loops. The
-- loops run on fuel.
use titan_hft.Common.{
  ℕ, zero, suc, Bool, true, false, not, ◌&&◌, ◌||◌, List, ◌==◌, if◌then◌else◌, update, pos,
}
use titan_hft.Domain.{PriceTick}
use titan_hft.Book.Level.{PriceLevel, default_level}
use titan_hft.Book.Index.{nil}

pub data Color : Type 0 where
  red black : Color

pub record Node : Type 0 where
  pub key : PriceTick  -- kv.first
  pub level : PriceLevel  -- kv.second
  pub left : ℕ
  pub right : ℕ
  pub parent : ℕ
  pub pred : ℕ
  pub succ : ℕ
  pub color : Color

abbrev pub default_node : Node
default_node = record {
  key = pos 0;
  level = default_level;
  left = nil;
  right = nil;
  parent = nil;
  pred = nil;
  succ = nil;
  color = black;
}

pub record Rb : Type 0 where
  pub nodes : ℕ → Node
  pub free : List ℕ
  pub root : ℕ
  pub begin : ℕ
  pub size : ℕ

-- Writes of one field of one node.
abbrev pub set_left : Rb → ℕ → ℕ → Rb
set_left t i v = record t { nodes = update t.nodes i (record (t.nodes i) { left = v }) }

abbrev pub set_right : Rb → ℕ → ℕ → Rb
set_right t i v = record t { nodes = update t.nodes i (record (t.nodes i) { right = v }) }

abbrev pub set_parent : Rb → ℕ → ℕ → Rb
set_parent t i v = record t { nodes = update t.nodes i (record (t.nodes i) { parent = v }) }

abbrev pub set_pred : Rb → ℕ → ℕ → Rb
set_pred t i v = record t { nodes = update t.nodes i (record (t.nodes i) { pred = v }) }

abbrev pub set_succ : Rb → ℕ → ℕ → Rb
set_succ t i v = record t { nodes = update t.nodes i (record (t.nodes i) { succ = v }) }

abbrev pub set_color : Rb → ℕ → Color → Rb
set_color t i v = record t { nodes = update t.nodes i (record (t.nodes i) { color = v }) }

abbrev pub is_red : Color → Bool
is_red Color.red = true
is_red Color.black = false

-- `N(i).color == RED`
abbrev pub red_at : Rb → ℕ → Bool
red_at t i = is_red (t.nodes i).color

abbrev parent_of : Rb → ℕ → ℕ
parent_of t i = (t.nodes i).parent

unfoldable pub rotate_left : Rb → ℕ → Rb
rotate_left t x =
    let y = (t.nodes x).right in
    let t1 = set_right t x (t.nodes y).left in
    let t2 = if (t1.nodes y).left == nil then t1 else set_parent t1 (t1.nodes y).left x in
    let t3 = set_parent t2 y (t2.nodes x).parent in
    let p = (t3.nodes x).parent in
    let t4 =
      if p == nil
      then record t3 { root = y }
      else if x == (t3.nodes p).left
      then set_left t3 p y
      else set_right t3 p y in
    set_parent (set_left t4 y x) x y

unfoldable pub rotate_right : Rb → ℕ → Rb
rotate_right t x =
    let y = (t.nodes x).left in
    let t1 = set_left t x (t.nodes y).right in
    let t2 = if (t1.nodes y).right == nil then t1 else set_parent t1 (t1.nodes y).right x in
    let t3 = set_parent t2 y (t2.nodes x).parent in
    let p = (t3.nodes x).parent in
    let t4 =
      if p == nil
      then record t3 { root = y }
      else if x == (t3.nodes p).right
      then set_right t3 p y
      else set_left t3 p y in
    set_parent (set_right t4 y x) x y

-- The recolouring below a red uncle `u`; the loop goes on from the grandparent.
unfoldable pub recolor : Rb → (p u gp : ℕ) → Rb
recolor t p u gp = set_color (set_color (set_color t p black) u black) gp red

-- One round of the loop of `insert_fixup` at `z`, whose parent is red.
unfoldable pub insert_round : Rb → ℕ → Rb × ℕ
unfolding recolor
insert_round t z =
    let p = parent_of t z in
    let gp = parent_of t p in
    if p == (t.nodes gp).left
    then (let u = (t.nodes gp).right in
        if red_at t u
        then (recolor t p u gp, gp)
        else let z' = if z == (t.nodes p).right then p else z in
          let t1 = if z == (t.nodes p).right then rotate_left t p else t in
          let t2 = set_color t1 (parent_of t1 z') black in
          let t3 = set_color t2 (parent_of t2 (parent_of t2 z')) red in
          (rotate_right t3 (parent_of t3 (parent_of t3 z')), z'))
    else let u = (t.nodes gp).left in
      if red_at t u
      then (recolor t p u gp, gp)
      else let z' = if z == (t.nodes p).left then p else z in
        let t1 = if z == (t.nodes p).left then rotate_right t p else t in
        let t2 = set_color t1 (parent_of t1 z') black in
        let t3 = set_color t2 (parent_of t2 (parent_of t2 z')) red in
        (rotate_left t3 (parent_of t3 (parent_of t3 z')), z')

unfoldable pub insert_loop : ℕ → Rb → ℕ → Rb
insert_loop zero t z = t
insert_loop (suc fuel) t z =
    let (t', z') = insert_round t z in
    let rest = insert_loop fuel t' z' in if red_at t (parent_of t z) then rest else t

unfoldable pub insert_fixup : ℕ → Rb → ℕ → Rb
unfolding insert_loop insert_round
insert_fixup fuel t z = let t' = insert_loop fuel t z in set_color t' t'.root black

unfoldable pub transplant : Rb → ℕ → ℕ → Rb
transplant t u v =
    let p = (t.nodes u).parent in
    let t1 =
      if p == nil
      then record t { root = v }
      else if u == (t.nodes p).left
      then set_left t p v
      else set_right t p v in
    set_parent t1 v (t1.nodes u).parent

-- One round of the loop of `delete_fixup` at a left child `x`.
unfoldable pub delete_left : Rb → ℕ → Rb × ℕ
delete_left t x =
    let w = (t.nodes (parent_of t x)).right in
    let t1 =
      if red_at t w
      then (let a = set_color t w black in
          let b = set_color a (parent_of a x) red in rotate_left b (parent_of b x))
      else t in
    let w1 = (t1.nodes (parent_of t1 x)).right in
    if not (red_at t1 (t1.nodes w1).left) && not (red_at t1 (t1.nodes w1).right)
    then (set_color t1 w1 red, parent_of t1 x)
    else let t2 =
        if not (red_at t1 (t1.nodes w1).right)
        then (let a = set_color t1 (t1.nodes w1).left black in
            let b = set_color a w1 red in rotate_right b w1)
        else t1 in
      let w2 = (t2.nodes (parent_of t2 x)).right in
      let t3 = set_color t2 w2 (t2.nodes (parent_of t2 x)).color in
      let t4 = set_color t3 (parent_of t3 x) black in
      let t5 = set_color t4 (t4.nodes w2).right black in
      let t6 = rotate_left t5 (parent_of t5 x) in (t6, t6.root)

-- The same at a right child.
unfoldable pub delete_right : Rb → ℕ → Rb × ℕ
delete_right t x =
    let w = (t.nodes (parent_of t x)).left in
    let t1 =
      if red_at t w
      then (let a = set_color t w black in
          let b = set_color a (parent_of a x) red in rotate_right b (parent_of b x))
      else t in
    let w1 = (t1.nodes (parent_of t1 x)).left in
    if not (red_at t1 (t1.nodes w1).right) && not (red_at t1 (t1.nodes w1).left)
    then (set_color t1 w1 red, parent_of t1 x)
    else let t2 =
        if not (red_at t1 (t1.nodes w1).left)
        then (let a = set_color t1 (t1.nodes w1).right black in
            let b = set_color a w1 red in rotate_left b w1)
        else t1 in
      let w2 = (t2.nodes (parent_of t2 x)).left in
      let t3 = set_color t2 w2 (t2.nodes (parent_of t2 x)).color in
      let t4 = set_color t3 (parent_of t3 x) black in
      let t5 = set_color t4 (t4.nodes w2).left black in
      let t6 = rotate_right t5 (parent_of t5 x) in (t6, t6.root)

unfoldable pub delete_loop : ℕ → Rb → ℕ → Rb × ℕ
delete_loop zero t x = (t, x)
delete_loop (suc fuel) t x =
    let (t', x') =
      if x == (t.nodes (parent_of t x)).left then delete_left t x else delete_right t x in
    let rest = delete_loop fuel t' x' in if (x == t.root) || red_at t x then (t, x) else rest

unfoldable pub delete_fixup : ℕ → Rb → ℕ → Rb
unfolding delete_loop delete_left delete_right
delete_fixup fuel t x = let (t', x') = delete_loop fuel t x in set_color t' x' black
