-- ===== src/Book/RbIndex/Links.antt =====
-- What the rebalancing of the tree leaves alone: the prices, the levels, the neighbour links and
-- the free list.
use titan_hft.Common.{
  ℕ, zero, suc, ◌≡◌, refl, Bool, true, false, not, ◌&&◌, ◌||◌, arith, ◌==◌, if◌then◌else◌, update,
}
use titan_hft.Book.Index.{nil}
use titan_hft.Book.RbIndex.Fixup.{
  Color, black, red, Node, Rb, set_left, set_right, set_parent, set_color, rotate_left,
  rotate_right, red_at, transplant, delete_left, delete_right, delete_loop, delete_fixup,
}

-- The tree `t'` differs from `t` in children, parents, colours and the root at most.
pub record Kept (t t' : Rb) : Type 0 where
  pub key : (k : ℕ) → (t'.nodes k).key ≡ (t.nodes k).key
  pub level : (k : ℕ) → (t'.nodes k).level ≡ (t.nodes k).level
  pub pred : (k : ℕ) → (t'.nodes k).pred ≡ (t.nodes k).pred
  pub succ : (k : ℕ) → (t'.nodes k).succ ≡ (t.nodes k).succ
  pub free : t'.free ≡ t.free
  pub begin : t'.begin ≡ t.begin
  pub size : t'.size ≡ t.size

pub Kept-refl : (t : Rb) → Kept t t
Kept-refl t = record {
  key = λ k. refl;
  level = λ k. refl;
  pred = λ k. refl;
  succ = λ k. refl;
  free = refl;
  begin = refl;
  size = refl;
}

-- A write to a node that spares its price, level and neighbour links.
node_write-Kept :
    (s t : Rb) (i : ℕ) (n : Node)
    → n.key ≡ (t.nodes i).key
    → n.level ≡ (t.nodes i).level
    → n.pred ≡ (t.nodes i).pred
    → n.succ ≡ (t.nodes i).succ
    → Kept s t
    → Kept s (record t { nodes = update t.nodes i n })
node_write-Kept s t i n a b c d h = record {
  key = λ k. ground (arith, a, h.key k);
  level = λ k. ground (arith, b, h.level k);
  pred = λ k. ground (arith, c, h.pred k);
  succ = λ k. ground (arith, d, h.succ k);
  free = h.free;
  begin = h.begin;
  size = h.size;
}

module _ (s t : Rb) (i : ℕ) where
  pub set_left-Kept : (v : ℕ) → Kept s t → Kept s (set_left t i v)
  set_left-Kept v = node_write-Kept s t i (record (t.nodes i) { left = v }) refl refl refl refl

  pub set_right-Kept : (v : ℕ) → Kept s t → Kept s (set_right t i v)
  set_right-Kept v = node_write-Kept s t i (record (t.nodes i) { right = v }) refl refl refl refl

  pub set_parent-Kept : (v : ℕ) → Kept s t → Kept s (set_parent t i v)
  set_parent-Kept v = node_write-Kept s t i (record (t.nodes i) { parent = v }) refl refl refl refl

  pub set_color-Kept : (v : Color) → Kept s t → Kept s (set_color t i v)
  set_color-Kept v = node_write-Kept s t i (record (t.nodes i) { color = v }) refl refl refl refl

pub set_root-Kept : (s t : Rb) (r : ℕ) → Kept s t → Kept s (record t { root = r })
set_root-Kept s t r h = record {
  key = h.key;
  level = h.level;
  pred = h.pred;
  succ = h.succ;
  free = h.free;
  begin = h.begin;
  size = h.size;
}

pub ite-Kept : (s : Rb) (c : Bool) (t u : Rb) → Kept s t → Kept s u → Kept s (if c then t else u)
ite-Kept s true t u h k = h
ite-Kept s false t u h k = k

pub first-Kept :
    (s : Rb) (c : Bool) (p q : Rb × ℕ) → Kept s p.0 → Kept s q.0 → Kept s (if c then p else q).0
first-Kept s true p q h k = h
first-Kept s false p q h k = k

module _ (s t : Rb) (x : ℕ) where
  pub rotate_left-Kept : Kept s t → Kept s (rotate_left t x)
  unfolding rotate_left
  rotate_left-Kept h =
      let y = (t.nodes x).right in
      let t1 = set_right t x (t.nodes y).left in
      let h1 = set_right-Kept s t x (t.nodes y).left h in
      let t2 = if (t1.nodes y).left == nil then t1 else set_parent t1 (t1.nodes y).left x in
      let h2 =
        ite-Kept s ((t1.nodes y).left == nil) t1 (set_parent t1 (t1.nodes y).left x) h1
          (set_parent-Kept s t1 (t1.nodes y).left x h1) in
      let t3 = set_parent t2 y (t2.nodes x).parent in
      let h3 = set_parent-Kept s t2 y (t2.nodes x).parent h2 in
      let p = (t3.nodes x).parent in
      let side = if x == (t3.nodes p).left then set_left t3 p y else set_right t3 p y in
      let t4 = if p == nil then record t3 { root = y } else side in
      let h4 =
        ite-Kept s (p == nil) (record t3 { root = y }) side (set_root-Kept s t3 y h3)
          (ite-Kept s (x == (t3.nodes p).left) (set_left t3 p y) (set_right t3 p y)
            (set_left-Kept s t3 p y h3) (set_right-Kept s t3 p y h3)) in
      set_parent-Kept s (set_left t4 y x) x y (set_left-Kept s t4 y x h4)

module _ (s t : Rb) (x : ℕ) where
  pub rotate_right-Kept : Kept s t → Kept s (rotate_right t x)
  unfolding rotate_right
  rotate_right-Kept h =
      let y = (t.nodes x).left in
      let t1 = set_left t x (t.nodes y).right in
      let h1 = set_left-Kept s t x (t.nodes y).right h in
      let t2 = if (t1.nodes y).right == nil then t1 else set_parent t1 (t1.nodes y).right x in
      let h2 =
        ite-Kept s ((t1.nodes y).right == nil) t1 (set_parent t1 (t1.nodes y).right x) h1
          (set_parent-Kept s t1 (t1.nodes y).right x h1) in
      let t3 = set_parent t2 y (t2.nodes x).parent in
      let h3 = set_parent-Kept s t2 y (t2.nodes x).parent h2 in
      let p = (t3.nodes x).parent in
      let side = if x == (t3.nodes p).right then set_right t3 p y else set_left t3 p y in
      let t4 = if p == nil then record t3 { root = y } else side in
      let h4 =
        ite-Kept s (p == nil) (record t3 { root = y }) side (set_root-Kept s t3 y h3)
          (ite-Kept s (x == (t3.nodes p).right) (set_right t3 p y) (set_left t3 p y)
            (set_right-Kept s t3 p y h3) (set_left-Kept s t3 p y h3)) in
      set_parent-Kept s (set_right t4 y x) x y (set_right-Kept s t4 y x h4)

module _ (s t : Rb) (u v : ℕ) where
  pub transplant-Kept : Kept s t → Kept s (transplant t u v)
  unfolding transplant
  transplant-Kept h =
      let p = (t.nodes u).parent in
      let side = if u == (t.nodes p).left then set_left t p v else set_right t p v in
      let t1 = if p == nil then record t { root = v } else side in
      let h1 =
        ite-Kept s (p == nil) (record t { root = v }) side (set_root-Kept s t v h)
          (ite-Kept s (u == (t.nodes p).left) (set_left t p v) (set_right t p v)
            (set_left-Kept s t p v h) (set_right-Kept s t p v h)) in
      set_parent-Kept s t1 v (t1.nodes u).parent h1

module _ (s t : Rb) (x : ℕ) where
  delete_left-Kept : Kept s t → Kept s (delete_left t x).0
  unfolding delete_left
  delete_left-Kept h =
      let parent = λ (r : Rb). (r.nodes x).parent in
      let w = (t.nodes (parent t)).right in
      let a = set_color t w black in
      let b = set_color a (parent a) red in
      let rotated = rotate_left b (parent b) in
      let h0 =
        rotate_left-Kept s b (parent b)
          (set_color-Kept s a (parent a) red (set_color-Kept s t w black h)) in
      let t1 = if red_at t w then rotated else t in
      let h1 = ite-Kept s (red_at t w) rotated t h0 h in
      let w1 = (t1.nodes (parent t1)).right in
      let c = set_color t1 (t1.nodes w1).left black in
      let d = set_color c w1 red in
      let turned = rotate_right d w1 in
      let h2 =
        rotate_right-Kept s d w1
          (set_color-Kept s c w1 red (set_color-Kept s t1 (t1.nodes w1).left black h1)) in
      let t2 = if not (red_at t1 (t1.nodes w1).right) then turned else t1 in
      let h3 = ite-Kept s (not (red_at t1 (t1.nodes w1).right)) turned t1 h2 h1 in
      let w2 = (t2.nodes (parent t2)).right in
      let t3 = set_color t2 w2 (t2.nodes (parent t2)).color in
      let h4 = set_color-Kept s t2 w2 (t2.nodes (parent t2)).color h3 in
      let t4 = set_color t3 (parent t3) black in
      let h5 = set_color-Kept s t3 (parent t3) black h4 in
      let t5 = set_color t4 (t4.nodes w2).right black in
      let h6 = set_color-Kept s t4 (t4.nodes w2).right black h5 in
      let t6 = rotate_left t5 (parent t5) in
      let h7 = rotate_left-Kept s t5 (parent t5) h6 in
      first-Kept s (not (red_at t1 (t1.nodes w1).left) && not (red_at t1 (t1.nodes w1).right))
        (set_color t1 w1 red, parent t1) (t6, t6.root) (set_color-Kept s t1 w1 red h1) h7

module _ (s t : Rb) (x : ℕ) where
  delete_right-Kept : Kept s t → Kept s (delete_right t x).0
  unfolding delete_right
  delete_right-Kept h =
      let parent = λ (r : Rb). (r.nodes x).parent in
      let w = (t.nodes (parent t)).left in
      let a = set_color t w black in
      let b = set_color a (parent a) red in
      let rotated = rotate_right b (parent b) in
      let h0 =
        rotate_right-Kept s b (parent b)
          (set_color-Kept s a (parent a) red (set_color-Kept s t w black h)) in
      let t1 = if red_at t w then rotated else t in
      let h1 = ite-Kept s (red_at t w) rotated t h0 h in
      let w1 = (t1.nodes (parent t1)).left in
      let c = set_color t1 (t1.nodes w1).right black in
      let d = set_color c w1 red in
      let turned = rotate_left d w1 in
      let h2 =
        rotate_left-Kept s d w1
          (set_color-Kept s c w1 red (set_color-Kept s t1 (t1.nodes w1).right black h1)) in
      let t2 = if not (red_at t1 (t1.nodes w1).left) then turned else t1 in
      let h3 = ite-Kept s (not (red_at t1 (t1.nodes w1).left)) turned t1 h2 h1 in
      let w2 = (t2.nodes (parent t2)).left in
      let t3 = set_color t2 w2 (t2.nodes (parent t2)).color in
      let h4 = set_color-Kept s t2 w2 (t2.nodes (parent t2)).color h3 in
      let t4 = set_color t3 (parent t3) black in
      let h5 = set_color-Kept s t3 (parent t3) black h4 in
      let t5 = set_color t4 (t4.nodes w2).left black in
      let h6 = set_color-Kept s t4 (t4.nodes w2).left black h5 in
      let t6 = rotate_right t5 (parent t5) in
      let h7 = rotate_right-Kept s t5 (parent t5) h6 in
      first-Kept s (not (red_at t1 (t1.nodes w1).right) && not (red_at t1 (t1.nodes w1).left))
        (set_color t1 w1 red, parent t1) (t6, t6.root) (set_color-Kept s t1 w1 red h1) h7

delete_loop-Kept : (fuel : ℕ) (s t : Rb) (x : ℕ) → Kept s t → Kept s (delete_loop fuel t x).0
unfolding delete_loop
delete_loop-Kept zero s t x h = h
delete_loop-Kept (suc fuel) s t x h =
    let r = if x == (t.nodes (t.nodes x).parent).left then delete_left t x else delete_right t x in
    first-Kept s ((x == t.root) || red_at t x) (t, x) (delete_loop fuel r.0 r.1) h
      (delete_loop-Kept fuel s r.0 r.1 (
        first-Kept s (x == (t.nodes (t.nodes x).parent).left) (delete_left t x) (delete_right t x)
          (delete_left-Kept s t x h) (delete_right-Kept s t x h)))

pub delete_fixup-Kept : (fuel : ℕ) (s t : Rb) (x : ℕ) → Kept s t → Kept s (delete_fixup fuel t x)
unfolding delete_fixup
delete_fixup-Kept fuel s t x h =
    let r = delete_loop fuel t x in set_color-Kept s r.0 r.1 black (delete_loop-Kept fuel s t x h)
