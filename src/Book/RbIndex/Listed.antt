-- ===== src/Book/RbIndex/Listed.antt =====
-- The Red-Black index as a sequence: the neighbour links list its nodes, and `erase_node` takes one
-- out whatever the tree looks like.
use titan_hft.Common.{
  ℕ, ◌+◌, ◌-◌, ◌≡◌, refl, sym, ap, ◌∙◌, subst, inl, inr, Bool, true, false, List, [], ◌∷◌, arith,
  ◌==◌, if◌then◌else◌, ==→eq, Bool-cases, update, length, has, Distinct, erase, last_or, head_or,
  has-erase, erase-Distinct, length-erase, Seg, Seg-frame, unlink_next, unlink_prev, Seg-unlink,
}
use titan_hft.Domain.{PriceTick}
use titan_hft.Book.Level.{PriceLevel}
use titan_hft.Book.Index.{nil}
use titan_hft.Book.Index.Listing.{Listing}
use titan_hft.Book.RbIndex.Fixup.{
  Rb, black, set_left, set_right, set_parent, transplant, delete_fixup,
}
use titan_hft.Book.RbIndex.Links.{
  Kept, Kept-refl, ite-Kept, set_left-Kept, set_right-Kept, set_parent-Kept, set_color-Kept,
  transplant-Kept, delete_fixup-Kept,
}
use titan_hft.Book.RbIndex.{rb_index, unlink, detach, erase_node, is_black, release}

-- From the first node, the links lead through the nodes `is`, and no further.
pub record IsListed (t : Rb) (is : List ℕ) : Type 0 where
  pub chain : Seg (λ i. (t.nodes i).succ) (λ i. (t.nodes i).pred) nil t.begin is nil
  pub distinct : Distinct is
  pub live : has nil is ≡ false
  pub size : t.size ≡ length is

module _ (before : PriceTick → PriceTick → Bool) where
  detach-Kept : (t : Rb) (z : ℕ) → Kept t (detach before t z).0
  unfolding detach
  detach-Kept t z =
      let zl = (t.nodes z).left in
      let zr = (t.nodes z).right in
      let k = Kept-refl t in
      elim (Bool-cases (zl == nil)) [
        | inl e ↦ rw e (transplant-Kept t t z zr k)
        | inr e ↦ elim (Bool-cases (zr == nil)) [
          | inl f ↦ rw (e, f) (transplant-Kept t t z zl k)
          | inr f ↦
              let y = (t.nodes z).succ in
              let x = (t.nodes y).right in
              let a = transplant t y x in
              let b = set_right a y (a.nodes z).right in
              let near = set_parent t x y in
              let far = set_parent b (b.nodes y).right y in
              let t1 = if (t.nodes y).parent == z then near else far in
              let h1 = ite-Kept t ((t.nodes y).parent == z) near far (set_parent-Kept t t x y k) (
                set_parent-Kept t b (b.nodes y).right y
                  (set_right-Kept t a y (a.nodes z).right (transplant-Kept t t y x k))) in
              let t2 = transplant t1 z y in
              let t3 = set_left t2 y (t2.nodes z).left in
              let t4 = set_parent t3 (t3.nodes y).left y in
              rw (e, f)
                (set_color-Kept t t4 y (t4.nodes z).color (
                  set_parent-Kept t t3 (t3.nodes y).left y
                    (set_left-Kept t t2 y (t2.nodes z).left (transplant-Kept t t1 z y h1))))
        ]
      ]

-- The neighbours of `z` after `unlink`.
record Unlinked (t : Rb) (z : ℕ) (u : Rb) : Type 0 where
  level : (k : ℕ) → (u.nodes k).level ≡ (t.nodes k).level
  succ :
      (k : ℕ)
      → (u.nodes k).succ
        ≡ unlink_next (λ i. (t.nodes i).succ) nil (t.nodes z).pred (t.nodes z).succ k
  pred :
      (k : ℕ)
      → (u.nodes k).pred
        ≡ unlink_prev (λ i. (t.nodes i).pred) nil (t.nodes z).pred (t.nodes z).succ k
  begin : u.begin ≡ (if (t.nodes z).pred == nil then (t.nodes z).succ else t.begin)
  size : u.size ≡ t.size

module _ (before : PriceTick → PriceTick → Bool) where
  unlink_lem : (t : Rb) (z : ℕ) → Unlinked t z (unlink before t z)
  unfolding unlink
  unlink_lem t z = record {
    level = λ k. ground arith;
    succ = λ k. ground arith;
    pred = λ k. ground arith;
    begin = ground arith;
    size = ground arith;
  }

  erase_node-Unlinked :
      (t : Rb) (z : ℕ)
      → (z == nil) ≡ false
      → let u = erase_node before t z in
        Unlinked t z (record u { size = t.size }) × (u.size ≡ t.size - 1)
  unfolding erase_node release
  erase_node-Unlinked t z h =
      let u = unlink before t z in
      let v = unlink_lem t z in
      let (t1, x, went) = detach before u z in
      let h1 = detach-Kept before u z in
      let fixed = delete_fixup (t1.size + 1) t1 x in
      let t2 = if is_black before went then fixed else t1 in
      let h2 =
        ite-Kept u (is_black before went) fixed t1 (delete_fixup-Kept (t1.size + 1) u t1 x h1) h1 in
      let h3 =
        set_color-Kept u (set_parent t2 nil nil) nil black (set_parent-Kept u t2 nil nil h2) in
      rw h (
        record {
          level = λ k. h3.level k ∙ v.level k;
          succ = λ k. h3.succ k ∙ v.succ k;
          pred = λ k. h3.pred k ∙ v.pred k;
          begin = h3.begin ∙ v.begin;
          size = refl;
        },
        ap (λ n. n - 1) (h3.size ∙ v.size),
      )

  -- erase_node of a listed node takes that node out of the sequence that begin() and the
  -- neighbour links give, whatever the order of prices and the shape of the tree, and no level
  -- changes.
  pub erase_node-IsListed :
      (t : Rb) (is : List ℕ) (z : ℕ)
      → IsListed t is
      → has z is ≡ true
      → IsListed (erase_node before t z) (erase z is)
        × ((k : ℕ) → ((erase_node before t z).nodes k).level ≡ (t.nodes k).level)
  erase_node-IsListed t is z v h =
      let some_node : (z == nil) ≡ false = elim (Bool-cases (z == nil)) [
        | inr e ↦ e
        | inl e ↦ absurd (ground (arith, v.live, subst (λ k. has k is ≡ true) (==→eq z nil e) h))
      ] in
      let (u, n) = erase_node-Unlinked t z some_node in
      let r = erase_node before t z in
      let (c, _) =
        Seg-unlink (λ i. (t.nodes i).succ) (λ i. (t.nodes i).pred) nil t.begin is z (last_or nil is)
          v.distinct v.live h refl v.chain in
      (
        record {
          chain =
              subst
                (λ b. Seg (λ i. (r.nodes i).succ) (λ i. (r.nodes i).pred) nil b (erase z is) nil)
                (sym u.begin)
                (Seg-frame _ _ (λ i. (r.nodes i).succ) (λ i. (r.nodes i).pred) nil _ (erase z is)
                  nil (λ k _. (u.succ k, u.pred k)) c);
          distinct = erase-Distinct z is v.distinct;
          live = has-erase z nil is (λ e. ground (arith, e)) ∙ v.live;
          size = omega (arith, n, v.size, length-erase z is h);
        },
        λ k. u.level k,
      )

abbrev written : (t : Rb) (i : ℕ) (l : PriceLevel) → Rb
written t i l = record t { nodes = update t.nodes i (record (t.nodes i) { level = l }) }

written-IsListed :
    (t : Rb) (is : List ℕ) (i : ℕ) (l : PriceLevel) → IsListed t is → IsListed (written t i l) is
written-IsListed t is i l v = record {
  chain =
      Seg-frame _ _ (λ k. ((written t i l).nodes k).succ) (λ k. ((written t i l).nodes k).pred) nil
        t.begin is nil (λ k _. (ground arith, ground arith)) v.chain;
  distinct = v.distinct;
  live = v.live;
  size = v.size;
}

begin_lem : (t : Rb) (is : List ℕ) → IsListed t is → t.begin ≡ head_or nil is
begin_lem t [] v = v.chain
begin_lem t (i ∷ is) v = v.chain.0

-- The Red-Black index keeps the promises of a price index, for either order of prices.
pub rb_listing : (before : PriceTick → PriceTick → Bool) → Listing (rb_index before)
rb_listing before = record {
  Lists = IsListed;
  distinct = λ m is v. v.distinct;
  size = λ m is v. v.size;
  begin = begin_lem;
  set_level = written-IsListed;
  level-set_level = λ m i k l. ground arith;
  erase = λ m is i v h. (erase_node-IsListed before m is i v h).0;
  level-erase = λ m is i k v h. (erase_node-IsListed before m is i v h).1 k;
}

pub rb_lists :
    (before : PriceTick → PriceTick → Bool) (t : Rb) (is : List ℕ)
    → IsListed t is
    → (rb_listing before).Lists t is
unfolding rb_listing
rb_lists before t is v = v
