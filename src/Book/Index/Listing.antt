-- ===== src/Book/Index/Listing.antt =====
-- What the clients of a price index rely on: it is a sequence of iterators, each with a level.
use titan_hft.Common.{
  ℕ, ◌≡◌, true, List, ◌==◌, if◌then◌else◌, length, has, Distinct, erase, head_or,
}
use titan_hft.Book.Level.{PriceLevel}
use titan_hft.Book.Index.{nil, PriceIndex}

-- A list without one of its elements.
abbrev without : ℕ → List ℕ → List ℕ
without = erase

pub record Listing (P : PriceIndex) : Type 1 where
  -- The iterators from begin() on.
  pub Lists : P.Index → List ℕ → Type 0
  pub distinct : (m : P.Index) (is : List ℕ) → Lists m is → Distinct is
  pub size : (m : P.Index) (is : List ℕ) → Lists m is → P.size m ≡ length is
  pub begin : (m : P.Index) (is : List ℕ) → Lists m is → P.begin m ≡ head_or nil is
  pub set_level :
      (m : P.Index) (is : List ℕ) (i : ℕ) (l : PriceLevel)
      → Lists m is
      → Lists (P.set_level m i l) is
  pub level-set_level :
      (m : P.Index) (i k : ℕ) (l : PriceLevel)
      → P.level (P.set_level m i l) k ≡ (if k == i then l else P.level m k)
  pub erase :
      (m : P.Index) (is : List ℕ) (i : ℕ)
      → Lists m is
      → has i is ≡ true
      → Lists (P.erase m i) (without i is)
  pub level-erase :
      (m : P.Index) (is : List ℕ) (i k : ℕ)
      → Lists m is
      → has i is ≡ true
      → P.level (P.erase m i) k ≡ P.level m k
