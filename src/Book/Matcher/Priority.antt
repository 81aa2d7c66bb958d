-- ===== src/Book/Matcher/Priority.antt =====
-- Price-time priority at one price, as a function of the queue alone: what a taker of quantity `q`
-- takes from the orders of a level, oldest first, and what it leaves; and the same for a side.
pub mod Cross
pub mod Crossed
pub mod Report
pub mod Round
pub mod Settle
pub mod Submit
pub mod BookSide
pub mod Sweep
pub mod Swept
mod Tests
use titan_hft.Common.{
  ℕ, zero, suc, ◌+◌, ◌-◌, ◌*◌, ◌/◌, ◌%◌, ◌^◌, ◌≤◌, ◌<◌, min, ◌≡◌, ◌≢◌, refl, sym, ap, ap₂, ◌∙◌,
  subst, subst₂, ◌↔◌, ◌⊎◌, inl, inr, Bool, true, false, not, ◌&&◌, ◌||◌, Option, none, some, List,
  [], ◌∷◌, ◌++◌, map, map-append, append-nil, append_assoc, arith, ltb, leb, ◌==◌, if◌then◌else◌,
  ==→eq, eq_refl, Bool-cases, Option-cases, update, length, get_elem?, take, drop, length-append,
  take-append-drop, length-take, length-drop, has, Distinct, erase, last_or, head_or, All,
  All-append, has-append, has-erase, has-erase_self, erase-Distinct, length-erase, append-Distinct,
  u32, u64, sub64, test_bit, set_bit, clear_bit, lowest_clear, popcount, test_bit-set_bit,
  test_bit-clear_bit, test_bit-zero, lowest_clear_lem, set_bit-lt, clear_bit-le, popcount-le,
  popcount-none, popcount-clear_bit, popcount-full_iff, popcount-eq-zero, ℤ, pos, negsuc, ◌≤ℤ◌,
  ◌<ℤ◌, leb_ℤ, ltb_ℤ, eqb_ℤ, cast_u64, eq_of_parts, eqb_ℤ→eq, eqb_ℤ_refl, Distinct-apart,
  Distinct-append, Distinct-front, Distinct-back, length-le_of_bounded, Seg, Seg-frame, Seg-split,
  Seg-join, last_or-append, has-last_or, has-split, Distinct-split, append_next, unlink_next,
  unlink_prev, Seg-append_last, Seg-unlink,
}
use titan_hft.Domain.{PriceTick, Order, Side, TradeEvent, TradeStatus, is_market}

-- Each order with the quantity that is taken from it.
pub takes : ℕ → List Order → List (Order × ℕ)
takes q [] = []
takes q (o ∷ os) =
    let more = takes (q - o.remaining) os in
    if q == 0 then [] else if leb o.remaining q then (o, o.remaining) ∷ more else (o, q) ∷ []

pub leaves : ℕ → List Order → List Order
leaves q [] = []
leaves q (o ∷ os) =
    let less = leaves (q - o.remaining) os in
    if q == 0
    then o ∷ os
    else if leb o.remaining q
    then less
    else record o { remaining = o.remaining - q } ∷ os

abbrev pub total_remaining : List Order → ℕ
total_remaining [] = 0
total_remaining (o ∷ os) = o.remaining + total_remaining os

abbrev pub IsLive : List Order → Type 0
IsLive os = All (λ (o : Order). 0 < o.remaining) os

abbrev pub fill_events : Order → Bool → List (Order × ℕ) → List TradeEvent
fill_events taker buy fs =
    map
      (λ (maker, q). record {
        taker_id = taker.id;
        maker_id = Order.id maker;
        price = Order.price maker;
        feed_seq = taker.seq;
        quantity = q;
        taker_side = if buy then Side.buy else Side.sell;
        status = TradeStatus.fill;
      })
      fs

abbrev pub total_taken : List (Order × ℕ) → ℕ
total_taken [] = 0
total_taken ((o, q) ∷ fs) = q + total_taken fs

-- The trade counter of a result, which wraps, after `k` more fills.
pub bumped : ℕ → ℕ → ℕ
bumped n zero = n
bumped n (suc k) = bumped (u32 (n + 1)) k

pub bumped_lem : (n k : ℕ) → n < 2 ^ 32 → bumped n k ≡ u32 (n + k)
unfolding bumped
bumped_lem n zero h = ground arith
bumped_lem n (suc k) h = ground (arith, bumped_lem (u32 (n + 1)) k)

pub bumped-add : (n j k : ℕ) → bumped n (j + k) ≡ bumped (bumped n j) k
unfolding bumped
bumped-add n zero k = let e : 0 + k ≡ k = omega arith in ap (bumped n) e
bumped-add n (suc j) k =
    let e : suc j + k ≡ suc (j + k) = omega arith in ap (bumped n) e ∙ bumped-add (u32 (n + 1)) j k

pub bumped_one : (n : ℕ) → bumped n 1 ≡ u32 (n + 1)
unfolding bumped
bumped_one n = refl

pub takes_zero : (os : List Order) → (takes 0 os ≡ []) × (leaves 0 os ≡ os)
unfolding takes leaves
takes_zero [] = (refl, refl)
takes_zero (o ∷ os) = (refl, refl)

-- An order that the taker uses up, and one that uses up the taker.
pub takes_used :
    (q : ℕ) (o : Order) (os : List Order)
    → 0 < q
    → o.remaining ≤ q
    → (takes q (o ∷ os) ≡ (o, o.remaining) ∷ takes (q - o.remaining) os)
      × (leaves q (o ∷ os) ≡ leaves (q - o.remaining) os)
unfolding takes leaves
takes_used q o os h k = ground arith

pub takes_part :
    (q : ℕ) (o : Order) (os : List Order)
    → 0 < q
    → q < o.remaining
    → (takes q (o ∷ os) ≡ (o, q) ∷ [])
      × (leaves q (o ∷ os) ≡ record o { remaining = o.remaining - q } ∷ os)
unfolding takes leaves
takes_part q o os h k = ground arith

-- Quantity is conserved: the taker takes as much as there is, up to what it wants, the level
-- loses just that, and no more orders than it had stay.
pub takes_total :
    (q : ℕ) (os : List Order)
    → (total_taken (takes q os) ≡ min q (total_remaining os))
      × (total_remaining (leaves q os) ≡ total_remaining os - q)
      × (length (leaves q os) ≤ length os)
unfolding takes leaves
takes_total q [] = omega arith
takes_total q (o ∷ os) = ground (arith, takes_total (q - o.remaining) os)

pub leaves-IsLive : (q : ℕ) (os : List Order) → IsLive os → IsLive (leaves q os)
unfolding leaves
leaves-IsLive q [] h = tt
leaves-IsLive q (o ∷ os) h = ground (arith, leaves-IsLive (q - o.remaining) os h.1)

-- A side of the book as its client sees it: the levels in the order of the index, each with its orders.
abbrev pub Quotes : Type 0
Quotes = List (PriceTick × List Order)

abbrev is_nil : List Order → Bool
is_nil [] = true
is_nil (o ∷ os) = false

-- What a taker of `q` takes from a side, down to the last price that it reaches.
pub takes_side : (PriceTick → Bool) → ℕ → Quotes → List (Order × ℕ)
takes_side reach q [] = []
takes_side reach q ((x, os) ∷ ls) =
    let more = takes_side reach (q - total_remaining os) ls in
    if q == 0 then [] else if reach x then takes q os ++ more else []

pub leaves_side : (PriceTick → Bool) → ℕ → Quotes → Quotes
leaves_side reach q [] = []
leaves_side reach q ((x, os) ∷ ls) =
    let less = leaves_side reach (q - total_remaining os) ls in
    if q == 0
    then (x, os) ∷ ls
    else if reach x
    then (if is_nil (leaves q os) then less else (x, leaves q os) ∷ ls)
    else (x, os) ∷ ls

-- The prices that the limit of a taker reaches.
pub reaches : Order → Bool → PriceTick → Bool
reaches o buy x = is_market o.type || (if buy then leb_ℤ x o.price else leb_ℤ o.price x)

pub total_taken-append :
    (fs gs : List (Order × ℕ)) → total_taken (fs ++ gs) ≡ total_taken fs + total_taken gs
total_taken-append [] gs = omega arith
total_taken-append (f ∷ fs) gs = omega (arith, total_taken-append fs gs)

total-live : (os : List Order) → IsLive os → total_remaining os ≡ 0 → os ≡ []
total-live [] h e = refl
total-live (o ∷ os) h e = absurd (omega (arith, h.0))

is_nil-eq : (os : List Order) → is_nil os ≡ true → os ≡ []
is_nil-eq [] e = refl
is_nil-eq (o ∷ os) e = cc

-- A taker that wants nothing takes nothing.
pub side_spent :
    (reach : PriceTick → Bool) (q : ℕ) (ls : Quotes)
    → q ≡ 0
    → (takes_side reach q ls ≡ []) × (leaves_side reach q ls ≡ ls)
unfolding takes_side leaves_side
side_spent reach q [] e = (refl, refl)
side_spent reach q ((x, os) ∷ ls) e = ground arith

pub side_empty :
    (reach : PriceTick → Bool) (q : ℕ)
    → (takes_side reach q [] ≡ []) × (leaves_side reach q [] ≡ [])
unfolding takes_side leaves_side
side_empty reach q = (refl, refl)

module _ (reach : PriceTick → Bool) (q : ℕ) where
  module _ (x : PriceTick) (os : List Order) (ls : Quotes) where
    -- Nor does one that does not reach the best price.
    pub side_out :
        reach x ≡ false
        → (takes_side reach q ((x, os) ∷ ls) ≡ [])
          × (leaves_side reach q ((x, os) ∷ ls) ≡ (x, os) ∷ ls)
    unfolding takes_side leaves_side
    side_out e = ground (arith, e)

    -- The best level uses the taker up.
    pub side_left :
        0 < q
        → reach x ≡ true
        → IsLive os
        → leaves q os ≢ []
        → (takes_side reach q ((x, os) ∷ ls) ≡ takes q os)
          × (leaves_side reach q ((x, os) ∷ ls) ≡ (x, leaves q os) ∷ ls)
          × (q ≤ total_remaining os)
    unfolding takes_side leaves_side
    side_left h e v ne =
        let (_, t, _) = takes_total q os in
        let full : is_nil (leaves q os) ≡ false = elim (Bool-cases (is_nil (leaves q os))) [
          | inr k ↦ k
          | inl k ↦ absurd (ne (is_nil-eq (leaves q os) k))
        ] in
        let some_left : q < total_remaining os = elim (Bool-cases (ltb q (total_remaining os))) [
          | inl k ↦ ground (arith, k)
          | inr k ↦
              absurd (ne (total-live (leaves q os) (leaves-IsLive q os v) (ground (arith, t))))
        ] in
        let done : q - total_remaining os ≡ 0 = omega (arith, some_left) in
        let spent = (side_spent reach (q - total_remaining os) ls done).0 in
        (
          ground (arith, e, spent, append-nil (takes q os)),
          ground (arith, e, full),
          omega (arith, some_left),
        )

    -- The taker uses the best level up.
    pub side_gone :
        0 < q
        → reach x ≡ true
        → leaves q os ≡ []
        → (takes_side reach q ((x, os) ∷ ls)
            ≡ takes q os ++ takes_side reach (q - total_remaining os) ls)
          × (leaves_side reach q ((x, os) ∷ ls) ≡ leaves_side reach (q - total_remaining os) ls)
          × (total_remaining os ≤ q)
    unfolding takes_side leaves_side
    side_gone h e v =
        let (_, t, _) = takes_total q os in
        let gone : is_nil (leaves q os) ≡ true = ap is_nil v in
        (ground (arith, e), ground (arith, e, gone), omega (arith, t, ap total_remaining v))

-- A taker never takes more than it wants.
pub takes_side_bounded :
    (reach : PriceTick → Bool) (q : ℕ) (ls : Quotes) → total_taken (takes_side reach q ls) ≤ q
unfolding takes_side
takes_side_bounded reach q [] = omega arith
takes_side_bounded reach q ((x, os) ∷ ls) =
    let (amount, _, _) = takes_total q os in
    let more = takes_side reach (q - total_remaining os) ls in
    ground (
      arith,
      amount,
      takes_side_bounded reach (q - total_remaining os) ls,
      total_taken-append (takes q os) more,
    )
