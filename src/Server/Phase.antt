-- ===== src/Server/Phase.antt =====
-- Where the threads of the shutdown cascade stand: none is past its loop before the flag above it
-- is set and its ring is empty.
use titan_hft.Common.{
  ℕ, ◌≡◌, refl, ◌⊎◌, inl, inr, Bool, true, false, not, ◌&&◌, List, [], ◌∷◌, arith,
}
use titan_hft.Sequencer.{Sequencer, stop}
use titan_hft.Server.{EgressSink, sink_flush, Publisher, publisher_flush}
use titan_hft.Server.Cascade.{
  Pc, Gateways, is_finished, is_reported, is_nil, advance, is_taking, end_batch, end_publish,
  end_sequence, after_join, after_report,
}

-- The flag has been seen.
abbrev pub is_late : Pc → Bool
is_late Pc.check_flag = false
is_late Pc.drain = false
is_late _ = true

-- The ring has been seen empty after that.
abbrev pub is_leaving : Pc → Bool
is_leaving Pc.leave = true
is_leaving Pc.finished = true
is_leaving _ = false

abbrev pub is_drain : Pc → Bool
is_drain Pc.drain = true
is_drain _ = false

-- A thread that is late has seen its flag, and one that is leaving an empty ring.
abbrev pub Phase : Pc → (flag nil : Bool) → Type 0
Phase pc flag nil = ((is_late pc && not flag) ≡ false) × ((is_leaving pc && not nil) ≡ false)

pub advance-Phase :
    (flag nil more nil' : Bool) (pc : Pc)
    → (is_taking nil more pc ≡ false → nil' ≡ nil)
    → Phase pc flag nil
    → Phase (advance flag nil more pc) flag nil'
advance-Phase flag nil more nil' Pc.check_flag h p = ground arith
advance-Phase flag nil more nil' Pc.check_ring h p = ground (arith, h refl)
advance-Phase flag nil more nil' Pc.drain h p = ground arith
advance-Phase flag nil more nil' Pc.leave h p = ground (arith, h refl)
advance-Phase flag nil more nil' Pc.finished h p = ground (arith, h refl)

-- A thread stays finished, and one that takes an item is not.
pub advance_finished :
    (flag nil more : Bool) (pc : Pc) → is_finished pc ≡ true → advance flag nil more pc ≡ pc
advance_finished flag nil more Pc.finished e = refl
advance_finished flag nil more Pc.check_flag e = cc
advance_finished flag nil more Pc.check_ring e = cc
advance_finished flag nil more Pc.drain e = cc
advance_finished flag nil more Pc.leave e = cc

-- A thread below: it is not late unless the thread above is finished.
pub below-Phase :
    (nil nil' f f' : Bool) (pc : Pc)
    → (f ≡ true → f' ≡ true)
    → (f ≡ true → nil' ≡ nil)
    → Phase pc f nil
    → Phase pc f' nil'
below-Phase nil nil' f f' Pc.check_flag h k p = ground arith
below-Phase nil nil' f f' Pc.drain h k p = ground arith
below-Phase nil nil' true f' Pc.check_ring h k p = ground (arith, h refl)
below-Phase nil nil' false f' Pc.check_ring h k p = ground arith
below-Phase nil nil' true f' Pc.leave h k p = ground (arith, h refl, k refl)
below-Phase nil nil' false f' Pc.leave h k p = ground arith
below-Phase nil nil' true f' Pc.finished h k p = ground (arith, h refl, k refl)
below-Phase nil nil' false f' Pc.finished h k p = ground arith

pub taking_open :
    (nil more : Bool) (pc : Pc)
    → is_taking nil more pc ≡ true
    → (is_finished pc ≡ false) × ((flag : Bool) → is_drain (advance flag nil more pc) ≡ true)
taking_open nil more Pc.drain e = (refl, λ flag. ground (arith, e))
taking_open nil more Pc.check_flag e = cc
taking_open nil more Pc.check_ring e = cc
taking_open nil more Pc.leave e = cc
taking_open nil more Pc.finished e = cc

pub end_batch_taking : (pc : Pc) (s : EgressSink) → end_batch true pc s ≡ s
end_batch_taking Pc.drain s = refl
end_batch_taking Pc.check_flag s = refl
end_batch_taking Pc.check_ring s = refl
end_batch_taking Pc.leave s = refl
end_batch_taking Pc.finished s = refl

pub end_batch_resting :
    (pc : Pc) (s : EgressSink)
    → ((end_batch false pc s ≡ s) × (is_drain pc ≡ false))
      ⊎ ((end_batch false pc s ≡ sink_flush s) × (is_finished pc ≡ false))
end_batch_resting Pc.drain s = inr (refl, refl)
end_batch_resting Pc.check_flag s = inl (refl, refl)
end_batch_resting Pc.check_ring s = inl (refl, refl)
end_batch_resting Pc.leave s = inl (refl, refl)
end_batch_resting Pc.finished s = inl (refl, refl)

pub end_publish_taking : (pc : Pc) (u : Publisher) → is_drain pc ≡ true → end_publish true pc u ≡ u
end_publish_taking Pc.drain u e = refl
end_publish_taking Pc.check_flag u e = refl
end_publish_taking Pc.check_ring u e = refl
end_publish_taking Pc.leave u e = cc
end_publish_taking Pc.finished u e = refl

pub end_publish_resting :
    (pc : Pc) (u : Publisher)
    → ((end_publish false pc u ≡ u) × (is_drain pc ≡ false))
      ⊎ (end_publish false pc u ≡ publisher_flush u)
end_publish_resting Pc.drain u = inr refl
end_publish_resting Pc.check_flag u = inl (refl, refl)
end_publish_resting Pc.check_ring u = inl (refl, refl)
end_publish_resting Pc.leave u = inr refl
end_publish_resting Pc.finished u = inl (refl, refl)

pub end_sequence_cases :
    (pg : ℕ) (pc : Pc) (q : Sequencer)
    → (end_sequence pg pc q ≡ q) ⊎ ((end_sequence pg pc q ≡ stop pg q) × (is_drain pc ≡ false))
end_sequence_cases pg Pc.drain q = inl refl
end_sequence_cases pg Pc.check_flag q = inl refl
end_sequence_cases pg Pc.check_ring q = inl refl
end_sequence_cases pg Pc.leave q = inr (refl, refl)
end_sequence_cases pg Pc.finished q = inl refl

pub taking-drain : (nil more : Bool) (pc : Pc) → is_taking nil more pc ≡ true → is_drain pc ≡ true
taking-drain nil more Pc.drain e = refl
taking-drain nil more Pc.check_flag e = cc
taking-drain nil more Pc.check_ring e = cc
taking-drain nil more Pc.leave e = cc
taking-drain nil more Pc.finished e = cc

pub finished-Phase :
    (flag nil : Bool) (pc : Pc)
    → Phase pc flag nil
    → is_finished pc ≡ true
    → (flag ≡ true) × (nil ≡ true)
finished-Phase flag nil Pc.finished p e = (ground arith, ground arith)
finished-Phase flag nil Pc.check_flag p e = cc
finished-Phase flag nil Pc.check_ring p e = cc
finished-Phase flag nil Pc.drain p e = cc
finished-Phase flag nil Pc.leave p e = cc

pub finished_settled : (pc : Pc) → is_finished pc ≡ true → is_drain pc ≡ false
finished_settled Pc.finished e = refl
finished_settled Pc.check_flag e = refl
finished_settled Pc.check_ring e = refl
finished_settled Pc.drain e = cc
finished_settled Pc.leave e = refl

pub is_nil-eq {ℓ} : {A : Type ℓ} (xs : List A) → is_nil xs ≡ true → xs ≡ []
is_nil-eq [] e = refl
is_nil-eq (x ∷ xs) e = cc

pub join_reported : (g : Gateways) → is_reported g ≡ true → is_reported (after_join g) ≡ true
join_reported Gateways.running e = cc
join_reported Gateways.joined e = cc
join_reported Gateways.reported e = refl

pub report_reported : (g : Gateways) → is_reported g ≡ true → is_reported (after_report g) ≡ true
report_reported Gateways.running e = cc
report_reported Gateways.joined e = cc
report_reported Gateways.reported e = refl
