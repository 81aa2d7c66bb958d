-- ===== src/Sequencer/Stamp.antt =====
-- The write-ahead invariant: the log and the ingress ring receive the same orders, in the same
-- order, stamped with consecutive numbers, and a full log ends the process.
use titan_hft.Common.{
  ℕ, ◌+◌, ◌%◌, ◌^◌, ◌≤◌, ◌<◌, ◌≡◌, refl, sym, ap₂, ◌∙◌, inl, inr, none, some, List, [], ◌∷◌, ◌++◌,
  append-nil, append_assoc, arith, leb, ◌==◌, Bool-cases, length, u32, u64,
}
use titan_hft.Domain.{Order}
use titan_hft.Journal.{ms_async, ms_sync}
use titan_hft.Journal.Records.{records, append_refines, sync_dirty_keeps}
use titan_hft.Sequencer.{Sequencer, cadence, batch_end, publish, publish_all}

-- The orders as they are stamped from `n` on.
abbrev pub stamp : ℕ → List Order → List Order
stamp n [] = []
stamp n (o ∷ os) = record o { seq = n } ∷ stamp (n + 1) os

-- What the cadence leaves alone.
abbrev pub Keeps : Sequencer → Sequencer → Type 0
Keeps s s' =
    (records s'.journal ≡ records s.journal)
    × (s'.journal.header.count ≡ s.journal.header.count)
    × (s'.journal.capacity ≡ s.journal.capacity)
    × (s'.ingress ≡ s.ingress)
    × (s'.next_seq ≡ s.next_seq)

module _ (pg : ℕ) where
  batch_end-Keeps : (s : Sequencer) → Keeps s (batch_end pg s)
  unfolding batch_end
  batch_end-Keeps s =
      let (r, c, k, _) = sync_dirty_keeps pg s.journal ms_async in
      let (r', c', k', _) = sync_dirty_keeps pg s.journal ms_sync in
      elim (Bool-cases (s.sync_every == 0)) [
        | inl e ↦ rw e (r, c, k, refl, refl)
        | inr e ↦ elim (Bool-cases (u64 (s.flush_no + 1) % s.sync_every == 0)) [
          | inl f ↦ rw (e, f) (r', c', k', refl, refl)
          | inr f ↦ rw (e, f) (r, c, k, refl, refl)
        ]
      ]

  cadence-Keeps : (s : Sequencer) → Keeps s (cadence pg s)
  unfolding cadence
  cadence-Keeps s = elim (Bool-cases (leb s.flush_interval (u32 (s.since_flush + 1)))) [
    | inl e ↦ rw e (batch_end-Keeps (record s { since_flush = 0 }))
    | inr e ↦ rw e (refl, refl, refl, refl, refl)
  ]

  -- One order, while the log has room.
  pub record Published (s s' : Sequencer) (os : List Order) : Type 0 where
    pub journaled : records s'.journal ≡ records s.journal ++ stamp s.next_seq os
    pub forwarded : s'.ingress ≡ s.ingress ++ stamp s.next_seq os
    pub count : s'.journal.header.count ≡ s.journal.header.count + length os
    pub next : s'.next_seq ≡ s.next_seq + length os
    pub same_capacity : s'.journal.capacity ≡ s.journal.capacity

  pub publish_lem :
      (s : Sequencer) (o : Order)
      → s.journal.capacity < 2 ^ 64
      → s.next_seq + 1 < 2 ^ 64
      → s.journal.header.count < s.journal.capacity
      → (s' : Sequencer) × (publish pg s o ≡ some s') × Published s s' (o ∷ [])
  unfolding publish
  publish_lem s o w n room = elim (append_refines s.journal (record o { seq = s.next_seq }) w) [
    | inr (full, _) ↦ absurd (omega arith)
    | inl (_, (j, e, r, c, k, _)) ↦
        let stamped = record o { seq = s.next_seq } in
        let s1 : Sequencer = record s {
          next_seq = u64 (s.next_seq + 1);
          journal = j;
          ingress = s.ingress ++ stamped ∷ [];
        } in
        let (kr, kc, kk, ki, kn) = cadence-Keeps s1 in
        rw (e, publish)
          (
            cadence pg s1,
            refl,
            record {
              journaled = kr ∙ r;
              forwarded = ki;
              count = kc ∙ c;
              next = kn ∙ omega arith;
              same_capacity = kk ∙ k;
            },
          )
  ]

  -- While the log has room (of a capacity below 2^64) and the stamps stay below 2^64, every order is logged and passed to the ingress ring, each in the same
  -- order with the same stamps, which count up by one from the next number.
  pub publish_all_lem :
      (s : Sequencer) (os : List Order)
      → s.journal.capacity < 2 ^ 64
      → s.next_seq + length os < 2 ^ 64
      → s.journal.header.count + length os ≤ s.journal.capacity
      → (s' : Sequencer) × (publish_all pg s os ≡ some s') × Published s s' os
  unfolding publish_all
  publish_all_lem s [] w n room = (
    s,
    refl,
    record {
      journaled = sym (append-nil (records s.journal));
      forwarded = sym (append-nil s.ingress);
      count = omega arith;
      next = omega arith;
      same_capacity = refl;
    },
  )
  publish_all_lem s (o ∷ os) w n room =
      let (s1, e1, p) = publish_lem s o w (omega arith) (omega arith) in
      let (s2, e2, q) =
        publish_all_lem s1 os (omega (arith, p.same_capacity)) (omega (arith, p.next))
          (omega (arith, p.same_capacity, p.count)) in
      rw (e1, publish_all)
        (
          s2,
          e2,
          record {
            journaled =
                q.journaled
                ∙ ap₂ (λ l k. l ++ stamp k os) p.journaled p.next
                ∙ append_assoc (records s.journal) (stamp s.next_seq (o ∷ []))
                    (stamp (s.next_seq + 1) os);
            forwarded =
                q.forwarded
                ∙ ap₂ (λ l k. l ++ stamp k os) p.forwarded p.next
                ∙ append_assoc s.ingress (stamp s.next_seq (o ∷ [])) (stamp (s.next_seq + 1) os);
            count = omega (arith, q.count, p.count);
            next = omega (arith, q.next, p.next);
            same_capacity = q.same_capacity ∙ p.same_capacity;
          },
        )

  -- More orders than the log has room for (its capacity and the stamps below 2^64) end the process.
  pub publish_all-full :
      (s : Sequencer) (os : List Order)
      → s.journal.capacity < 2 ^ 64
      → s.next_seq + length os < 2 ^ 64
      → s.journal.header.count ≤ s.journal.capacity
      → s.journal.capacity < s.journal.header.count + length os
      → publish_all pg s os ≡ none
  unfolding publish_all publish
  publish_all-full s [] w n le over = absurd (omega arith)
  publish_all-full s (o ∷ os) w n le over =
      elim (append_refines s.journal (record o { seq = s.next_seq }) w) [
        | inr (full, e) ↦ rw (e, publish, publish_all) refl
        | inl (room, _) ↦
            let (s1, e1, p) = publish_lem s o w (omega arith) room in
            rw (e1, publish_all)
              (publish_all-full s1 os (omega (arith, p.same_capacity)) (omega (arith, p.next))
                (omega (arith, p.same_capacity, p.count)) (omega (arith, p.same_capacity, p.count)))
      ]
