-- ===== src/Mpmc/Reachable.antt =====
-- The invariant of the queue holds at the start and after every step.
use trading_engine.Base.{
  ℕ, ◌+◌, ◌^◌, ◌≤◌, ◌<◌, ◌≡◌, ◌≢◌, refl, arith, update, update_ne, ℕ_discrete,
}
use trading_engine.Mpmc.{Mem, Pc, Move, capacity, slot, init}
use trading_engine.Mpmc.System.{System, claim, pick, Reach, start, later, start_of}
use trading_engine.Mpmc.Slots.{slot_lt, slot_idem}
use trading_engine.Mpmc.Invariant.{Knows, empty_slot, Inv}
use trading_engine.Mpmc.Invariant.Moves.{
  Bounds, Apart, Move-Knows_self, Move-Knows_other, Move-slots, Move-order,
}
use trading_engine.Mpmc.Invariant.Owners.{one_writer_after, one_reader_after}

module _ {A : Type 0} (k : ℕ) (two : 2 ≤ capacity k) where
  Inv-init : (junk : ℕ → A) → Inv k (init junk) (start_of k junk).pc junk
  Inv-init junk = record {
    order = omega arith;
    room = omega arith;
    slots =
        λ t. empty_slot (slot k t) (slot_idem k t) refl (omega (arith, slot_lt k t)) (omega arith);
    knows = λ _. tt;
    one_writer = λ i j t p q. cc;
    one_reader = λ i j t p q. cc;
  }

  Move-Inv :
      {m m' : Mem A} {pc : ℕ → Pc A} {values : ℕ → A} {p : Pc A} (i : ℕ)
      → m.head + capacity k < 2 ^ 63
      → Inv k m pc values
      → Move k m (pc i) m' p
      → Inv k m' (update pc i p) (claim p values)
  Move-Inv {m} {m'} {pc} {values} {p} i small inv mv = record {
    order = (Move-order k m values bounds mv (inv.knows i)).0;
    room = (Move-order k m values bounds mv (inv.knows i)).1;
    slots = Move-slots k m values bounds mv (inv.knows i);
    knows = λ j. known j;
    one_writer = one_writer_after k m values pc inv.knows i mv inv.one_writer;
    one_reader = one_reader_after k m values pc inv.knows i mv inv.one_reader;
  }
    where
      bounds : Bounds k m values
      bounds = record {
        two = two;
        small = small;
        order = inv.order;
        room = inv.room;
        slots = inv.slots;
      }

      same_pc : (j : ℕ) → i ≡ j → update pc i p j ≡ p
      same_pc j e = ground arith

      apart : (j : ℕ) → i ≢ j → Apart k m values bounds (pc i) (pc j)
      apart j ne = (λ t w v. ne (inv.one_writer i j t w v), λ t w v. ne (inv.one_reader i j t w v))

      known : (j : ℕ) → Knows k m' (claim p values) (update pc i p j)
      known j = elim (ℕ_discrete i j) [
        | yes same ↦ rw (same_pc j same) (Move-Knows_self k m values bounds mv (inv.knows i))
        | no other ↦ rw (update_ne pc i j p other) (
            Move-Knows_other k m values bounds mv (inv.knows i) (pc j) (apart j other)
              (inv.knows j))
      ]

  -- Every reachable state satisfies the invariant.
  pub Reach-Inv : {junk : ℕ → A} {s : System A} → Reach k junk s → Inv k s.mem s.pc s.values
  Reach-Inv {junk} start = Inv-init junk
  Reach-Inv (later r small (pick i mv)) = Move-Inv i small (Reach-Inv r) mv
