-- ===== src/Mpmc/Ordering.antt =====
-- What the acquire and release operations of include/chronos/utils/mpmc_queue.hpp order: which copies into
-- and out of the cells happen before the next access of a thread. A load of `seq` with acquire takes over
-- what its last store with release was given; the accesses of `head_` and `tail_`, which are relaxed, order
-- nothing between threads.
mod Moves
mod Sent
pub mod Copies
use trading_engine.Base.{
  ℕ, ◌+◌, ◌<◌, ◌≡◌, Bool, true, false, ◌&&◌, ◌||◌, ◌==◌, if◌then◌else◌, update,
}
use trading_engine.Mpmc
use trading_engine.Mpmc.{Mem, Pc, Move, slot}
use trading_engine.Mpmc.System.{System, pick, Reach, start, later}

-- A set of copies: of each cell, by their numbers.
abbrev pub View : Type 0
View = ℕ → ℕ → Bool

-- The copies that happen before the next access of each thread, those that the value of each `seq` has been
-- released with, and how many copies of each cell there were.
pub record Views : Type 0 where
  pub held : ℕ → View
  pub sent : ℕ → View
  pub copies : ℕ → ℕ

abbrev pub join : View → View → View
join v w c n = v c n || w c n

abbrev pub with_copy : View → ℕ → ℕ → View
with_copy v cell number c n = if cell == c && number == n then true else v c n

-- `s.seq.load(std::memory_order_acquire)` by thread i.
unfoldable pub acquire : ℕ → ℕ → Views → Views
acquire i cell v = record v { held = update v.held i (join (v.held i) (v.sent cell)) }

-- `s.seq.store(..., std::memory_order_release)`.
unfoldable pub release : ℕ → ℕ → Views → Views
release i cell v = record v { sent = update v.sent cell (v.held i) }

-- The `memcpy`.
unfoldable pub copy : ℕ → ℕ → Views → Views
copy i cell v = record v {
  held = update v.held i (with_copy (v.held i) cell (v.copies cell));
  copies = update v.copies cell (v.copies cell + 1);
}

abbrev pub no_copies : Views
no_copies = record { held = λ i c n. false; sent = λ c d n. false; copies = λ c. 0 }

module _ {A : Type 0} (k : ℕ) where
  abbrev pub effect_on_views : {m m' : Mem A} {p p' : Pc A} → Move k m p m' p' → ℕ → Views → Views
  effect_on_views (Mpmc.push_free {ticket = t} z) i v = acquire i (slot k t) v
  effect_on_views (Mpmc.push_full {ticket = t} z) i v = acquire i (slot k t) v
  effect_on_views (Mpmc.push_late {ticket = t} z) i v = acquire i (slot k t) v
  effect_on_views (Mpmc.push_write {ticket = t}) i v = copy i (slot k t) v
  effect_on_views (Mpmc.push_publish {ticket = t}) i v = release i (slot k t) v
  effect_on_views (Mpmc.pop_ready {ticket = t} z) i v = acquire i (slot k t) v
  effect_on_views (Mpmc.pop_empty {ticket = t} z) i v = acquire i (slot k t) v
  effect_on_views (Mpmc.pop_late {ticket = t} z) i v = acquire i (slot k t) v
  effect_on_views (Mpmc.pop_read {ticket = t}) i v = copy i (slot k t) v
  effect_on_views (Mpmc.pop_release {ticket = t}) i v = release i (slot k t) v
  effect_on_views _ i v = v

  unfoldable pub views_of : {junk : ℕ → A} {s : System A} → Reach k junk s → Views
  views_of start = no_copies
  views_of (later r small (pick i mv)) = effect_on_views mv i (views_of r)
