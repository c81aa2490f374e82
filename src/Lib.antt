-- ===== src/Lib.antt =====
-- A verification library for a trading engine: the lock-free queue between its threads, the
-- sequence lock and the double buffer of its shared data, the grid strategy, the order ids, the
-- log buffer, the gateway wrapper, and the program that puts them together. The engine itself is
-- linked as a library of which the repository holds the headers, so the models are of the code
-- that stands in headers (include/chronos) and of the two programs (src, tools).
--
-- The parts. Market data comes in as ticks through a queue (Mpmc); the engine hands each to the
-- strategies (Grid), which submit orders through a context; an order gets an id (Ids) and is
-- checked against the risk parameters (Risk, read by Seqlock), goes through a queue to the order
-- gateway, and comes back as a fill. The log (Log) records them. The program (App, Main) reads
-- its settings and starts and stops these parts; a live market reaches it through a wrapper of
-- adapters (Gateway).
--
-- Which file models which code:
-- Base: lists, functions updated at a point, integers, bit masks and tests on the native numbers.
-- Core: include/chronos/core/types.hpp and error.hpp. Enums has the enumerations and `toString`;
--   Numbers the interface of `double` and of the fixed-point `Decimal` (the third-party fpm) with
--   `toDecimal` and `toDouble`; Structs the records with their constructors; Positions the
--   queries of `Position` and the data of include/chronos/trading/position_manager.hpp; Whole an
--   instance of the numbers to evaluate on.
-- Config: include/chronos/core/config.hpp, the structures and their constructors.
-- Mpmc: include/chronos/utils/mpmc_queue.hpp. `Mem` is the class's members, `Pc` where a
--   thread stands in `try_push` or `try_pop`, `Move` one access of shared memory by one thread.
--   System puts any number of threads together; Slots, Invariant and Reachable carry the
--   invariant; Refine has the bounded first-in first-out queue; Safety what a client relies on;
--   History all values that go through, and Conserved where each of them is; Progress a thread
--   that runs alone or among others; Admitted the assertion on N; Calls whole calls without
--   interference; Schedule runs schedules; Sizes lets other threads go on inside `size`;
--   Ordering follows what acquire and release order.
-- Seqlock: `readHotDataOptimistic` of include/chronos/market_data/orderbook_v2.hpp and
--   `readHotParamsOptimistic` and the write of `publishParams` of
--   include/chronos/risk/risk_engine.hpp. `Write` and `Read` are one access of the writer and of
--   a reader; the retry bound is a parameter, none for the order book and 100 for the risk
--   engine. Released lets the stores of a write, and Acquired the loads of a read, come in
--   another order, as far as their orderings allow.
-- Risk: the parameters of include/chronos/risk/risk_engine.hpp: `publish_params` is
--   `publishParams`, `swap_cold_buffers` is `swapColdBuffers`, as whole calls; Accesses takes the
--   calls apart into accesses of the sequence lock. State has the counters of its checks and the
--   rate limiter.
-- Book: the structures of include/chronos/market_data/orderbook_v2.hpp and `ColdData::clear`;
--   First those of include/chronos/market_data/orderbook.hpp.
-- Layout: the bytes of the records of include/chronos/core/types.hpp that are logged as they
--   stand in memory: `order_members` and its like list the members of a class, `object_bytes`
--   lays them out; Readers reads them back by the offsets of the source's comments; Raw takes
--   decimals to raw values.
-- Ids: include/chronos/trading/order_id_generator.hpp. Log: `appendToBuffer` of
--   include/chronos/logging/log_writer.hpp, for bytes (Append) and for records (Records), and its
--   data (Writer). Reader: the data of include/chronos/logging/log_reader.hpp and the queued
--   events of zmq_bridge.hpp.
-- Execution: the structures of include/chronos/execution/order_gateway.hpp and
--   execution_handler.hpp.
-- Engine: the members and inline operations of include/chronos/trading/strategy_engine.hpp on the
--   queues, with Drops for ticks that come too fast; Handles those of
--   include/chronos/trading/strategy.hpp.
-- Exchange: what stands inline in include/chronos/io and in
--   include/chronos/market_data/gateway.hpp.
-- Monitor: include/chronos/monitoring/health_monitor.hpp. Backtest: include/chronos/backtest.
--   Affinity: include/chronos/utils/cpu_affinity.hpp, for each system it is built for.
-- Grid: include/chronos/strategies/grid_strategy.hpp over the interface `Context` of the strategy
--   context. Ticks is `onTick`, Timers `onTimer`, Fills `onFill`; `construct` is the constructor;
--   Sessions any sequence of these callbacks: Histories over what the context promises of its ids,
--   Orders, Cancels and Accounts over a context that also keeps what the strategy submits and
--   cancels; Counts what its counters count.
-- Gateway: include/chronos/market_data/any_gateway.hpp and adapter_concept.hpp.
-- App: src/app_config.hpp over the interfaces `Flags` (gflags) and `Yaml` (yaml-cpp); Load is
--   `loadConfig`.
-- Main: src/main.cpp as traces of calls; Replay is `runFileReplay`, Live `runLive`. What the
--   linked library answers is a host.
-- Demo: tools/generate_demo_logs.cpp; Logged puts its records into the buffers of Log.
--
-- Bounds. Counters and versions wrap at 2 ^ 64 as in the code. The executions of the queue are
-- those whose tickets stay below 2 ^ 63, where the signed difference of tickets is exact: at a
-- billion pushes a second that is centuries. Those of the sequence lock are those whose version
-- does not wrap. Fuel is taken by the replay loop and by whole calls of the queue; the theorems
-- about them say how much is enough: more than the turns until the replay stops, and one round of
-- a call.
--
-- Not modelled. Memory is sequentially consistent, but for Seqlock/Released and
-- Seqlock/Acquired, so what relaxed loads may miss is not examined; Mpmc/Ordering only follows,
-- along such executions, what the orderings that the atomics ask for order. The bodies that are
-- not in the repository (risk checks, order book updates, position keeping, order gateway, log
-- files, replayer, protocols, exchange clients) are parameters where a model uses them and
-- absent elsewhere. The numbers of `double` and `Decimal` are an interface, and rounding is not
-- examined. Printed lines are modelled by their labels and numbers; sleeping is left out. The
-- layout of objects takes integers to be stored with their lowest byte first.
pub mod Base
pub mod Core
pub mod Layout
pub mod Config
pub mod Mpmc
pub mod Seqlock
pub mod Risk
pub mod Book
pub mod Ids
pub mod Log
pub mod Grid
pub mod Gateway
pub mod Execution
pub mod App
pub mod Main
pub mod Demo
pub mod Backtest
pub mod Reader
pub mod Monitor
pub mod Exchange
pub mod Affinity
pub mod Engine
