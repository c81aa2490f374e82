-- ===== src/Reader.antt =====
-- The data of include/chronos/logging/log_reader.hpp, and the events that the bridge of
-- include/chronos/logging/zmq_bridge.hpp queues.
mod Tests
use Prim.Native.String.{String}
use trading_engine.Base.{ℕ, Bool, true, false, List, [], ◌∷◌, Option, none, some}
use trading_engine.Base.Int.{ℤ, negsuc}
use trading_engine.Layout.{Member, uint, byte_array}

pub record LogFileHeader : Type 0 where
  pub magic : ℕ
  pub version : ℕ
  pub log_type : ℕ
  pub created_timestamp_us : ℕ

abbrev pub zero_header : LogFileHeader
zero_header = record { magic = 0; version = 0; log_type = 0; created_timestamp_us = 0 }

-- The mapped file is its bytes.
pub record LogReader : Type 0 where
  pub fd : ℤ
  pub mapped_data : Option (List ℕ)
  pub file_size : ℕ
  pub record_size : ℕ
  pub record_count : ℕ
  pub timestamp_offset : ℕ
  pub header : LogFileHeader
  pub filename : String

abbrev pub closed_reader : LogReader
closed_reader = record {
  fd = negsuc 0;
  mapped_data = none;
  file_size = 0;
  record_size = 0;
  record_count = 0;
  timestamp_offset = 0;
  header = zero_header;
  filename = "";
}

abbrev pub is_open : LogReader → Bool
is_open r = elim r.mapped_data [ none ↦ false | some bytes ↦ true ]

pub record LogFileSet : Type 0 where
  pub tick : LogReader
  pub order : LogReader
  pub fill : LogReader

abbrev pub header_members : LogFileHeader → List Member
header_members h =
    uint 8 h.magic ∷ uint 4 h.version ∷ uint 4 h.log_type ∷ uint 8 h.created_timestamp_us ∷ []

pub data EventTag : Type 0 where
  tick order fill : EventTag

abbrev pub tag_code : EventTag → ℕ
tag_code tick = 0
tag_code order = 1
tag_code fill = 2

abbrev pub event_data_size : ℕ
event_data_size = 128

-- `ZMQBridge::Event`.
pub record BridgeEvent : Type 0 where
  pub tag : EventTag
  pub data_ : List ℕ

abbrev pub event_members : BridgeEvent → List Member
event_members e =
    uint 1 (tag_code e.tag)
    ∷ record { alignment = 64; size = event_data_size; bytes = e.data_ }
    ∷ []

-- The queue's `Slot` of such events, with its sequence number.
abbrev pub event_slot_members : BridgeEvent → ℕ → List Member
event_slot_members e seq = record { alignment = 64; size = 192; bytes = [] } ∷ uint 8 seq ∷ []
