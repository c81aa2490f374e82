-- ===== src/Reader/Tests.antt =====
-- The sizes of the header and of a queued event.
use trading_engine.Base.{◌≡◌, refl, [], ◌∷◌}
use trading_engine.Layout.{offsets}
use trading_engine.Reader.{
  zero_header, header_members, BridgeEvent, EventTag, event_members, event_slot_members,
}

header_offsets : offsets 8 0 (header_members zero_header) ≡ 0 ∷ 8 ∷ 12 ∷ 16 ∷ 24 ∷ []
header_offsets = refl

abbrev empty_event : BridgeEvent
empty_event = record { tag = EventTag.tick; data_ = [] }

-- The data stands 64 bytes in, so an event has 192 bytes and its slot 256.
event_offsets : offsets 64 0 (event_members empty_event) ≡ 0 ∷ 64 ∷ 192 ∷ []
event_offsets = refl

event_slot_offsets : offsets 64 0 (event_slot_members empty_event 0) ≡ 0 ∷ 192 ∷ 256 ∷ []
event_slot_offsets = refl
