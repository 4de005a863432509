-- ===== src/Decode/Total.antt =====
-- `DecodePacket`: when it cannot panic, and what a threat alert says.
use undertow.Base.{◌≡◌, true, Option, none, some}
use undertow.Base.Eq.{string_eq}
use undertow.Base.Bytes.{Slice}
use undertow.Tls.Safety.{has_room}

-- There is no application payload, or it is no TLS record of a handshake, or its buffer goes on behind
-- the record.
abbrev HasRoom : Option Slice → Type 0
HasRoom none = Unit
HasRoom (some payload) = has_room payload ≡ true
