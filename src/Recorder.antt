-- ===== src/Recorder.antt =====
-- internal/replay/recorder.go: writing the captured packets to a file. Every method holds the mutex,
-- so it is one step. `os.Create` and the writer of pcapgo are parameters.
pub mod Playback
use undertow.Base.{
  ℕ, String, Bool, true, false, not, Option, none, some, List, [], ◌∷◌, if◌then◌else◌,
}
use undertow.Base.Text.{concat}
use undertow.Packet.{Time}

-- `gopacket.CaptureInfo`, as far as the recorder sets it.
pub record CaptureInfo : Type 0 where
  pub timestamp : Time
  pub capture_length : ℕ
  pub length : ℕ
  pub interface_index : ℕ

-- A captured packet: its metadata and its bytes.
pub record Captured : Type 0 where
  pub metadata : CaptureInfo
  pub bytes : List ℕ

-- A file that is being written: what `os.Create` makes or its error, and the file after a write or
-- after it is closed, with the error.
pub record PcapOps : Type 1 where
  pub File : Type 0
  pub create : String → File × Option String
  pub write_file_header : File → ℕ → ℕ → File × Option String
  pub write_packet : File → CaptureInfo → List ℕ → File × Option String
  pub close : File → File × Option String

module _ (O : PcapOps) where
  -- The pointers `file` and `writer` by whether they are not nil, and the file itself.
  pub record Recorder : Type 0 where
    pub has_file : Bool
    pub has_writer : Bool
    pub file : O.File

  abbrev pub with_header : O.File × Option String → Option String × Option Recorder
  with_header (f, some err) = (some (concat ("writing pcap header: " ∷ err ∷ [])), none)
  with_header (f, none) = (none, some (record { has_file = true; has_writer = true; file = f }))

  abbrev pub with_file : String → ℕ → ℕ → O.File × Option String → Option String × Option Recorder
  with_file filename snaplen link_type (f, some err) =
      (some (concat ("creating record file " ∷ filename ∷ ": " ∷ err ∷ [])), none)
  with_file filename snaplen link_type (f, none) =
      with_header (O.write_file_header f snaplen link_type)

  -- `NewRecorder`: its error, or the recorder.
  unfoldable pub new_recorder : String → ℕ → ℕ → Option String × Option Recorder
  new_recorder filename snaplen link_type = with_file filename snaplen link_type (O.create filename)

  -- `WritePacket`
  unfoldable pub write_packet : Recorder → Captured → Option String × Recorder
  write_packet r pkt =
      let (file, err) = O.write_packet r.file pkt.metadata pkt.bytes in
      if not r.has_writer then (none, r) else (err, record r { file = file })

  -- `Close`
  unfoldable pub close : Recorder → Option String × Recorder
  close r =
      let (file, err) = O.close r.file in
      if r.has_file
      then (err, record { has_file = false; has_writer = false; file = file })
      else (none, r)

  -- The capture loop hands over every packet and passes over errors.
  unfoldable pub write_all : Recorder → List Captured → Recorder
  unfolding write_packet
  write_all r [] = r
  write_all r (p ∷ ps) = write_all (write_packet r p).1 ps
