-- ===== src/Tests/Capture.antt =====
-- A task that writes with a capture, on a target that does not take the data at once.
use woeful.Base.{
  some, if◌then◌else◌, ltb, arith, ◌≡◌, refl, Option, true, [], ◌∷◌, Bytes, ok, codes, length,
}
use woeful.Base.Map.{find}
use woeful.Config.{WoefulConfig, default_config}
use woeful.System.Calls.{Os, Trace, fd_polled, fd_written, WriteResult}
use woeful.Packets.{WispPacket}
use woeful.Manager.{write_loop, run_task}
use woeful.Manager.Writing.{refusals, Relents, Settled, run_task-Settled}
use woeful.Tests.Streams.{test_manager, dry_stream}
use woeful.Pcap.{PcapInterface, open_pcap}
use woeful.Pcap.Capture.{Captures, captured_write_loop}
use woeful.Pcap.Capture.Attempts.{Follows, captured_write_loop-Follows}
use woeful.Tests.World.{calm_os}
use woeful.Tests.Files.{test_pcpp}

-- The second attempt writes.
abbrev late_write : Trace → Bytes → WriteResult
late_write (fd_polled a b ∷ fd_written c d e ∷ t) bytes = WriteResult.written (length bytes)
late_write t bytes = WriteResult.again

abbrev late_os : Os
late_os = record calm_os { write = λ t fd bytes. late_write t bytes }

abbrev capture_config : WoefulConfig
capture_config = record default_config { pcap_capture = true }

abbrev one_capture : PcapInterface
one_capture = open_pcap test_pcpp (codes "10.0.0.2") 80

abbrev captures : Captures
captures = record { streams = (9, (codes "a.pcap", one_capture)) ∷ []; closed = []; pcap_iter = 1 }

captured_write_loop-Follows_example :
    (r : Option (Captures × Trace)) × (captured_write_loop test_pcpp capture_config late_os 3 9 7
        (codes "hi")
        captures
        []
      ≡ ok r)
    × Follows test_pcpp 9
        (codes "hi")
        (codes "a.pcap")
        one_capture
        []
        r
        (write_loop late_os 3 7 (codes "hi") [])
unfolding find
captured_write_loop-Follows_example =
    captured_write_loop-Follows test_pcpp capture_config late_os 3 9 7 (codes "hi") (codes "a.pcap")
      one_capture captures [] refl refl

-- A system that refuses once.
abbrev once_os : Os
once_os = record calm_os {
  write = λ t fd bytes.
      if ltb (refusals fd t) 1 then WriteResult.again else WriteResult.written (length bytes);
}

once_os-Relents : Relents once_os 1
once_os-Relents t fd bytes h = ground (arith, h)

find-dry : find 11 test_manager.streams ≡ some dry_stream
unfolding find
find-dry = refl

abbrev data_eleven : WispPacket
data_eleven = record { packet_type = 2; stream_id = 11; bytes = codes "hi" }

run_task-Settled_example :
    (t' : Trace) × (run_task once_os 2 data_eleven test_manager [] ≡ ok (some t'))
    × Settled 8 (codes "hi") t'
run_task-Settled_example =
    run_task-Settled once_os 1 data_eleven test_manager dry_stream [] once_os-Relents find-dry
