-- ===== src/Pcap/Capture.antt =====
-- src/websocketManager.cpp and src/websocketManager.h, the blocks under `#ifdef PCAP`: the captures
-- of the streams of a manager in a build with PCAP.
pub mod Attempts
use woeful.Base.{
  ℕ, zero, suc, Bool, true, false, Option, none, some, List, [], ◌∷◌, if◌then◌else◌, Bytes, Result,
  ok, ◌>>=◌, or_fault, bad_iterator,
}
use woeful.Base.Map.{Map, find, insert, erase}
use woeful.Config.{WoefulConfig}
use woeful.System.Calls.{Os, Trace, fd_polled, fd_written, WriteResult}
use woeful.Pcap.{
  Pcpp, Frame, PcapInterface, open_stream_pcap, close_pcap, write_dummy_user, write_dummy_target,
}

-- The field `pcap` of each stream, with the name of its file, what the files that were closed hold,
-- and `pcap_iter`.
pub record Captures : Type 0 where
  pub streams : Map (Bytes × PcapInterface)
  pub closed : List (Bytes × List Frame)
  pub pcap_iter : ℕ

module _ (pcpp : Pcpp) (conf : WoefulConfig) where
  -- In `handle_connect`, with the time and what `inet_ntop` made of the address. An entry that is
  -- there is written over, and its capture is not closed.
  unfoldable pub capture_connect : ℕ → Bytes → ℕ → ℕ → Captures → Captures
  unfolding open_stream_pcap
  capture_connect time str stream_id destination_port c =
      if conf.pcap_capture
      then (let (file, iter, pcap) = open_stream_pcap pcpp time c.pcap_iter str destination_port in
          record c { streams = insert stream_id (file, pcap) c.streams; pcap_iter = iter })
      else c

  -- In `close_stream`: `delete`, which does nothing for a null pointer.
  unfoldable pub capture_close : ℕ → Captures → Captures
  unfolding close_pcap
  capture_close stream_id c = elim conf.pcap_capture [
    | true ↦ elim (find stream_id c.streams) [
      | none ↦ c
      | some (file, pcap) ↦ record c {
        streams = erase stream_id c.streams;
        closed = (file, close_pcap pcap) ∷ c.closed;
      }
    ]
    | false ↦ c
  ]

  -- A write to the capture of a stream, which uses the iterator as it is.
  unfoldable pub capture_write : (PcapInterface → PcapInterface) → ℕ → Captures → Result Captures
  capture_write write stream_id c = elim conf.pcap_capture [
    | true ↦ do
      entry ← or_fault (find stream_id c.streams) bad_iterator
      ok (record c { streams = insert stream_id (entry.0, write entry.1) c.streams })
    | false ↦ ok c
  ]

  -- In the lambda of `handle_data`, and in `send_data`.
  unfoldable pub capture_user : ℕ → Bytes → Captures → Result Captures
  unfolding capture_write write_dummy_user
  capture_user stream_id bytes c = capture_write (write_dummy_user pcpp bytes) stream_id c

  unfoldable pub capture_target : ℕ → Bytes → Captures → Result Captures
  unfolding capture_write write_dummy_target
  capture_target stream_id bytes c = capture_write (write_dummy_target pcpp bytes) stream_id c

  -- The loop in the lambda of `handle_data`, with the capture.
  unfoldable pub captured_write_loop :
      Os → ℕ → ℕ → ℕ → Bytes → Captures → Trace → Result (Option (Captures × Trace))
  unfolding capture_user
  captured_write_loop os zero stream_id fd bytes c t = ok none
  captured_write_loop os (suc fuel) stream_id fd bytes c t = do
    c' ← capture_user stream_id bytes c
    let res = os.poll t fd
    let polled = fd_polled fd res ∷ t
    elim res [
      | false ↦ ok (some (c', polled))
      | true ↦
          let answer = os.write polled fd bytes in
          let t' = fd_written fd bytes answer ∷ polled in
          elim answer [
            | WriteResult.again ↦ captured_write_loop os fuel stream_id fd bytes c' t'
            | WriteResult.failed ↦ ok (some (c', t'))
            | WriteResult.written n ↦ ok (some (c', t'))
          ]
    ]
