-- ===== src/Downlink.antt =====
-- What a client receives of what was read from a target socket, over the traces of the calls: the
-- watcher, the deferred callbacks and the managers together.
pub mod Silence
pub mod Methods
pub mod Apart
pub mod Hear
pub mod Copies
pub mod Ids
pub mod Addresses
pub mod Carry
pub mod Faithful
pub mod Placed
pub mod Run
pub mod Keeps
pub mod Drain
pub mod Ends
use woeful.Base.{
  ℕ, ◌≡◌, Bool, List, [], ◌∷◌, ◌++◌, ◌==◌, if◌then◌else◌, Bytes, bytes_eq, take, drop, u32_bytes,
}
use woeful.Packets.{packet_data}
use woeful.System.Calls.{Trace, ws_sent, attempts}
use woeful.Watcher.{Deferred}
use woeful.Watcher.Reading.{bytes_read}

-- What a message carries for a stream: a DATA message with its id has its bytes behind the header.
unfoldable pub payload : ℕ → Bytes → Bytes
payload k message =
    if bytes_eq (take 5 message) (packet_data ∷ u32_bytes k) then drop 5 message else []

-- What the web socket was sent for the stream, in order.
unfoldable pub sent : ℕ → ℕ → Trace → Bytes
sent ws k [] = []
sent ws k (ws_sent to message ∷ t) =
    if to == ws then sent ws k t ++ payload k message else sent ws k t
sent ws k (_ ∷ t) = sent ws k t

-- What was read from the descriptor and waits in the deferred callbacks.
unfoldable pub pending : ℕ → List Deferred → Bytes
pending fd [] = []
pending fd (d ∷ ds) = if d.fd == fd then d.combined_buffer ++ pending fd ds else pending fd ds

-- Calls that read nothing and send no data.
pub record Silent (t t' : Trace) : Type 0 where
  pub sends : (ws k : ℕ) → sent ws k t' ≡ sent ws k t
  pub reads : (fd : ℕ) → bytes_read fd t' ≡ bytes_read fd t

-- Calls that, besides, write nothing to a target.
pub record Mute (t t' : Trace) : Type 0 where
  pub sends : (ws k : ℕ) → sent ws k t' ≡ sent ws k t
  pub reads : (fd : ℕ) → bytes_read fd t' ≡ bytes_read fd t
  pub tries : attempts t' ≡ attempts t
