-- ===== src/Uplink.antt =====
-- What a target receives of what a client sends: from the web socket through the manager and the
-- queue of the pool to the calls of `write`.
pub mod Counts
pub mod Writes
pub mod Queue
pub mod Elsewhere
pub mod Tasks
pub mod Run
pub mod Drain
use woeful.Base.{
  ℕ, zero, suc, ◌+◌, ◌≡◌, Bool, true, false, not, ◌&&◌, List, [], ◌∷◌, ◌++◌, ◌==◌, if◌then◌else◌,
  Bytes, bytes_eq, Result, ok, fault, length,
}
use woeful.Packets.{WispPacket, packet_data, parse_wisp}
use woeful.System.Calls.{Trace, WriteResult, fd_polled, fd_written}
use woeful.Manager.{Task}
use woeful.Server.{Server, manager_of}

-- Whether the system took a `write` on, or gave an error that ends the loop.
unfoldable pub is_answer : WriteResult → Bool
is_answer WriteResult.again = false
is_answer WriteResult.failed = true
is_answer (WriteResult.written count) = true

-- The data of the writes on the descriptor that were not refused, the latest first.
unfoldable pub answered : ℕ → Trace → List Bytes
unfolding is_answer
answered fd [] = []
answered fd (fd_written to bytes answer ∷ t) =
    if to == fd && is_answer answer then bytes ∷ answered fd t else answered fd t
answered fd (_ ∷ t) = answered fd t

-- The polls of the descriptor that failed.
unfoldable pub failures : ℕ → Trace → ℕ
failures fd [] = 0
failures fd (fd_polled to answer ∷ t) =
    if to == fd && not answer then suc (failures fd t) else failures fd t
failures fd (_ ∷ t) = failures fd t

-- The data of the tasks that wait for the stream `k` of the manager `id`.
unfoldable pub waiting : ℕ → ℕ → List Task → List Bytes
waiting id k [] = []
waiting id k (task ∷ tasks) =
    if task.manager == id && task.packet.stream_id == k
    then task.packet.bytes ∷ waiting id k tasks
    else waiting id k tasks

-- The data that a frame brings for the stream.
unfoldable pub brought : ℕ → Result WispPacket → List Bytes
brought k (fault f) = []
brought k (ok packet) =
    if packet.packet_type == packet_data && packet.stream_id == k then packet.bytes ∷ [] else []

-- The data that a message of a web socket brings, if its manager has the id.
unfoldable pub arrived : ℕ → ℕ → ℕ → Bytes → Server → List Bytes
unfolding brought
arrived id k ws message s = elim (manager_of s ws) [
  | fault f ↦ []
  | ok m ↦ if m.socket_id == id then brought k (parse_wisp message) else []
]

-- How often the data is in the list.
unfoldable pub copies : Bytes → List Bytes → ℕ
copies bytes [] = 0
copies bytes (b ∷ rest) = if bytes_eq b bytes then suc (copies bytes rest) else copies bytes rest

-- From `s` to `s'`: what was there of the tasks of the stream and what came is, each as often as it
-- came, what was written, what a failed poll lost, and what still waits.
pub record Accounts (id k fd : ℕ) (came : List Bytes) (s s' : Server) : Type 0 where
  pub lost : List Bytes
  pub conserved :
      (bytes : Bytes)
      → copies bytes (answered fd s'.trace)
          + copies bytes lost
          + copies bytes (waiting id k s'.tasks)
        ≡ copies bytes (answered fd s.trace)
          + copies bytes came
          + copies bytes (waiting id k s.tasks)
  pub failed : failures fd s'.trace ≡ failures fd s.trace + length lost
