-- ===== src/Tests/Answers.antt =====
-- The web socket that opened in the run answers.
use woeful.Base.{arith, ◌≡◌, refl, ◌∷◌, ok, codes, copy_from, sub_size, read_u8, read_u32}
use woeful.Packets.{parse_wisp}
use woeful.Manager.{WebSocketManager}
use woeful.Base.Map.{find, insert}
use woeful.Server.{Server, manager_of, on_message, on_drain, on_close, on_open, init}
use woeful.Server.Alive.{open_after, openings_after, is_open_socket, openings}
use woeful.Server.Closing.{Shut, on_close-Shut}
use woeful.Server.Answers.{callbacks_return, on_message-returns}
use woeful.Tests.World.{calm_os, calm_os-fresh}
use woeful.Tests.Streams.{black_list}
use woeful.Tests.Run.{s2, before_data}

callbacks_return_example :
    ((m : WebSocketManager) × (manager_of s2 20 ≡ ok m) × (m.ws ≡ 20))
    × ((drained : Server) × (on_drain 20 s2 ≡ ok drained))
    × ((closed : Server) × (on_close 20 s2 ≡ ok closed))
unfolding openings openings_after is_open_socket open_after on_message find on_open insert init
callbacks_return_example =
    callbacks_return calm_os black_list 20 calm_os-fresh before_data (omega arith) refl

on_close-Shut_example : Shut 20 s2
unfolding openings openings_after is_open_socket open_after on_message find on_open insert init
on_close-Shut_example =
    on_close-Shut calm_os black_list 20 calm_os-fresh before_data (omega arith) refl

on_message-returns_example :
    (s' : Server) × (on_message calm_os black_list 20 (2 ∷ 12 ∷ 0 ∷ 0 ∷ 0 ∷ codes "hi") s2 ≡ ok s')
unfolding openings openings_after is_open_socket open_after on_message find on_open insert init
    parse_wisp copy_from sub_size read_u8 read_u32
on_message-returns_example =
    on_message-returns calm_os black_list 20 (2 ∷ 12 ∷ 0 ∷ 0 ∷ 0 ∷ codes "hi")
      (record { packet_type = 2; stream_id = 12; bytes = codes "hi" }) calm_os-fresh before_data
      (omega arith) refl refl (λ h. omega (arith, h)) (omega arith)
