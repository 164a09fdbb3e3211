-- ===== src/Lsp/Tests.antt =====
-- A connection of Lsp/Link run step by step, and the theorems of Lsp/Link/Delivery at its states.
use dsystem_homework.Base.{
  ◌<◌, ◌↔◌, ◌⊎◌, All, arith, none, negsuc, int_eq, pos, ◌≡◌, refl, true, false, List, [], ◌∷◌, ◌++◌,
  In, lookup, insert, delete,
}
use dsystem_homework.Lsp.Message.{Bytes, new_data, new_ack}
use dsystem_homework.Lsp.Status.{new_params, handler_closed}
use dsystem_homework.Lsp.Endpoint.{
  Turn, connection_lost, close_ready, reads_channel, timer_fires, falls_through, on_data, forget,
  send_next, window_open, min_un_acked, save, drain, collect, Inbox,
}
use dsystem_homework.Lsp.Client
use dsystem_homework.Lsp.Client.{Client, new_client, rounds}
use dsystem_homework.Lsp.Info
use dsystem_homework.Lsp.Info.{Addr, ClientInfo, new_info, handle_client}
use dsystem_homework.Lsp.Flow.{whole}
use dsystem_homework.Lsp.Link.{
  Link, start, Reach, client_writes, client_hears, client_turns, client_closes, info_hears,
  server_writes, server_passes, server_closes, info_turns, here, next,
}
use dsystem_homework.Lsp.Flow.Drain.{drain_stops}
use dsystem_homework.Lsp.Link.Bound.{unacked-IsInWindow}
use dsystem_homework.Lsp.Link.Stale.{repeated_blocks_close}
use dsystem_homework.Lsp.Window.{window_open_iff, HasRoom}
use dsystem_homework.Lsp.Window.Keeps.{IsInWindow}
use dsystem_homework.Lsp.Epochs.{waits_below_limit, lost_at_limit}
use dsystem_homework.Lsp.Epochs.Connecting.{receive_all, new_client_waits_forever}
use dsystem_homework.Lsp.Link.Delivery.{
  Begins, delivered_in_order, client_stop_delivers, info_stop_delivers,
}

abbrev opened : Link
opened = start new_params new_params (pos 73) "localhost:9000"

abbrev greeting : Bytes
greeting = 104 ∷ 105 ∷ []

-- The client learns its number, sends a payload, and the server's end takes it.
exchanged : (l : Link) × Reach opened l
unfolding start new_client new_info Client.handle Client.receive Client.write Client.on_ack
    Client.start_close Client.idle lookup insert delete forget send_next window_open min_un_acked
    handle_client Info.receive on_data save drain collect
exchanged = (
  _,
  next
      (next
        (next
          (next
            (next (next here (client_hears (new_ack (pos 73) (pos 0)) (whole In.here)))
              (client_turns reads_channel))
            (client_writes greeting))
          (client_turns falls_through))
        (info_hears (new_data (pos 73) (pos 1) (pos 2) greeting) (whole (In.there In.here))))
      (info_turns reads_channel),
)

-- Its acknowledgement comes back, the client asks to close, and its handler has nothing left.
closed_after : (l : Link) × Reach opened l
unfolding exchanged
closed_after = (
  _,
  next
      (next (next exchanged.1 (client_hears (new_ack (pos 73) (pos 1)) (whole (In.there In.here))))
        (client_turns reads_channel))
      client_closes,
)

exchanged_taken : exchanged.0.taken_up ≡ greeting ∷ []
unfolding exchanged
exchanged_taken = refl

-- The server writes and closes: its end sends the payload and sees `bcls`; the client takes it, and
-- its acknowledgement comes back.
served : (l : Link) × Reach opened l
unfolding start new_client new_info Client.handle Client.receive Client.on_ack lookup insert delete
    forget send_next window_open min_un_acked handle_client Info.receive Info.idle on_data save
    drain collect
served = (
  _,
  next
      (next
        (next
          (next
            (next
              (next
                (next
                  (next
                    (next (next here (server_writes greeting))
                      (server_passes greeting [] refl refl))
                    server_closes)
                  (info_turns falls_through))
                (client_hears (new_ack (pos 73) (pos 0)) (whole In.here)))
              (client_turns reads_channel))
            (client_hears (new_data (pos 73) (pos 1) (pos 2) greeting) (whole (In.there In.here))))
          (client_turns reads_channel))
        (info_hears (new_ack (pos 73) (pos 1)) (whole (In.there In.here))))
      (info_turns reads_channel),
)

delivered_in_order_example :
    Begins (exchanged.0.read_down ++ exchanged.0.client.rmsg) exchanged.0.written_down
    × Begins exchanged.0.taken_up exchanged.0.written_up
delivered_in_order_example =
    delivered_in_order new_params new_params (pos 73) "localhost:9000" exchanged.0 exchanged.1

client_stop_delivers_example : closed_after.0.taken_up ≡ closed_after.0.written_up
unfolding closed_after
client_stop_delivers_example =
    client_stop_delivers new_params new_params (pos 73) "localhost:9000" closed_after.0
      falls_through closed_after.1 refl refl refl

info_stop_delivers_example :
    (served.0.written_down
      ≡ (served.0.read_down ++ served.0.client.rmsg) ++ (served.0.dropped ++ served.0.outgoing))
    × ((served.0.known ≡ false) ⊎ (served.0.dropped ≡ []))
unfolding served
info_stop_delivers_example =
    info_stop_delivers new_params new_params (pos 73) "localhost:9000" served.0 falls_through
      served.1 refl refl refl

unacked-IsInWindow_example :
    All (IsInWindow exchanged.0.client.tsq 1) exchanged.0.client.tbuffer
    × All (IsInWindow exchanged.0.info.tsq 1) exchanged.0.info.tbuffer
unacked-IsInWindow_example =
    unacked-IsInWindow new_params new_params (pos 73) "localhost:9000" exchanged.0 (omega arith)
      exchanged.1

window_open_iff_example : (window_open exchanged.0.client.endpoint ≡ true) ↔ (
    (0 < exchanged.0.client.windows)
    × All (HasRoom exchanged.0.client.tsq exchanged.0.client.windows) exchanged.0.client.tbuffer)
window_open_iff_example = window_open_iff exchanged.0.client.endpoint

-- The server's end sends the payload again after the client handed it on.
repeated_blocks_close_example :
    close_ready
      (Client.receive (new_data (pos 73) (pos 1) (pos 2) greeting) served.0.client).0.endpoint
    ≡ false
unfolding served
repeated_blocks_close_example =
    repeated_blocks_close served.0
      (record (served.0) {
        client = (Client.receive (new_data (pos 73) (pos 1) (pos 2) greeting) served.0.client).0;
      })
      (new_data (pos 73) (pos 1) (pos 2) greeting) 1 refl refl refl (omega arith) here

silence : List Turn
silence = timer_fires ∷ falls_through ∷ timer_fires ∷ timer_fires ∷ timer_fires ∷ timer_fires ∷ []

waits_below_limit_example :
    let c = (new_client new_params).0 in
    let d = rounds (timer_fires ∷ falls_through ∷ []) c in
    (d.running ≡ true) × (d.epoch_count ≡ 1) × (d.err ≡ [])
unfolding new_client
waits_below_limit_example =
    waits_below_limit (new_client new_params).0 (timer_fires ∷ falls_through ∷ []) refl refl refl
      (omega arith)

lost_at_limit_example :
    let d = rounds silence (new_client new_params).0 in
    (d.running ≡ false) × (d.status ≡ handler_closed) × (d.err ≡ connection_lost (negsuc 0) ∷ [])
unfolding new_client silence
lost_at_limit_example =
    lost_at_limit (new_client new_params).0 silence refl refl refl (omega arith) (omega arith)

new_client_waits_forever_example :
    let d = rounds silence (new_client new_params).0 in
    (d.running ≡ false)
    × ((rounds (reads_channel ∷ []) (receive_all (new_ack (pos 73) (pos 0) ∷ []) d)).signalled
        ≡ false)
unfolding silence
new_client_waits_forever_example =
    new_client_waits_forever new_params silence (reads_channel ∷ []) (new_ack (pos 73) (pos 0) ∷ [])
      (omega arith) (omega arith)

-- Two payloads wait, the second of them first in the buffer.
waiting : Inbox
waiting = record { rsq = 1; rbuffer = (pos 2, greeting) ∷ (pos 1, greeting) ∷ []; delivered = [] }

drain_stops_example : let b = drain 2 waiting in lookup (pos b.rsq) b.rbuffer ≡ none
unfolding waiting
drain_stops_example = drain_stops 2 waiting (omega arith)
