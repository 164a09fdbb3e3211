-- ===== src/Lsp/Server/Tests.antt =====
-- Runs of the server of project-2/src/example.com/lsp/server_impl.go.
use dsystem_homework.Base.{◌≡◌, refl, pos, int_eq, false, List, [], ◌∷◌, lookup, insert, arith}
use dsystem_homework.Lsp.Message.{msg_ack, new_connect, new_ack}
use dsystem_homework.Lsp.Status.{new_params}
use dsystem_homework.Lsp.Info.{new_info}
use dsystem_homework.Lsp.Server.{
  AddressableMessage, new_server, registered, find_client, has_addr, accept, on_connect, on_cls,
  on_incoming, pass_on, to_tmsg, take_incoming, select, handle, from_incoming, from_cls,
}
use dsystem_homework.Lsp.Server.Methods.{
  Op, hears, handles, unplugged, start_close, close_returns, received, step, run,
}
use dsystem_homework.Lsp.Server.Runs.{one_connection_per_address, next_numbers_free}
use dsystem_homework.Lsp.Server.Closing.{close_waits_forever}
use dsystem_homework.Lsp.Server.Closed.{closed_conn_hears_nothing}

-- Two requests from one address and one from another, and the first connection closed.
requests : List Op
requests =
    hears (record { message = new_connect; addr = "localhost:9000" })
    ∷ hears (record { message = new_connect; addr = "localhost:9000" })
    ∷ hears (record { message = new_connect; addr = "localhost:9001" })
    ∷ handles from_incoming
    ∷ handles from_incoming
    ∷ handles from_incoming
    ∷ []

one_connection_per_address_example : pos 73 ≡ pos 73
unfolding requests run step received handle select take_incoming on_incoming on_connect accept
    new_server new_info registered lookup insert has_addr
one_connection_per_address_example =
    one_connection_per_address new_params requests (pos 73) (pos 73) "localhost:9000" refl refl refl
      refl

next_numbers_free_example :
    registered (pos 75) (run requests (new_server new_params)).clients ≡ false
unfolding requests run step received handle select take_incoming on_incoming on_connect accept
    new_server has_addr lookup insert new_info
next_numbers_free_example = next_numbers_free new_params requests 75 (omega arith)

-- A third connection comes after the first one was closed.
afterwards : List Op
afterwards =
    hears (record { message = new_connect; addr = "localhost:9000" }) ∷ handles from_incoming ∷ []

closed_conn_hears_nothing_example :
    let t = run afterwards (on_cls (pos 73) (run requests (new_server new_params))) in
    let am : AddressableMessage = record {
      message = new_ack (pos 73) (pos 1);
      addr = "localhost:9000";
    } in
    (on_incoming msg_ack am t ≡ (t, [])) × (pass_on to_tmsg am.message t ≡ t)
unfolding requests run step received handle select take_incoming on_incoming on_connect accept
    new_server new_info registered lookup insert has_addr find_client
closed_conn_hears_nothing_example =
    closed_conn_hears_nothing new_params requests afterwards 73 _
      (record { message = new_ack (pos 73) (pos 1); addr = "localhost:9000" }) refl refl (λ e. cc e)

close_waits_forever_example :
    close_returns
      (run (unplugged ∷ handles from_cls ∷ unplugged ∷ []) (start_close (new_server new_params)))
    ≡ false
close_waits_forever_example =
    close_waits_forever new_params (unplugged ∷ handles from_cls ∷ unplugged ∷ [])
      (tt, (tt, (tt, tt)))
