-- ===== src/Lsp/Info.antt =====
-- project-2/src/example.com/lsp/server_impl.go, `clientInfo` and `handleClient`: the server's end
-- of one connection and its handler.
use dsystem_homework.Base.{
  ◌+◌, ℤ, pos, Bool, true, false, ◌&&◌, not, List, [], ◌∷◌, ◌++◌, map, if◌then◌else◌, nat_beq,
}
use Prim.Native.String.{String}
use dsystem_homework.Lsp.Message.{Bytes, MsgType, msg_connect, msg_data, msg_ack, Message, new_ack}
use dsystem_homework.Lsp.Status.{
  not_closing, start_closing, handler_closed, has_status, new_status, Params,
}
use dsystem_homework.Lsp.Endpoint.{
  Endpoint, Turn, reads_channel, timer_fires, falls_through, Lost, connection_lost, close_ready,
  on_data, forget, no_data_yet, pending, send_next,
}

-- A remote address, by its text: the server compares addresses by `String()`.
abbrev pub Addr : Type 0
Addr = String

pub record ClientInfo : Type 0 where
  pub endpoint : Endpoint
  pub open endpoint use *
  pub addr : Addr
  pub incoming : List Message
  pub running : Bool  -- the handler has not returned

pub record ClientData : Type 0 where
  pub id : ℤ
  pub payload : Bytes

pub record ClientError : Type 0 where
  pub id : ℤ
  pub error : Lost

-- What a round of the handler leaves, and what it sends to the network, on the server's `rmsg`
-- and `err`, and on `cls`.
pub record Round : Type 0 where
  pub info : ClientInfo
  pub sent : List Message
  pub rmsg : List ClientData
  pub err : List ClientError
  pub cls : List ℤ

abbrev pub quiet : ClientInfo → List Message → Round
quiet c sent = record { info = c; sent = sent; rmsg = []; err = []; cls = [] }

-- `s.rmsg <- &clientData{c.id, data}` for each payload.
abbrev pub to_server : ℤ → List Bytes → List ClientData
to_server id = map (λ payload. record { id = id; payload = payload })

unfoldable pub new_info : ℤ → Addr → Params → ClientInfo
new_info id addr params = record {
  endpoint = record {
    id = id;
    tbuffer = [];
    tmsg = [];
    tsq = 1;
    rbuffer = [];
    rsq = 1;
    retries = params.epoch_limit;
    windows = params.window_size;
    epoch_count = 0;
    status = new_status;
  };
  addr = addr;
  incoming = [];
  running = true;
}

abbrev pub dispatch : MsgType → Message → ClientInfo → Round
dispatch msg_connect m c = quiet c []
dispatch msg_data m c =
    let o = on_data m c.endpoint in
    record {
      info = record c { endpoint = o.endpoint };
      sent = o.sent;
      rmsg = to_server c.id o.delivered;
      err = [];
      cls = [];
    }
dispatch msg_ack m c = quiet (record c { endpoint = forget m.seq_num c.endpoint }) []

-- `case m := <-c.incoming`
unfoldable pub receive : Message → ClientInfo → Round
receive m c = dispatch m.type m (record c { endpoint = record (c.endpoint) { epoch_count = 0 } })

-- What an epoch sends besides the messages that wait for an acknowledgement.
abbrev pub reminders : Endpoint → List Message
reminders c = if no_data_yet c then new_ack c.id (pos 0) ∷ [] else []

-- `case <-c.timer`
unfoldable pub tick : ClientInfo → Round
tick c =
    let e : Endpoint = record (c.endpoint) { epoch_count = c.epoch_count + 1 } in
    if nat_beq (c.epoch_count + 1) c.retries
    then record {
      info = record c { endpoint = record e { status = handler_closed }; running = false };
      sent = [];
      rmsg = [];
      err = record { id = c.id; error = connection_lost c.id } ∷ [];
      cls = c.id ∷ [];
    }
    else quiet (record c { endpoint = e }) (reminders e ++ pending e)

abbrev pub see_bcls : Bool → Endpoint → Endpoint
see_bcls closing c =
    if has_status c.status not_closing && closing then record c { status = start_closing } else c

-- The `default` case; `closing` says that `bcls` is closed.
unfoldable pub idle : Bool → ClientInfo → Round
idle closing c =
    let o = send_next c.endpoint in
    quiet (record c { endpoint = see_bcls closing o.endpoint }) o.sent

-- An empty channel is no choice of the `select`: the round leaves all as it is.
abbrev pub take_incoming : ClientInfo → List Message → Round
take_incoming c [] = quiet c []
take_incoming c (m ∷ rest) = receive m (record c { incoming = rest })

abbrev pub serve : Bool → Turn → ClientInfo → Round
serve closing reads_channel c = take_incoming c c.incoming
serve closing timer_fires c = tick c
serve closing falls_through c = idle closing c

-- One round of the handler's loop, or nothing once it has returned.
unfoldable pub handle_client : Bool → Turn → ClientInfo → Round
handle_client closing turn c =
    let stopped : ClientInfo = record c {
      endpoint = record (c.endpoint) { status = handler_closed };
      running = false;
    } in
    if not c.running
    then quiet c []
    else if close_ready c.endpoint
    then record { info = stopped; sent = []; rmsg = []; err = []; cls = c.id ∷ [] }
    else serve closing turn c
