-- ===== src/Lsp/Client.antt =====
-- project-2/src/example.com/lsp/client_impl.go: the client, its handler and its methods.
use dsystem_homework.Base.{
  ◌+◌, ℤ, pos, negsuc, ltb_ℤ, int_eq, Bool, true, false, ◌&&◌, not, List, [], ◌∷◌, ◌++◌, Option,
  none, some, if◌then◌else◌, nat_beq, lookup,
}
use dsystem_homework.Lsp.Message.{
  Bytes, MsgType, msg_connect, msg_data, msg_ack, Message, new_connect, new_ack,
}
use dsystem_homework.Lsp.Status.{
  Status, not_closing, start_closing, handler_closed, connection_closed, closed, has_status,
  new_status, Params,
}
use dsystem_homework.Lsp.Endpoint.{
  Endpoint, Turn, reads_channel, timer_fires, falls_through, Lost, connection_lost, unsent, enqueue,
  close_ready, on_data, forget, no_data_yet, pending, send_next,
}

pub record Client : Type 0 where
  pub endpoint : Endpoint
  pub open endpoint use *
  pub incoming : List Message
  pub rmsg : List Bytes
  pub err : List Lost
  pub signalled : Bool  -- `statusSignal` is closed
  pub running : Bool  -- the handler has not returned

abbrev pub is_negative : ℤ → Bool
is_negative (pos n) = false
is_negative (negsuc n) = true

-- `NewClient` up to the receipt from `statusSignal`, with the message that it sends.
unfoldable pub new_client : Params → Client × List Message
new_client params = (
  record {
    endpoint = record {
      id = negsuc 0;
      tbuffer = (pos 0, new_connect) ∷ [];
      tmsg = [];
      tsq = 1;
      rbuffer = [];
      rsq = 1;
      retries = params.epoch_limit;
      windows = params.window_size;
      epoch_count = 0;
      status = new_status;
    };
    incoming = [];
    rmsg = [];
    err = [];
    signalled = false;
    running = true;
  },
  new_connect ∷ [],
)

abbrev is_connect : MsgType → Bool
is_connect msg_connect = true
is_connect msg_data = false
is_connect msg_ack = false

abbrev pub answers_connect : Message → ℤ → Bool
answers_connect v id = is_connect v.type && is_negative id

-- `case MsgAck`
unfoldable pub on_ack : Message → Client → Client
on_ack m c =
    let c' : Client = record c { endpoint = forget m.seq_num c.endpoint } in
    elim (lookup m.seq_num c.tbuffer) [
      | none ↦ c
      | some v ↦
          if answers_connect v c.id
          then record c' {
            endpoint = record (forget m.seq_num c.endpoint) { id = m.conn_id };
            signalled = true;
          }
          else c'
    ]

abbrev pub dispatch : MsgType → Message → Client → Client × List Message
dispatch msg_connect m c = (c, [])
dispatch msg_data m c =
    let o = on_data m c.endpoint in
    (record c { endpoint = o.endpoint; rmsg = c.rmsg ++ o.delivered }, o.sent)
dispatch msg_ack m c = (on_ack m c, [])

-- `case m := <-c.incoming`
unfoldable pub receive : Message → Client → Client × List Message
receive m c = dispatch m.type m (record c { endpoint = record (c.endpoint) { epoch_count = 0 } })

-- What an epoch sends besides the messages that wait for an acknowledgement.
abbrev pub reminders : Endpoint → List Message
reminders c =
    if is_negative c.id
    then new_connect ∷ []
    else if no_data_yet c
    then new_ack c.id (pos 0) ∷ []
    else []

-- `case <-c.timer`
unfoldable pub tick : Client → Client × List Message
tick c =
    let e : Endpoint = record (c.endpoint) { epoch_count = c.epoch_count + 1 } in
    if nat_beq (c.epoch_count + 1) c.retries
    then (
      record c {
        endpoint = record e { status = handler_closed };
        err = c.err ++ connection_lost c.id ∷ [];
        running = false;
      },
      [],
    )
    else (record c { endpoint = e }, reminders e ++ pending e)

-- The `default` case.
unfoldable pub idle : Client → Client × List Message
idle c = let o = send_next c.endpoint in (record c { endpoint = o.endpoint }, o.sent)

-- An empty channel is no choice of the `select`: the round leaves all as it is.
abbrev pub take_incoming : Client → List Message → Client × List Message
take_incoming c [] = (c, [])
take_incoming c (m ∷ rest) = receive m (record c { incoming = rest })

abbrev pub serve : Turn → Client → Client × List Message
serve reads_channel c = take_incoming c c.incoming
serve timer_fires c = tick c
serve falls_through c = idle c

-- One round of the handler's loop, or nothing once it has returned.
unfoldable pub handle : Turn → Client → Client × List Message
handle turn c =
    let stopped : Client = record c {
      endpoint = record (c.endpoint) { status = handler_closed };
      running = false;
    } in
    if not c.running
    then (c, [])
    else if close_ready c.endpoint
    then (stopped, [])
    else serve turn c

-- The handler's loop along a schedule of its choices, with nothing else in between.
unfoldable pub rounds : List Turn → Client → Client
rounds [] c = c
rounds (t ∷ ts) c = rounds ts (handle t c).0

unfoldable pub write : Bytes → Client → Client
write payload c = record c { endpoint = enqueue (unsent c.id payload) c.endpoint }

-- `Read` takes a payload or an error; with both at hand Go chooses, here `prefer_data`. `none`
-- means that it waits.
pub data ReadResult : Type 0 where
  got : Bytes → ReadResult
  failed : Lost → ReadResult

abbrev pub take_data : Client → List Bytes → Option (ReadResult × Client)
take_data c [] = none
take_data c (payload ∷ rest) = some (got payload, record c { rmsg = rest })

abbrev pub take_error : Client → List Lost → Option (ReadResult × Client)
take_error c [] = none
take_error c (e ∷ rest) = some (failed e, record c { err = rest })

abbrev pub or_else {ℓ} : {A : Type ℓ} → Option A → Option A → Option A
or_else none y = y
or_else (some x) y = some x

unfoldable pub read : Bool → Client → Option (ReadResult × Client)
read prefer_data c =
    if prefer_data
    then or_else (take_data c c.rmsg) (take_error c c.err)
    else or_else (take_error c c.err) (take_data c c.rmsg)

abbrev pub set_status : Status → Client → Client
set_status s c = record c { endpoint = record (c.endpoint) { status = s } }

-- `Close` before its loop.
unfoldable pub start_close : Client → Client
start_close c = if has_status c.status not_closing then set_status start_closing c else c

-- A round of the loop of `Close`: whether the socket is closed, whether `Close` returns.
pub record CloseRound : Type 0 where
  pub client : Client
  pub socket_closed : Bool
  pub returns : Bool

unfoldable pub close_round : Client → CloseRound
close_round c =
    if has_status c.status connection_closed
    then record { client = set_status closed c; socket_closed = false; returns = true }
    else record { client = c; socket_closed = has_status c.status handler_closed; returns = false }

-- `receiver`: a message that was read, and a read that failed, after which it ends if the number
-- is positive.
abbrev pub received : Message → Client → Client
received m c = record c { incoming = c.incoming ++ m ∷ [] }

unfoldable pub read_failed : Client → Client
read_failed c = if ltb_ℤ (pos 0) c.id then set_status connection_closed c else c
