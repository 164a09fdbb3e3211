-- ===== src/Lsp/Server/Methods.antt =====
-- project-2/src/example.com/lsp/server_impl.go: the methods of the server and its `receiver`, and
-- runs of all that can happen at a server.
use dsystem_homework.Base.{
  ℤ, Bool, true, false, List, [], ◌∷◌, ◌++◌, Option, none, some, if◌then◌else◌,
}
use dsystem_homework.Lsp.Message.{Bytes}
use dsystem_homework.Lsp.Status.{start_closing, handler_closed, connection_closed, has_status}
use dsystem_homework.Lsp.Endpoint.{Turn, unsent}
use dsystem_homework.Lsp.Info.{ClientData, ClientError}
use dsystem_homework.Lsp.Server.{AddressableMessage, Server, Choice, handle, run_client}

-- `Read` takes what a client sent or a loss; with both at hand Go chooses, here `prefer_data`.
-- `none` means that it waits.
pub data ReadResult : Type 0 where
  got : ClientData → ReadResult
  failed : ClientError → ReadResult

take_data : Server → List ClientData → Option (ReadResult × Server)
take_data s [] = none
take_data s (d ∷ rest) = some (got d, record s { rmsg = rest })

take_error : Server → List ClientError → Option (ReadResult × Server)
take_error s [] = none
take_error s (e ∷ rest) = some (failed e, record s { err = rest })

or_else {ℓ} : {A : Type ℓ} → Option A → Option A → Option A
or_else none y = y
or_else (some x) y = some x

unfoldable pub read : Bool → Server → Option (ReadResult × Server)
unfolding take_data take_error or_else
read prefer_data s =
    if prefer_data
    then or_else (take_data s s.rmsg) (take_error s s.err)
    else or_else (take_error s s.err) (take_data s s.rmsg)

unfoldable pub write : ℤ → Bytes → Server → Server
write conn_id payload s = record s { outgoing = s.outgoing ++ unsent conn_id payload ∷ [] }

unfoldable pub close_conn : ℤ → Server → Server
close_conn conn_id s = record s { cls = s.cls ++ conn_id ∷ [] }

-- `Close` before its loop.
unfoldable pub start_close : Server → Server
start_close s = record s { status = start_closing; bcls_closed = true }

-- `Close` returns once this holds; it closes the socket in status `handler_closed`.
unfoldable pub close_returns : Server → Bool
close_returns s = has_status s.status connection_closed

-- `receiver`: a message that was read, and a read that failed.
unfoldable pub received : AddressableMessage → Server → Server
received am s = record s { incoming = s.incoming ++ am ∷ [] }

unfoldable pub read_failed : Server → Server
read_failed s =
    if has_status s.status handler_closed then record s { status = connection_closed } else s

-- What can happen at a server: a round of one of its goroutines, a call of a method, or a read from
-- the socket that brings a message or fails.
pub data Op : Type 0 where
  handles : Choice → Op
  serves : Turn → ℤ → Op
  reads : Bool → Op
  writes : ℤ → Bytes → Op
  closes_conn : ℤ → Op
  closes : Op
  hears : AddressableMessage → Op
  unplugged : Op

abbrev pub after_read : Server → Option (ReadResult × Server) → Server
after_read s none = s
after_read s (some (r, s')) = s'

unfoldable pub step : Op → Server → Server
step (handles choice) s = (handle choice s).0
step (serves turn id) s = (run_client turn id s).0
step (reads prefer_data) s = after_read s (read prefer_data s)
step (writes id payload) s = write id payload s
step (closes_conn id) s = close_conn id s
step closes s = start_close s
step (hears am) s = received am s
step unplugged s = read_failed s

unfoldable pub run : List Op → Server → Server
run [] s = s
run (op ∷ ops) s = run ops (step op s)

-- `Read` changes the two channels that it reads, and nothing else.
module _ (P : Server → Type 0) (s : Server)
    (h : (rmsg : List ClientData) (err : List ClientError)
      → P (record s { rmsg = rmsg; err = err })) where
  or_else_leaves :
      (x y : Option (ReadResult × Server))
      → P (after_read s x)
      → P (after_read s y)
      → P (after_read s (or_else x y))
  unfolding or_else
  or_else_leaves none y hx hy = hy
  or_else_leaves (some r) y hx hy = hx

  take_data_leaves : (ds : List ClientData) → P (after_read s (take_data s ds))
  unfolding take_data
  take_data_leaves [] = h s.rmsg s.err
  take_data_leaves (d ∷ rest) = h rest s.err

  take_error_leaves : (es : List ClientError) → P (after_read s (take_error s es))
  unfolding take_error
  take_error_leaves [] = h s.rmsg s.err
  take_error_leaves (e ∷ rest) = h s.rmsg rest

  pub read_leaves : (prefer_data : Bool) → P (after_read s (read prefer_data s))
  unfolding read
  read_leaves true =
      or_else_leaves (take_data s s.rmsg) (take_error s s.err) (take_data_leaves s.rmsg)
        (take_error_leaves s.err)
  read_leaves false =
      or_else_leaves (take_error s s.err) (take_data s s.rmsg) (take_error_leaves s.err)
        (take_data_leaves s.rmsg)
