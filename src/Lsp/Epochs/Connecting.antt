-- ===== src/Lsp/Epochs/Connecting.antt =====
-- What becomes of `NewClient` of project-2/src/example.com/lsp/client_impl.go when no acknowledgement
-- arrives.
use dsystem_homework.Base.{◌≤◌, ◌≡◌, refl, ◌∙◌, negsuc, false, List, [], ◌∷◌, arith}
use dsystem_homework.Lsp.Message.{Message}
use dsystem_homework.Lsp.Status.{Params}
use dsystem_homework.Lsp.Endpoint.{Turn}
use dsystem_homework.Lsp.Client.{Client, new_client, rounds, received}
use dsystem_homework.Lsp.Epochs.{fires, Waits, rounds-Stopped, rounds_off}

new_client-Waits : (p : Params) → Waits 0 p.epoch_limit (negsuc 0) [] false (new_client p).0
unfolding new_client
new_client-Waits p = record {
  on = refl;
  silent = refl;
  open_yet = refl;
  counted = refl;
  limited = refl;
  named = refl;
  reported = refl;
  unanswered = refl;
}

-- The messages of `ms`, received after one another.
abbrev pub receive_all : List Message → Client → Client
receive_all [] c = c
receive_all (m ∷ ms) c = receive_all ms (received m c)

receive_all_keeps :
    (ms : List Message) (c : Client)
    → ((receive_all ms c).running ≡ c.running) × ((receive_all ms c).signalled ≡ c.signalled)
receive_all_keeps [] c = (refl, refl)
receive_all_keeps (m ∷ ms) c = receive_all_keeps ms (received m c)

-- A client that hears nothing for `EpochLimit` epochs never tells `NewClient` of it: its handler
-- has returned, and whatever arrives and is scheduled later, `statusSignal`, on which `NewClient`
-- waits and from which it would report the failure, stays open with nothing sent on it.
pub new_client_waits_forever :
    (p : Params) (ts later : List Turn) (ms : List Message)
    → 1 ≤ p.epoch_limit
    → p.epoch_limit ≤ fires ts
    → let d = rounds ts (new_client p).0 in
      (d.running ≡ false) × ((rounds later (receive_all ms d)).signalled ≡ false)
new_client_waits_forever p ts later ms positive many =
    let s = rounds-Stopped ts 0 (new_client p).0 (new_client-Waits p) positive (omega arith) in
    let (same_running, same_signal) = receive_all_keeps ms (rounds ts (new_client p).0) in
    (
      s.off,
      rw (rounds_off later (receive_all ms (rounds ts (new_client p).0)) (same_running ∙ s.off))
          (same_signal ∙ s.unanswered),
    )
