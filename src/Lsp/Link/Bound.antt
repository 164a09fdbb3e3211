-- ===== src/Lsp/Link/Bound.antt =====
-- The window of each end in every reachable state of Lsp/Link.
use dsystem_homework.Base.{◌≤◌, refl, ℤ, All, arith}
use dsystem_homework.Lsp.Status.{Params}
use dsystem_homework.Lsp.Client.{new_client}
use dsystem_homework.Lsp.Info.{Addr, new_info}
use dsystem_homework.Lsp.Window.Keeps.{IsInWindow, Windowed, Windowed-Kept}
use dsystem_homework.Lsp.Link.{Link, start, Reach}
use dsystem_homework.Lsp.Link.Kept.{Both, Reach-Both}

start-Both :
    (p q : Params) (id : ℤ) (addr : Addr)
    → 1 ≤ p.window_size
    → Both (Windowed p.window_size) (Windowed q.window_size) (start p q id addr)
unfolding start new_client new_info
start-Both p q id addr h = record {
  client_end = record { size = refl; within = ((0, refl, omega arith, omega arith), tt) };
  info_end = record { size = refl; within = tt };
}

-- With a window of at least 1 at the client, in every reachable state each message that either
-- end holds for an acknowledgement has a number that was given, and it is among the last
-- `WindowSize` numbers that were, at the client with its parameters and at the server with its own.
pub unacked-IsInWindow :
    (p q : Params) (id : ℤ) (addr : Addr) (l : Link)
    → 1 ≤ p.window_size
    → Reach (start p q id addr) l
    → All (IsInWindow l.client.tsq p.window_size) l.client.tbuffer
      × All (IsInWindow l.info.tsq q.window_size) l.info.tbuffer
unacked-IsInWindow p q id addr l h r =
    let b =
      Reach-Both (Windowed-Kept p.window_size) (Windowed-Kept q.window_size) r
        (start-Both p q id addr h) in
    (b.client_end.within, b.info_end.within)
