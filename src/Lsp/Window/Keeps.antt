-- ===== src/Lsp/Window/Keeps.antt =====
-- Every operation of Lsp/Endpoint keeps the unacknowledged messages within the window.
use dsystem_homework.Base.{
  ℕ, suc, ◌+◌, ◌≤◌, ◌<◌, ◌≡◌, refl, inl, inr, ℤ, pos, ltb_ℤ, int_eq, All, All-mono, All-zip,
  All-insert, All-delete, lookup, arith, Bool-cases, Option-cases, length,
}
use dsystem_homework.Lsp.Message.{Message}
use dsystem_homework.Lsp.Endpoint.{Endpoint, forget, send_next, on_data}
use dsystem_homework.Lsp.Kept.{Kept}
use dsystem_homework.Lsp.Flow.Sender.{send_next_cases}
use dsystem_homework.Lsp.Window.{HasRoom, window_open_iff}

-- The number of an unacknowledged message was given, and is among the last `windows` that were.
abbrev pub IsInWindow : ℕ → ℕ → ℤ × Message → Type 0
IsInWindow tsq windows entry = (k : ℕ) × (entry.0 ≡ pos k) × (k < tsq) × (tsq ≤ k + windows)

pub record Windowed (windows : ℕ) (c : Endpoint) : Type 0 where
  pub size : c.windows ≡ windows
  pub within : All (IsInWindow c.tsq windows) c.tbuffer

forget-Windowed :
    (windows : ℕ) (sq : ℤ) (c : Endpoint) → Windowed windows c → Windowed windows (forget sq c)
unfolding forget
forget-Windowed windows sq c w = elim (Option-cases (lookup sq c.tbuffer)) [
  | inl gone ↦ rw (gone, forget) w
  | inr (v, held) ↦
      rw (held, forget) (record { size = w.size; within = All-delete _ sq c.tbuffer w.within })
]

on_data-Windowed :
    (windows : ℕ) (m : Message) (c : Endpoint)
    → Windowed windows c
    → Windowed windows (on_data m c).endpoint
unfolding on_data
on_data-Windowed windows m c w = elim (Bool-cases (ltb_ℤ (pos (length m.payload)) m.size)) [
  | inl short ↦ rw short w
  | inr whole ↦ rw whole (record { size = w.size; within = w.within })
]

IsInWindow-next :
    (tsq windows : ℕ) (entry : ℤ × Message)
    → IsInWindow tsq windows entry × HasRoom tsq windows entry
    → IsInWindow (suc tsq) windows entry
IsInWindow-next tsq windows (z, m) ((k, e, below, _), room) = (k, e, omega arith, ground arith)

send_next-Windowed :
    (windows : ℕ) (c : Endpoint) → Windowed windows c → Windowed windows (send_next c).endpoint
send_next-Windowed windows c w = elim (send_next_cases c) [
  | inl same ↦ rw same (record { size = w.size; within = w.within })
  | inr (m, rest, head, opened, sends) ↦
      let (some_room, room) = (window_open_iff c).0 opened in
      rw sends (record {
        size = w.size;
        within =
            All-insert _ (pos c.tsq) _ c.tbuffer (c.tsq, refl, omega arith, omega (arith, w.size))
              (All-mono _ _ c.tbuffer (IsInWindow-next c.tsq windows)
                (All-zip _ _ c.tbuffer w.within (rw w.size at room)));
      })
]

-- Every operation of an end keeps its window.
pub Windowed-Kept : (windows : ℕ) → Kept (Windowed windows)
Windowed-Kept windows = record {
  by_data = on_data-Windowed windows;
  by_ack = forget-Windowed windows;
  by_send = send_next-Windowed windows;
  by_write = λ m c w. record { size = w.size; within = w.within };
  by_rest = λ c id epoch_count status w. record { size = w.size; within = w.within };
}
