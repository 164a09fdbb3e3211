-- ===== src/Lsp/Link/Inert.antt =====
-- What a timer sends, `reminders` and `pending`, is in order on both streams; `on_ack` changes an
-- end as `forget` does.
use dsystem_homework.Base.{
  ℕ, suc, ◌≢◌, inl, inr, ℤ, pos, int_eq, List, ◌++◌, All, All-mono, All-append, All-map, lookup,
  arith, Bool-cases, Option-cases,
}
use dsystem_homework.Lsp.Message.{Bytes, msg_data, Message, new_connect, new_ack}
use dsystem_homework.Lsp.Endpoint.{Endpoint, forget, pending}
use dsystem_homework.Lsp.Client
use dsystem_homework.Lsp.Client.{Client, is_negative}
use dsystem_homework.Lsp.Info
use dsystem_homework.Lsp.Info.{ClientInfo, ClientData, Round, handle_client}
use dsystem_homework.Lsp.Flow.{Travels, Sends}
use dsystem_homework.Lsp.Flow.Ends.{View, view, Ends, Ends-emit}

-- Requests and keep-alives carry no data and acknowledge none.
abbrev pub IsInert : Message → Type 0
IsInert m = (m.type ≢ msg_data) × ((k : ℕ) → m.seq_num ≢ pos (suc k))

resent-Travels :
    (written sent : List Bytes) (c : Endpoint) (ms : List Message)
    → All IsInert ms
    → Sends written sent c.tsq c.tmsg c.tbuffer
    → All (Travels sent c.rsq c.rbuffer) (ms ++ pending c)
resent-Travels written sent c ms inert s =
    All-append _ ms (pending c)
      (All-mono _ _ ms (λ m i. (λ d. absurd (i.0 d), λ _ k e. absurd (i.1 k e))) inert)
      (All-map _ _ c.tbuffer
        (All-mono _ _ c.tbuffer (λ entry h. (h.0, λ is_ack. absurd (h.1 is_ack))) s.held))

connect-IsInert : IsInert new_connect
connect-IsInert = (λ e. cc, λ k e. ground arith)

ack-IsInert : (id : ℤ) → IsInert (new_ack id (pos 0))
ack-IsInert id = (λ e. cc, λ k e. ground arith)

pub client_reminders-IsInert : (c : Endpoint) → All IsInert (Client.reminders c)
client_reminders-IsInert c = ground (arith, connect-IsInert, ack-IsInert c.id)

pub info_reminders-IsInert : (c : Endpoint) → All IsInert (Info.reminders c)
info_reminders-IsInert c = ground (arith, ack-IsInert c.id)

pub on_ack_lem :
    (P : View → List Bytes → List Message → Type 0) (m : Message) (c : Client)
    → P (view (forget m.seq_num c.endpoint)) c.rmsg c.incoming
    → let c' = Client.on_ack m c in P (view c'.endpoint) c'.rmsg c'.incoming
unfolding Client.on_ack forget
on_ack_lem P m c h = elim (Option-cases (lookup m.seq_num c.tbuffer)) [
  | inl gone ↦ rw (gone, Client.on_ack) (rw (gone, forget) at h)
  | inr (v, held) ↦ elim (Bool-cases (Client.answers_connect v c.id)) [
    | inl answers ↦ rw (held, Client.on_ack, answers) h
    | inr late ↦ rw (held, Client.on_ack, late) h
  ]
]

module _ {Y : View} {written taken : List Bytes} {net queue : List Message} {written' : List Bytes}
    {net' : List Message} where
  pub Ends-resend :
      (c : Endpoint) (ms : List Message) {taken' : List Bytes} {queue' : List Message}
      → All IsInert ms
      → Ends (view c) Y written taken net queue written' taken' net' queue'
      → Ends (view c) Y written taken (net ++ (ms ++ pending c)) queue written' taken' net' queue'
  Ends-resend c ms inert e =
      Ends-emit (ms ++ pending c) (λ sent s. resent-Travels written sent c ms inert s) e
