-- ===== src/Lsp/Epochs.antt =====
-- The epoch timer of project-2/src/example.com/lsp/client_impl.go while nothing arrives.
pub mod Connecting
use native.Mathlib.Decide.{dec_lt}
use dsystem_homework.Base.{
  ℕ, suc, ◌+◌, ◌≤◌, ◌<◌, ◌≡◌, refl, ◌∙◌, inl, inr, ℤ, negsuc, Bool, true, false, List, [], ◌∷◌,
  ◌++◌, nat_beq, arith,
}
use dsystem_homework.Lsp.Message.{Message}
use dsystem_homework.Lsp.Status.{start_closing, handler_closed, has_status, Params}
use dsystem_homework.Lsp.Endpoint.{
  Endpoint, Lost, connection_lost, Turn, reads_channel, timer_fires, falls_through, close_ready,
  send_next,
}
use dsystem_homework.Lsp.Client
use dsystem_homework.Lsp.Client.{Client, new_client, handle, rounds, received}
use dsystem_homework.Lsp.Flow.Sender.{send_next_cases}

-- How often the timer fires along a schedule.
abbrev pub fires : List Turn → ℕ
fires [] = 0
fires (reads_channel ∷ ts) = fires ts
fires (timer_fires ∷ ts) = suc (fires ts)
fires (falls_through ∷ ts) = fires ts

-- A handler that runs, is not asked to close, and has heard nothing for `n` epochs.
record Waits (n limit : ℕ) (id : ℤ) (err : List Lost) (told : Bool) (c : Client) : Type 0 where
  on : c.running ≡ true
  silent : c.incoming ≡ []
  open_yet : has_status c.status start_closing ≡ false
  counted : c.epoch_count ≡ n
  limited : c.retries ≡ limit
  named : c.id ≡ id
  reported : c.err ≡ err
  unanswered : c.signalled ≡ told

record Stopped (id : ℤ) (err : List Lost) (told : Bool) (c : Client) : Type 0 where
  off : c.running ≡ false
  closed_now : c.status ≡ handler_closed
  reported : c.err ≡ err ++ connection_lost id ∷ []
  unanswered : c.signalled ≡ told

send_next_keeps :
    (c : Endpoint)
    → let e = (send_next c).endpoint in
      (e.status ≡ c.status)
      × (e.epoch_count ≡ c.epoch_count)
      × (e.retries ≡ c.retries)
      × (e.id ≡ c.id)
send_next_keeps c = elim (send_next_cases c) [
  | inl same ↦ rw same (refl, refl, refl, refl)
  | inr (m, rest, _, _, sends) ↦ rw sends (refl, refl, refl, refl)
]

handle_open :
    (t : Turn) (c : Client)
    → c.running ≡ true
    → has_status c.status start_closing ≡ false
    → handle t c ≡ Client.serve t c
unfolding handle
handle_open t c on open_yet =
    let busy : close_ready c.endpoint ≡ false = rw open_yet in simp (on, busy)

module _ {n limit : ℕ} {id : ℤ} {err : List Lost} {told : Bool} (c : Client)
    (w : Waits n limit id err told c) where
  Waits-read : Waits n limit id err told (handle reads_channel c).0
  Waits-read = rw (handle_open reads_channel c w.on w.open_yet) (simp w.silent w)

  Waits-idle : Waits n limit id err told (handle falls_through c).0
  unfolding Client.idle
  Waits-idle =
      let (status, count, retries, same_id) = send_next_keeps c.endpoint in
      rw (handle_open falls_through c w.on w.open_yet) (record {
        on = w.on;
        silent = w.silent;
        open_yet = rw status w.open_yet;
        counted = count ∙ w.counted;
        limited = retries ∙ w.limited;
        named = same_id ∙ w.named;
        reported = w.reported;
        unanswered = w.unanswered;
      })

  Waits-tick : suc n < limit → Waits (suc n) limit id err told (handle timer_fires c).0
  unfolding Client.tick
  Waits-tick h =
      let more : nat_beq (c.epoch_count + 1) c.retries ≡ false =
        ground (arith, w.counted, w.limited) in
      rw (handle_open timer_fires c w.on w.open_yet, more)
        (record {
          on = w.on;
          silent = w.silent;
          open_yet = w.open_yet;
          counted = omega (arith, w.counted);
          limited = w.limited;
          named = w.named;
          reported = w.reported;
          unanswered = w.unanswered;
        })

  Stopped-tick : suc n ≡ limit → Stopped id err told (handle timer_fires c).0
  unfolding Client.tick
  Stopped-tick h =
      let over : nat_beq (c.epoch_count + 1) c.retries ≡ true =
        ground (arith, w.counted, w.limited) in
      rw (handle_open timer_fires c w.on w.open_yet, over)
        (record {
          off = refl;
          closed_now = refl;
          reported = rw (w.reported, w.named);
          unanswered = w.unanswered;
        })

-- A handler that has returned does nothing more.
rounds_off : (ts : List Turn) (c : Client) → c.running ≡ false → rounds ts c ≡ c
unfolding rounds handle
rounds_off [] c off = refl
rounds_off (t ∷ ts) c off = simp off (rounds_off ts c off)

module _ {limit : ℕ} {id : ℤ} {err : List Lost} {told : Bool} where
  rounds-Waits :
      (ts : List Turn) (n m : ℕ) (c : Client)
      → Waits n limit id err told c
      → n + fires ts ≡ m
      → m < limit
      → Waits m limit id err told (rounds ts c)
  unfolding rounds
  rounds-Waits [] n m c w e h = let same : n ≡ m = omega arith in rw (← same) w
  rounds-Waits (reads_channel ∷ ts) n m c w e h = rounds-Waits ts n m _ (Waits-read c w) e h
  rounds-Waits (timer_fires ∷ ts) n m c w e h =
      rounds-Waits ts (suc n) m _ (Waits-tick c w (omega arith)) (omega arith) h
  rounds-Waits (falls_through ∷ ts) n m c w e h = rounds-Waits ts n m _ (Waits-idle c w) e h

  rounds-Stopped :
      (ts : List Turn) (n : ℕ) (c : Client)
      → Waits n limit id err told c
      → n < limit
      → limit ≤ n + fires ts
      → Stopped id err told (rounds ts c)
  unfolding rounds
  rounds-Stopped [] n c w below h = absurd (omega arith)
  rounds-Stopped (reads_channel ∷ ts) n c w below h = rounds-Stopped ts n _ (Waits-read c w) below h
  rounds-Stopped (falls_through ∷ ts) n c w below h = rounds-Stopped ts n _ (Waits-idle c w) below h
  rounds-Stopped (timer_fires ∷ ts) n c w below h = elim (dec_lt (suc n) limit) [
    | yes more ↦ rounds-Stopped ts (suc n) _ (Waits-tick c w more) more (omega arith)
    | no last ↦
        let s = Stopped-tick c w (omega arith) in
        rw (rounds_off ts (handle timer_fires c).0 s.off) s
  ]

began :
    (c : Client)
    → c.running ≡ true
    → c.incoming ≡ []
    → has_status c.status start_closing ≡ false
    → Waits c.epoch_count c.retries c.id c.err c.signalled c
began c on silent open_yet = record {
  on = on;
  silent = silent;
  open_yet = open_yet;
  counted = refl;
  limited = refl;
  named = refl;
  reported = refl;
  unanswered = refl;
}

-- A client whose handler runs, is not closing and has an empty channel, on a schedule of its handler
-- in which nothing arrives and with which the epochs without a message, counted on, stay below
-- `EpochLimit`: at the end the handler still runs, has counted them and has reported nothing.
pub waits_below_limit :
    (c : Client) (ts : List Turn)
    → c.running ≡ true
    → c.incoming ≡ []
    → has_status c.status start_closing ≡ false
    → c.epoch_count + fires ts < c.retries
    → let d = rounds ts c in
      (d.running ≡ true) × (d.epoch_count ≡ c.epoch_count + fires ts) × (d.err ≡ c.err)
waits_below_limit c ts on silent open_yet few =
    let v = rounds-Waits ts c.epoch_count _ c (began c on silent open_yet) refl few in
    (v.on, v.counted, v.reported)

-- A client whose handler runs, is not closing and has an empty channel, and has counted fewer epochs
-- than `EpochLimit`, on a schedule of its handler in which nothing arrives and with which the epochs
-- reach the limit: at the end the handler has returned in status `handlerClosed` and has reported the
-- loss of its connection, once.
pub lost_at_limit :
    (c : Client) (ts : List Turn)
    → c.running ≡ true
    → c.incoming ≡ []
    → has_status c.status start_closing ≡ false
    → c.epoch_count < c.retries
    → c.retries ≤ c.epoch_count + fires ts
    → let d = rounds ts c in
      (d.running ≡ false)
      × (d.status ≡ handler_closed)
      × (d.err ≡ c.err ++ connection_lost c.id ∷ [])
lost_at_limit c ts on silent open_yet below many =
    let s = rounds-Stopped ts c.epoch_count c (began c on silent open_yet) below many in
    (s.off, s.closed_now, s.reported)
