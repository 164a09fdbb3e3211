-- ===== src/Lsp/Flow/Sender.antt =====
-- The sending half: `enqueue`, `send_next`, `forget` and `pending` of Lsp/Endpoint.
use mathlib.Core.List.{map-append}
use dsystem_homework.Base.{
  ℕ, suc, ◌≡◌, refl, sym, ap, ◌∙◌, ◌⊎◌, inl, inr, ℤ, pos, int_beq, int_eq, int_beq_iff, true, List,
  [], ◌∷◌, ◌++◌, length, length-append, get_elem?-length, get_elem?-append_left, append_assoc,
  All-mono, All-append, All-insert, Dict, insert, delete, lookup-insert, lookup-delete, arith,
  Bool-cases,
}
use dsystem_homework.Lsp.Message.{Bytes, Message}
use dsystem_homework.Lsp.Endpoint.{Endpoint, Outcome, window_open, transmit, send_next}
use dsystem_homework.Lsp.Flow.{Got, Carries, IsUnsent, payloads, Sends, Settled}

pub Carries-append :
    (sent more : List Bytes) (m : Message) → Carries sent m → Carries (sent ++ more) m
Carries-append sent more m c is_data k e whole =
    get_elem?-append_left sent more k (c is_data k e whole)

pub Sends-enqueue :
    (written sent : List Bytes) (tsq : ℕ) (tmsg : List Message) (tbuffer : Dict ℤ Message)
    (m : Message)
    → IsUnsent m
    → Sends written sent tsq tmsg tbuffer
    → Sends (written ++ m.payload ∷ []) sent tsq (tmsg ++ m ∷ []) tbuffer
Sends-enqueue written sent tsq tmsg tbuffer m u s = record {
  numbered = s.numbered;
  all_written =
      ap (λ xs. xs ++ m.payload ∷ []) s.all_written
      ∙ append_assoc sent (payloads tmsg) (m.payload ∷ [])
      ∙ ap (λ xs. sent ++ xs) (sym (map-append _ tmsg (m ∷ [])));
  queued = All-append IsUnsent tmsg (m ∷ []) s.queued (u, tt);
  held = s.held;
}

-- What `send_next` does where it sends `m`.
abbrev pub Transmits : Endpoint → List Message → Outcome → Type 0
Transmits c queue o =
    (m : Message) × (rest : List Message) × (queue ≡ m ∷ rest)
    × (window_open c ≡ true)
    × (o ≡ transmit c (m ∷ rest))

transmit_cases :
    (c : Endpoint) (queue : List Message)
    → window_open c ≡ true
    → (transmit c queue ≡ transmit c []) ⊎ Transmits c queue (transmit c queue)
transmit_cases c [] w = inl refl
transmit_cases c (m ∷ rest) w = inr (m, rest, refl, w, refl)

pub send_next_cases :
    (c : Endpoint) → (send_next c ≡ transmit c []) ⊎ Transmits c c.tmsg (send_next c)
unfolding send_next
send_next_cases c = elim (Bool-cases (window_open c)) [
  | inl w ↦ ground (arith, transmit_cases c c.tmsg w)
  | inr shut ↦ inl (ground arith)
]

abbrev pub numbered_message : ℕ → Message → Message
numbered_message tsq m = record m { seq_num = pos tsq }

pub Carries-numbered :
    (sent : List Bytes) (tsq : ℕ) (m : Message)
    → tsq ≡ suc (length sent)
    → Carries (sent ++ m.payload ∷ []) (numbered_message tsq m)
Carries-numbered sent tsq m numbered is_data k e whole =
    let same : length sent ≡ k = ground arith in rw (← same) (get_elem?-length sent m.payload [])

pub Sends-transmit :
    (written sent : List Bytes) (tsq : ℕ) (m : Message) (rest : List Message)
    (tbuffer : Dict ℤ Message)
    → Sends written sent tsq (m ∷ rest) tbuffer
    → Sends written
        (sent ++ m.payload ∷ [])
        (suc tsq)
        rest
        (insert (pos tsq) (numbered_message tsq m) tbuffer)
Sends-transmit written sent tsq m rest tbuffer s = record {
  numbered = omega (arith, s.numbered, length-append sent (m.payload ∷ []));
  all_written = s.all_written ∙ sym (append_assoc sent (m.payload ∷ []) (payloads rest));
  queued = s.queued.1;
  held =
      All-insert _ (pos tsq) _ tbuffer
        (Carries-numbered sent tsq m s.numbered, λ e. cc (sym e ∙ s.queued.0.0))
        (All-mono _ _ tbuffer (λ entry h. (Carries-append sent _ entry.1 h.0, h.1)) s.held);
}

pub Settled-transmit :
    (sent : List Bytes) (payload : Bytes) (tsq : ℕ) (m : Message) (tbuffer : Dict ℤ Message)
    (rsq : ℕ) (rbuffer : Dict ℤ Bytes)
    → tsq ≡ suc (length sent)
    → Settled sent tbuffer rsq rbuffer
    → Settled (sent ++ payload ∷ []) (insert (pos tsq) m tbuffer) rsq rbuffer
Settled-transmit sent payload tsq m tbuffer rsq rbuffer numbered s k below gone =
    elim (Bool-cases (int_beq (pos tsq) (pos (suc k)))) [
      | inl hit ↦ absurd (ground (arith, lookup-insert (pos tsq) (pos (suc k)) m tbuffer))
      | inr miss ↦
          s k (ground (arith, length-append sent (payload ∷ [])))
            (ground (arith, lookup-insert (pos tsq) (pos (suc k)) m tbuffer))
    ]

pub Settled-forget :
    (sent : List Bytes) (sq : ℤ) (tbuffer : Dict ℤ Message) (rsq : ℕ) (rbuffer : Dict ℤ Bytes)
    → ((k : ℕ) → sq ≡ pos (suc k) → Got rsq rbuffer k)
    → Settled sent tbuffer rsq rbuffer
    → Settled sent (delete sq tbuffer) rsq rbuffer
Settled-forget sent sq tbuffer rsq rbuffer acked s k below gone =
    elim (Bool-cases (int_beq sq (pos (suc k)))) [
      | inl hit ↦ acked k ((int_beq_iff sq (pos (suc k))).0 hit)
      | inr miss ↦ s k below (ground (arith, lookup-delete sq (pos (suc k)) tbuffer))
    ]
