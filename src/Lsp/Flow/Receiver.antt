-- ===== src/Lsp/Flow/Receiver.antt =====
-- The receiving half: `save`, `collect` and `on_data` of Lsp/Endpoint.
use dsystem_homework.Base.{
  ℕ, suc, ◌≡◌, refl, sym, ◌∙◌, ◌≢◌, ◌⊎◌, inl, inr, ℤ, pos, ltb_ℤ, int_beq, int_eq, int_beq_iff,
  List, ◌++◌, some, length, get_elem?, append-nil, All, Dict, lookup, lookup-insert, arith,
  Bool-cases, Option-cases,
}
use dsystem_homework.Lsp.Message.{Bytes, Message, msg_data, msg_ack}
use dsystem_homework.Lsp.Endpoint.{Endpoint, save, collect, on_data}
use dsystem_homework.Lsp.Flow.Drain.{drain-Gets, drain_stops, drain-Got}
use dsystem_homework.Lsp.Flow.{Gets, Drained, Got, Carries, Acks}

pub lookup-save :
    (sq j : ℤ) (payload : Bytes) (rbuffer : Dict ℤ Bytes) {q : Bytes}
    → lookup j (save sq payload rbuffer) ≡ some q
    → (lookup j rbuffer ≡ some q) ⊎ ((sq ≡ j) × (payload ≡ q))
unfolding save
lookup-save sq j payload rbuffer h =
    ground (arith, lookup-insert sq j payload rbuffer, int_beq_iff sq j)

pub save-keeps :
    (sq j : ℤ) (payload : Bytes) (rbuffer : Dict ℤ Bytes) {q : Bytes}
    → lookup j rbuffer ≡ some q
    → lookup j (save sq payload rbuffer) ≡ some q
unfolding save
save-keeps sq j payload rbuffer h =
    ground (arith, lookup-insert sq j payload rbuffer, int_beq_iff sq j)

pub collect-Got :
    (sq : ℤ) (rsq : ℕ) (rbuffer : Dict ℤ Bytes) (k : ℕ)
    → Got rsq rbuffer k
    → let b = collect sq rsq rbuffer in Got b.rsq b.rbuffer k
unfolding collect
collect-Got sq rsq rbuffer k g = elim (Bool-cases (int_beq sq (pos rsq))) [
  | inl hit ↦ rw hit (drain-Got (length rbuffer) _ k g)
  | inr miss ↦ rw miss g
]

pub collect-Gets :
    (sent taken : List Bytes) (sq : ℤ) (rsq : ℕ) (rbuffer : Dict ℤ Bytes)
    → Gets sent taken rsq rbuffer
    → (sq ≢ pos rsq → Drained rsq rbuffer)
    → let b = collect sq rsq rbuffer in
      Gets sent (taken ++ b.delivered) b.rsq b.rbuffer × Drained b.rsq b.rbuffer
unfolding collect
collect-Gets sent taken sq rsq rbuffer g d = elim (Bool-cases (int_beq sq (pos rsq))) [
  | inl hit ↦ rw hit (
    drain-Gets sent (length rbuffer) taken _ (rw (append-nil taken) g),
    drain_stops (length rbuffer) _ (omega arith),
  )
  | inr miss ↦
      rw miss (rw (append-nil taken) g, d (λ e. cc (sym miss ∙ (int_beq_iff sq (pos rsq)).1 e)))
]

save-Gets :
    (sent taken : List Bytes) (sq : ℤ) (payload : Bytes) (rsq : ℕ) (rbuffer : Dict ℤ Bytes)
    → ((k : ℕ) → sq ≡ pos (suc k) → get_elem? sent k ≡ some payload)
    → Gets sent taken rsq rbuffer
    → Gets sent taken rsq (save sq payload rbuffer)
save-Gets sent taken sq payload rsq rbuffer right g = record {
  counted = g.counted;
  within = g.within;
  in_order = g.in_order;
  stored = λ k q e. elim (lookup-save sq (pos (suc k)) payload rbuffer e) [
    | inl old ↦ g.stored k q old
    | inr (same_key, same) ↦ rw (← same) (right k same_key)
  ];
}

save-Drained :
    (sq : ℤ) (payload : Bytes) (rsq : ℕ) (rbuffer : Dict ℤ Bytes)
    → Drained rsq rbuffer
    → sq ≢ pos rsq
    → Drained rsq (save sq payload rbuffer)
save-Drained sq payload rsq rbuffer d other =
    elim (Option-cases (lookup (pos rsq) (save sq payload rbuffer))) [
      | inl e ↦ e
      | inr (q, e) ↦ elim (lookup-save sq (pos rsq) payload rbuffer e) [
        | inl old ↦ cc
        | inr (same_key, same) ↦ absurd (other same_key)
      ]
    ]

save-Got :
    (sq : ℤ) (payload : Bytes) (rsq : ℕ) (rbuffer : Dict ℤ Bytes) (k : ℕ)
    → Got rsq rbuffer k
    → Got rsq (save sq payload rbuffer) k
save-Got sq payload rsq rbuffer k (inl below) = inl below
save-Got sq payload rsq rbuffer k (inr (q, e)) =
    inr (q, save-keeps sq (pos (suc k)) payload rbuffer e)

-- After `save` the number itself has arrived.
pub save_self :
    (sq j : ℤ) (payload : Bytes) (rbuffer : Dict ℤ Bytes)
    → sq ≡ j
    → (q : Bytes) × (lookup j (save sq payload rbuffer) ≡ some q)
unfolding save
save_self sq j payload rbuffer same = elim (Option-cases (lookup sq rbuffer)) [
  | inl e ↦ (payload, ground (arith, lookup-insert sq j payload rbuffer, int_beq_iff sq j))
  | inr (q, e) ↦ (q, ground arith)
]

-- A data message leaves the receiver in order, with all that it can hand on handed on.
pub on_data-Gets :
    (sent taken : List Bytes) (m : Message) (c : Endpoint)
    → m.type ≡ msg_data
    → Carries sent m
    → Gets sent taken c.rsq c.rbuffer
    → Drained c.rsq c.rbuffer
    → let o = on_data m c in
      Gets sent (taken ++ o.delivered) o.endpoint.rsq o.endpoint.rbuffer
      × Drained o.endpoint.rsq o.endpoint.rbuffer
unfolding on_data
on_data-Gets sent taken m c is_data carries g d =
    elim (Bool-cases (ltb_ℤ (pos (length m.payload)) m.size)) [
      | inl short ↦ rw short (rw (append-nil taken) g, d)
      | inr whole ↦ rw whole (
          collect-Gets sent taken m.seq_num c.rsq _
            (save-Gets sent taken m.seq_num m.payload c.rsq c.rbuffer
              (λ k e. carries is_data k e whole) g)
            (save-Drained m.seq_num m.payload c.rsq c.rbuffer d))
    ]

pub on_data-Got :
    (m : Message) (c : Endpoint) (k : ℕ)
    → Got c.rsq c.rbuffer k
    → let o = on_data m c in Got o.endpoint.rsq o.endpoint.rbuffer k
unfolding on_data
on_data-Got m c k g = elim (Bool-cases (ltb_ℤ (pos (length m.payload)) m.size)) [
  | inl short ↦ rw short g
  | inr whole ↦
      rw whole (collect-Got m.seq_num c.rsq _ k (save-Got m.seq_num m.payload c.rsq c.rbuffer k g))
]

-- The answer to a data message acknowledges what has arrived.
pub on_data-Acks :
    (m : Message) (c : Endpoint)
    → let o = on_data m c in
      All (λ a. (a.type ≡ msg_ack) × Acks o.endpoint.rsq o.endpoint.rbuffer a) o.sent
unfolding on_data
on_data-Acks m c = elim (Bool-cases (ltb_ℤ (pos (length m.payload)) m.size)) [
  | inl short ↦ rw short tt
  | inr whole ↦ rw whole (
    (
      refl,
      λ _ k e.
          collect-Got m.seq_num c.rsq _ k
            (inr (save_self m.seq_num (pos (suc k)) m.payload c.rbuffer e)),
    ),
    tt,
  )
]
