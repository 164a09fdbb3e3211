-- ===== src/Lsp/Flow/Drain.antt =====
-- The inner loop of a handler, `drain` of Lsp/Endpoint.
use dsystem_homework.Base.{
  ℕ, zero, suc, ◌≤◌, ◌≡◌, sym, ap, ◌∙◌, inl, inr, ℤ, pos, int_beq, int_eq, List, [], ◌∷◌, ◌++◌,
  some, length, get_elem?, take-suc, length-append, get_elem?_lt, append_assoc, Dict, lookup,
  delete, lookup_empty, lookup-delete, length-delete-lt, arith, Bool-cases, Option-cases,
}
use dsystem_homework.Lsp.Message.{Bytes}
use dsystem_homework.Lsp.Endpoint.{Inbox, drain}
use dsystem_homework.Lsp.Flow.{Gets, Drained, Got}

-- One round of the loop.
abbrev advance : Inbox → Bytes → Inbox
advance b payload = record {
  rsq = suc b.rsq;
  rbuffer = delete (pos b.rsq) b.rbuffer;
  delivered = b.delivered ++ payload ∷ [];
}

module _ (sent : List Bytes) where
  next_payload :
      (taken : List Bytes) (rsq : ℕ) (rbuffer : Dict ℤ Bytes) (payload : Bytes)
      → lookup (pos rsq) rbuffer ≡ some payload
      → Gets sent taken rsq rbuffer
      → get_elem? sent (length taken) ≡ some payload
  next_payload taken rsq rbuffer payload h g = g.stored (length taken) payload (rw g.counted at h)

  Gets-next :
      (taken : List Bytes) (rsq : ℕ) (rbuffer : Dict ℤ Bytes) (payload : Bytes)
      → lookup (pos rsq) rbuffer ≡ some payload
      → Gets sent taken rsq rbuffer
      → Gets sent (taken ++ payload ∷ []) (suc rsq) (delete (pos rsq) rbuffer)
  Gets-next taken rsq rbuffer payload h g =
      let next = next_payload taken rsq rbuffer payload h g in
      let longer : length (taken ++ payload ∷ []) ≡ suc (length taken) =
        omega (arith, length-append taken (payload ∷ [])) in
      record {
        counted = omega (arith, g.counted);
        within = omega (arith, get_elem?_lt sent (length taken) next);
        in_order =
            rw longer
              (ap (λ xs. xs ++ payload ∷ []) g.in_order ∙ sym (take-suc (length taken) sent next));
        stored =
            λ k q e. g.stored k q (ground (arith, lookup-delete (pos rsq) (pos (suc k)) rbuffer));
      }

  pub drain-Gets :
      (fuel : ℕ) (before : List Bytes) (b : Inbox)
      → Gets sent (before ++ b.delivered) b.rsq b.rbuffer
      → let b' = drain fuel b in Gets sent (before ++ b'.delivered) b'.rsq b'.rbuffer
  unfolding drain
  drain-Gets zero before b g = g
  drain-Gets (suc fuel) before b g = elim (Option-cases (lookup (pos b.rsq) b.rbuffer)) [
    | inl e ↦ rw (e, drain) g
    | inr (payload, e) ↦
        rw (e, drain)
          (drain-Gets fuel before (advance b payload) (
            rw (← append_assoc before b.delivered (payload ∷ []))
              (Gets-next (before ++ b.delivered) b.rsq b.rbuffer payload e g)))
  ]

-- The inner loop of a handler, on any fuel from the length of the receive buffer on, ends by its own
-- test: the buffer that it leaves has nothing under the number that it leaves.
pub drain_stops :
    (fuel : ℕ) (b : Inbox)
    → length b.rbuffer ≤ fuel
    → let b' = drain fuel b in Drained b'.rsq b'.rbuffer
unfolding drain
drain_stops zero b h = lookup_empty (pos b.rsq) b.rbuffer h
drain_stops (suc fuel) b h = elim (Option-cases (lookup (pos b.rsq) b.rbuffer)) [
  | inl e ↦ rw (e, drain) e
  | inr (payload, e) ↦
      rw (e, drain)
        (drain_stops fuel (advance b payload)
          (omega (arith, length-delete-lt (pos b.rsq) b.rbuffer payload e)))
]

advance-Got :
    (b : Inbox) (payload : Bytes) (k : ℕ)
    → Got b.rsq b.rbuffer k
    → Got (suc b.rsq) (delete (pos b.rsq) b.rbuffer) k
advance-Got b payload k (inl below) = inl (omega arith)
advance-Got b payload k (inr (q, e)) = elim (Bool-cases (int_beq (pos b.rsq) (pos (suc k)))) [
  | inl hit ↦ inl (ground arith)
  | inr miss ↦ inr (q, rw (lookup-delete (pos b.rsq) (pos (suc k)) b.rbuffer, miss) e)
]

pub drain-Got :
    (fuel : ℕ) (b : Inbox) (k : ℕ)
    → Got b.rsq b.rbuffer k
    → let b' = drain fuel b in Got b'.rsq b'.rbuffer k
unfolding drain
drain-Got zero b k g = g
drain-Got (suc fuel) b k g = elim (Option-cases (lookup (pos b.rsq) b.rbuffer)) [
  | inl e ↦ rw (e, drain) g
  | inr (payload, e) ↦
      rw (e, drain) (drain-Got fuel (advance b payload) k (advance-Got b payload k g))
]
