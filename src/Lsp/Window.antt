-- ===== src/Lsp/Window.antt =====
-- The sliding window of project-2/src/example.com/lsp: the loop for `minUnAcked`, the test before
-- a send, and what every operation of an end keeps.
pub mod Keeps
use dsystem_homework.Base.{
  ℕ, suc, ◌+◌, ◌≤◌, ◌<◌, ◌≡◌, ◌↔◌, refl, inl, inr, ℤ, pos, pos_part, neg_part, ◌-ℤ◌, ltb_ℤ, int_eq,
  true, false, List, [], ◌∷◌, All, All-mono, All-insert, All-delete, Dict, lookup, insert, delete,
  some, none, arith, Bool-cases, Option-cases, if◌then◌else◌,
}
use dsystem_homework.Lsp.Message.{Message}
use dsystem_homework.Lsp.Endpoint.{Endpoint, min_un_acked, window_open, forget, transmit, send_next}

infix 50 ◌≤ℤ◌
abbrev pub ◌≤ℤ◌ : ℤ → ℤ → Type 0
a ≤ℤ b = pos_part a + neg_part b ≤ pos_part b + neg_part a

smaller : ℤ → ℤ → ℤ
smaller sq least = if ltb_ℤ sq least then sq else least

smaller-le : (sq least : ℤ) → (smaller sq least ≤ℤ sq) × (smaller sq least ≤ℤ least)
unfolding smaller
smaller-le sq least = ground arith

le_trans_ℤ : (a b c : ℤ) → a ≤ℤ b → b ≤ℤ c → a ≤ℤ c
le_trans_ℤ a b c h k = omega arith

min_un_acked-le_least : (least : ℤ) (m : Dict ℤ Message) → min_un_acked least m ≤ℤ least
unfolding min_un_acked smaller
min_un_acked-le_least least [] = omega arith
min_un_acked-le_least least ((sq, v) ∷ rest) =
    le_trans_ℤ _ _ least (min_un_acked-le_least (smaller sq least) rest) (smaller-le sq least).1

-- The loop's result is at most every key.
min_un_acked-le :
    (least : ℤ) (m : Dict ℤ Message) → All (λ entry. min_un_acked least m ≤ℤ entry.0) m
unfolding min_un_acked smaller
min_un_acked-le least [] = tt
min_un_acked-le least ((sq, v) ∷ rest) = (
  le_trans_ℤ _ _ sq (min_un_acked-le_least (smaller sq least) rest) (smaller-le sq least).0,
  min_un_acked-le (smaller sq least) rest,
)

-- And it is the start value or a key.
min_un_acked_is :
    (P : ℤ → Type 0) (least : ℤ) (m : Dict ℤ Message)
    → P least
    → All (λ entry. P entry.0) m
    → P (min_un_acked least m)
unfolding min_un_acked
min_un_acked_is P least [] h all = h
min_un_acked_is P least ((sq, v) ∷ rest) h all = elim (Bool-cases (ltb_ℤ sq least)) [
  | inl less ↦ rw less (min_un_acked_is P sq rest all.0 all.1)
  | inr more ↦ rw more (min_un_acked_is P least rest h all.1)
]

-- The next number is less than `windows` above the number of an entry.
abbrev pub HasRoom : ℕ → ℕ → ℤ × Message → Type 0
HasRoom tsq windows entry = tsq + neg_part entry.0 < pos_part entry.0 + windows

room_test :
    (tsq windows : ℕ) (z : ℤ)
    → ((ltb_ℤ (pos tsq -ℤ z) (pos windows) ≡ true) ↔ (tsq + neg_part z < pos_part z + windows))
room_test tsq windows z = (λ h. ground arith, λ h. ground arith)

-- The test before a send says exactly that the window is not empty and that the next number is
-- less than `windows` above the number of each unacknowledged message.
pub window_open_iff :
    (c : Endpoint)
    → (window_open c ≡ true) ↔ ((0 < c.windows) × All (HasRoom c.tsq c.windows) c.tbuffer)
unfolding window_open
window_open_iff c = (to, from)
  where
    least : ℤ
    least = min_un_acked (pos c.tsq) c.tbuffer

    to : window_open c ≡ true → (0 < c.windows) × All (HasRoom c.tsq c.windows) c.tbuffer
    to h =
        let room : c.tsq + neg_part least < pos_part least + c.windows =
          (room_test c.tsq c.windows least).0 h in
        (
          omega (arith, min_un_acked-le_least (pos c.tsq) c.tbuffer),
          All-mono _ _ c.tbuffer (λ entry le. omega arith) (min_un_acked-le (pos c.tsq) c.tbuffer),
        )

    from : (0 < c.windows) × All (HasRoom c.tsq c.windows) c.tbuffer → window_open c ≡ true
    from h = (room_test c.tsq c.windows least).1 (
        min_un_acked_is (λ z. c.tsq + neg_part z < pos_part z + c.windows) (pos c.tsq) c.tbuffer
          (omega arith) h.1)
