-- ===== src/Bufchan.antt =====
-- bufchan/buffchan.go: a channel with unlimited storage. The values in the list of package container
-- are a list, the lock makes each method one step, and `nil` for an empty channel is none.
mod Tests
use dsystem_homework.Base.{
  ◌≡◌, refl, sym, ◌∙◌, ap, List, [], ◌∷◌, ◌++◌, Option, none, some, append_assoc, append-nil,
}

module _ {ℓ} {A : Type ℓ} where
  abbrev pub new : List A
  new = []

  abbrev pub append : A → List A → List A
  append v l = l ++ v ∷ []

  -- `Remove` waits while the channel is empty: none.
  abbrev pub remove : List A → Option (A × List A)
  remove [] = none
  remove (v ∷ l) = some (v, l)

  abbrev pub inspect : List A → Option A
  inspect [] = none
  inspect (v ∷ l) = some v

  abbrev pub async_remove : List A → Option A × List A
  async_remove [] = (none, [])
  async_remove (v ∷ l) = (some v, l)

-- A call of a method, by any goroutine.
pub data Call {ℓ} (A : Type ℓ) : Type ℓ where
  appends : A → Call A
  removes inspects async_removes : Call A

-- What is in the channel, and what was appended, removed and seen by `Inspect` so far.
pub record History {ℓ} (A : Type ℓ) : Type ℓ where
  pub stored : List A
  pub put : List A
  pub taken : List A
  pub looked : List (Option A)

module _ {ℓ} {A : Type ℓ} where
  abbrev take_out : History A → Option (A × List A) → History A
  take_out h none = h
  take_out h (some (v, l)) = record h { stored = l; taken = h.taken ++ v ∷ [] }

  abbrev take_now : History A → Option A × List A → History A
  take_now h (none, l) = record h { stored = l }
  take_now h (some v, l) = record h { stored = l; taken = h.taken ++ v ∷ [] }

  abbrev look : History A → Option A → History A
  look h found = record h { looked = h.looked ++ found ∷ [] }

  abbrev pub call : Call A → History A → History A
  call (appends v) h = record h { stored = append v h.stored; put = h.put ++ v ∷ [] }
  call removes h = take_out h (remove h.stored)
  call inspects h = look h (inspect h.stored)
  call async_removes h = take_now h (async_remove h.stored)

  unfoldable pub calls : List (Call A) → History A → History A
  calls [] h = h
  calls (c ∷ cs) h = calls cs (call c h)

  Whole : History A → Type ℓ
  Whole h = h.taken ++ h.stored ≡ h.put

  take_out-Whole :
      (h : History A) (l : List A) → h.stored ≡ l → Whole h → Whole (take_out h (remove l))
  unfolding Whole
  take_out-Whole h [] e w = w
  take_out-Whole h (v ∷ l) e w = append_assoc h.taken (v ∷ []) l ∙ rw e at w

  take_now-Whole :
      (h : History A) (l : List A) → h.stored ≡ l → Whole h → Whole (take_now h (async_remove l))
  unfolding Whole
  take_now-Whole h [] e w = rw e at w
  take_now-Whole h (v ∷ l) e w = append_assoc h.taken (v ∷ []) l ∙ rw e at w

  call-Whole : (c : Call A) (h : History A) → Whole h → Whole (call c h)
  unfolding Whole
  call-Whole (appends v) h w = sym (append_assoc h.taken h.stored (v ∷ [])) ∙ ap (append v) w
  call-Whole removes h w = take_out-Whole h h.stored refl w
  call-Whole inspects h w = w
  call-Whole async_removes h w = take_now-Whole h h.stored refl w

  calls-Whole : (cs : List (Call A)) (h : History A) → Whole h → Whole (calls cs h)
  unfolding calls
  calls-Whole [] h w = w
  calls-Whole (c ∷ cs) h w = calls-Whole cs (call c h) (call-Whole c h w)

  -- Whatever calls are made on a new channel, in any order and by any goroutines: what was removed,
  -- in its order, and then what is stored is what was appended, in its order.
  pub first_in_first_out :
      (cs : List (Call A))
      → let h = calls cs (record { stored = new; put = []; taken = []; looked = [] }) in
        h.taken ++ h.stored ≡ h.put
  unfolding Whole
  first_in_first_out cs = calls-Whole cs _ refl
