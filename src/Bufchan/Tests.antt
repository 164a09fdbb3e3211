-- ===== src/Bufchan/Tests.antt =====
-- A run of a buffered channel.
use dsystem_homework.Base.{ℕ, ◌≡◌, List, [], ◌∷◌, ◌++◌}
use dsystem_homework.Bufchan.{
  Call, appends, removes, inspects, async_removes, calls, new, first_in_first_out,
}

abbrev some_calls : List (Call ℕ)
some_calls = appends 3 ∷ async_removes ∷ appends 4 ∷ inspects ∷ removes ∷ removes ∷ []

first_in_first_out_example :
    let h = calls some_calls (record { stored = new; put = []; taken = []; looked = [] }) in
    h.taken ++ h.stored ≡ h.put
first_in_first_out_example = first_in_first_out some_calls
