-- ===== src/Kv/Tests.antt =====
-- Runs of the key-value server's parts.
use dsystem_homework.Base.{bytes_beq, bytes_key, ◌≡◌, refl, List, [], ◌∷◌, length, map, In}
use dsystem_homework.Kv.Store.{Bytes}
use dsystem_homework.Kv.Receiver.{receiver}
use dsystem_homework.Kv.Receiver.Parses.{
  Ask, asks_get, asks_set, stream, request_of, receiver_reads,
}
use dsystem_homework.Kv.Dispatch.{Client, collect}
use dsystem_homework.Kv.Dispatch.Answers.{last_set_answers}

abbrev k : Bytes
k = 107 ∷ []

abbrev v : Bytes
v = 118 ∷ 44 ∷ []

abbrev asks : List Ask
asks = asks_set k v ∷ asks_get k ∷ []

receiver_reads_example : receiver (length (stream asks)) (stream asks) ≡ map request_of asks
receiver_reads_example = receiver_reads asks (((refl, tt), (refl, (refl, tt))), ((refl, tt), tt))

abbrev setter : Client
setter = record { req = request_of (asks_set k v) ∷ []; res = [] }

abbrev getter : Client
getter = record { req = request_of (asks_get k) ∷ []; res = [] }

abbrev silent : Client
silent = record { req = []; res = [] }

last_set_answers_example :
    In
      (record { command = []; key = k; value = v })
      (collect (silent ∷ setter ∷ silent ∷ getter ∷ getter ∷ []) []).answers
unfolding bytes_beq
last_set_answers_example =
    last_set_answers (silent ∷ []) (silent ∷ getter ∷ []) [] setter getter []
      (request_of (asks_set k v)) (request_of (asks_get k)) [] [] refl refl refl refl refl
      (refl, (refl, tt))
