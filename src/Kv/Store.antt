-- ===== src/Kv/Store.antt =====
-- project-1/src/example.com/p1/kv.go: the store, a map from keys to values. A key or a value is a
-- list of bytes; a missing key gives nil, which prints and compares as no bytes.
use dsystem_homework.Base.{ℕ, List, [], Option, none, some, Dict, lookup, insert, bytes_key}

abbrev pub Bytes : Type 0
Bytes = List ℕ

abbrev pub Store : Type 0
Store = Dict Bytes Bytes

abbrev pub create_db : Store
create_db = []

abbrev pub set : Bytes → Bytes → Store → Store
set key value kvstore = insert key value kvstore

abbrev or_nil : Option Bytes → Bytes
or_nil none = []
or_nil (some v) = v

abbrev pub get : Bytes → Store → Bytes
get key kvstore = or_nil (lookup key kvstore)
