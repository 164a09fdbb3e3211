-- ===== src/Lspnet/Staff/Bounds.antt =====
-- The percentages of project-2/src/example.com/lspnet/staff.go.
use dsystem_homework.Base.{
  ℕ, ◌≤◌, Bool, true, false, List, [], ◌∷◌, Option, Dict, none, some, ℤ, pos, negsuc, nat_key,
  arith,
}
use dsystem_homework.Lspnet.Staff.{
  Staff, no_drops, store, in_percent, set_client_read_drop, set_client_write_drop,
  set_server_read_drop, set_server_write_drop, set_read_drop, set_write_drop, set_msg_shortening,
  set_msg_lengthening, reset_drop, drop_of, read_drop, write_drop, listen_udp, dial_udp, close,
  Call, sets_client_read, sets_client_write, sets_server_read, sets_server_write, sets_read,
  sets_write, sets_shortening, sets_lengthening, resets, listens, dials, closes, call, calls,
}

record HasPercents (s : Staff) : Type 0 where
  pub client_read : s.client_read_drop ≤ 100
  pub client_write : s.client_write_drop ≤ 100
  pub server_read : s.server_read_drop ≤ 100
  pub server_write : s.server_write_drop ≤ 100

store_le : (p : ℤ) (old : ℕ) → old ≤ 100 → store (in_percent p) p old ≤ 100
store_le (pos n) old h = ground arith
store_le (negsuc n) old h = ground arith

module _ (p : ℤ) (s : Staff) (h : HasPercents s) where
  set_client_read_drop-HasPercents : HasPercents (set_client_read_drop p s)
  unfolding set_client_read_drop
  set_client_read_drop-HasPercents = record {
    client_read = store_le p s.client_read_drop h.client_read;
    client_write = h.client_write;
    server_read = h.server_read;
    server_write = h.server_write;
  }

  set_client_write_drop-HasPercents : HasPercents (set_client_write_drop p s)
  unfolding set_client_write_drop
  set_client_write_drop-HasPercents = record {
    client_read = h.client_read;
    client_write = store_le p s.client_write_drop h.client_write;
    server_read = h.server_read;
    server_write = h.server_write;
  }

  set_server_read_drop-HasPercents : HasPercents (set_server_read_drop p s)
  unfolding set_server_read_drop
  set_server_read_drop-HasPercents = record {
    client_read = h.client_read;
    client_write = h.client_write;
    server_read = store_le p s.server_read_drop h.server_read;
    server_write = h.server_write;
  }

  set_server_write_drop-HasPercents : HasPercents (set_server_write_drop p s)
  unfolding set_server_write_drop
  set_server_write_drop-HasPercents = record {
    client_read = h.client_read;
    client_write = h.client_write;
    server_read = h.server_read;
    server_write = store_le p s.server_write_drop h.server_write;
  }

  set_msg_shortening-HasPercents : HasPercents (set_msg_shortening p s)
  unfolding set_msg_shortening
  set_msg_shortening-HasPercents = record {
    client_read = h.client_read;
    client_write = h.client_write;
    server_read = h.server_read;
    server_write = h.server_write;
  }

  set_msg_lengthening-HasPercents : HasPercents (set_msg_lengthening p s)
  unfolding set_msg_lengthening
  set_msg_lengthening-HasPercents = record {
    client_read = h.client_read;
    client_write = h.client_write;
    server_read = h.server_read;
    server_write = h.server_write;
  }

set_read_drop-HasPercents : (p : ℤ) (s : Staff) → HasPercents s → HasPercents (set_read_drop p s)
unfolding set_read_drop
set_read_drop-HasPercents p s h =
    set_server_read_drop-HasPercents p (set_client_read_drop p s)
      (set_client_read_drop-HasPercents p s h)

set_write_drop-HasPercents : (p : ℤ) (s : Staff) → HasPercents s → HasPercents (set_write_drop p s)
unfolding set_write_drop
set_write_drop-HasPercents p s h =
    set_server_write_drop-HasPercents p (set_client_write_drop p s)
      (set_client_write_drop-HasPercents p s h)

connected-HasPercents :
    (s : Staff) (cs : Dict ℕ Bool) → HasPercents s → HasPercents (record s { connections = cs })
connected-HasPercents s cs h = record {
  client_read = h.client_read;
  client_write = h.client_write;
  server_read = h.server_read;
  server_write = h.server_write;
}

call-HasPercents : (c : Call) (s : Staff) → HasPercents s → HasPercents (call c s)
unfolding call reset_drop listen_udp dial_udp close
call-HasPercents (sets_client_read p) s h = set_client_read_drop-HasPercents p s h
call-HasPercents (sets_client_write p) s h = set_client_write_drop-HasPercents p s h
call-HasPercents (sets_server_read p) s h = set_server_read_drop-HasPercents p s h
call-HasPercents (sets_server_write p) s h = set_server_write_drop-HasPercents p s h
call-HasPercents (sets_read p) s h = set_read_drop-HasPercents p s h
call-HasPercents (sets_write p) s h = set_write_drop-HasPercents p s h
call-HasPercents (sets_shortening p) s h = set_msg_shortening-HasPercents p s h
call-HasPercents (sets_lengthening p) s h = set_msg_lengthening-HasPercents p s h
call-HasPercents resets s h =
    set_write_drop-HasPercents (pos 0) (set_read_drop (pos 0) s)
      (set_read_drop-HasPercents (pos 0) s h)
call-HasPercents (listens none) s h = h
call-HasPercents (listens (some c)) s h = connected-HasPercents s _ h
call-HasPercents (dials none) s h = h
call-HasPercents (dials (some c)) s h = connected-HasPercents s _ h
call-HasPercents (closes c) s h = connected-HasPercents s _ h

calls-HasPercents : (cs : List Call) (s : Staff) → HasPercents s → HasPercents (calls cs s)
unfolding calls
calls-HasPercents [] s h = h
calls-HasPercents (c ∷ cs) s h = calls-HasPercents cs (call c s) (call-HasPercents c s h)

drop_of_le :
    (is_server : Option Bool) (server client : ℕ)
    → server ≤ 100
    → client ≤ 100
    → drop_of is_server server client ≤ 100
unfolding drop_of
drop_of_le none server client h k = omega arith
drop_of_le (some true) server client h k = h
drop_of_le (some false) server client h k = k

-- Whatever calls are made of the setters, with whatever values, and whichever connections are made and
-- closed: a read and a write on any connection are dropped with at most 100 percent.
pub drops_bounded :
    (cs : List Call) (c : ℕ)
    → (read_drop c (calls cs no_drops) ≤ 100) × (write_drop c (calls cs no_drops) ≤ 100)
unfolding read_drop write_drop
drops_bounded cs c =
    let h = calls-HasPercents cs no_drops (record {
      client_read = omega arith;
      client_write = omega arith;
      server_read = omega arith;
      server_write = omega arith;
    }) in
    (drop_of_le _ _ _ h.server_read h.client_read, drop_of_le _ _ _ h.server_write h.client_write)
