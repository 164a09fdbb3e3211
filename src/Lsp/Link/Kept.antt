-- ===== src/Lsp/Link/Kept.antt =====
-- The rule for invariants of both ends: what the operations of Lsp/Endpoint keep, every step of
-- Lsp/Link keeps.
use dsystem_homework.Base.{arith, Bool-cases, inl, inr}
use dsystem_homework.Lsp.Status.{not_closing, start_closing, has_status}
use dsystem_homework.Lsp.Endpoint.{Endpoint}
use dsystem_homework.Lsp.Client
use dsystem_homework.Lsp.Client.{Client, got, failed, new_client}
use dsystem_homework.Lsp.Info.{ClientInfo}
use dsystem_homework.Lsp.Server.{begin_closing}
use dsystem_homework.Lsp.Kept.{Kept, client_handle-Kept, client_status-Kept, info_handle-Kept}
use dsystem_homework.Lsp.Link.{
  Link, Step, Reach, client_writes, client_reads, client_fails, client_hears, client_turns,
  client_closes, client_polls, client_unplugged, server_writes, server_passes, server_drops,
  info_hears, info_turns, info_closes, server_closes, here, next,
}
use dsystem_homework.Lsp.Link.Invariant.{read_data, read_error}

-- At each end the invariant of that end.
pub record Both (P Q : Endpoint → Type 0) (l : Link) : Type 0 where
  pub client_end : P l.client.endpoint
  pub info_end : Q l.info.endpoint

module _ {P Q : Endpoint → Type 0} (p : Kept P) (q : Kept Q) where
  begin_closing-Kept : (c : ClientInfo) → Q c.endpoint → Q (begin_closing c).endpoint
  begin_closing-Kept c h = elim (Bool-cases (has_status c.status not_closing)) [
    | inl fresh ↦ rw fresh (q.by_rest c.endpoint c.id c.epoch_count start_closing h)
    | inr late ↦ rw late h
  ]

  pub Step-Both : {l m : Link} → Step l m → Both P Q l → Both P Q m
  unfolding Client.write Client.read Client.start_close Client.close_round Client.read_failed
  Step-Both {l} (client_writes payload) b = record {
    client_end = p.by_write _ l.client.endpoint b.client_end;
    info_end = b.info_end;
  }
  Step-Both {l} (client_reads prefer payload c e) b =
      let (rest, _, same) = read_data prefer l.client l.client.rmsg l.client.err payload c e in
      record { client_end = rw same b.client_end; info_end = b.info_end }
  Step-Both {l} (client_fails prefer x c e) b =
      let (rest, same) = read_error prefer l.client l.client.rmsg l.client.err x c e in
      record { client_end = rw same b.client_end; info_end = b.info_end }
  Step-Both (client_hears m a) b = record { client_end = b.client_end; info_end = b.info_end }
  Step-Both {l} (client_turns t) b = record {
    client_end = client_handle-Kept p t l.client b.client_end;
    info_end = b.info_end;
  }
  Step-Both {l} client_closes b = record {
    client_end =
        client_status-Kept p l.client (Client.start_close l.client) (ground arith) b.client_end;
    info_end = b.info_end;
  }
  Step-Both {l} client_polls b = record {
    client_end =
        client_status-Kept p l.client (Client.close_round l.client).client (ground arith)
          b.client_end;
    info_end = b.info_end;
  }
  Step-Both {l} client_unplugged b = record {
    client_end =
        client_status-Kept p l.client (Client.read_failed l.client) (ground arith) b.client_end;
    info_end = b.info_end;
  }
  Step-Both (server_writes payload) b = record { client_end = b.client_end; info_end = b.info_end }
  Step-Both (server_drops payload rest e off) b = record {
    client_end = b.client_end;
    info_end = b.info_end;
  }
  Step-Both {l} (server_passes payload rest e on) b = record {
    client_end = b.client_end;
    info_end = q.by_write _ l.info.endpoint b.info_end;
  }
  Step-Both (info_hears m a) b = record { client_end = b.client_end; info_end = b.info_end }
  Step-Both {l} (info_turns t) b = record {
    client_end = b.client_end;
    info_end = info_handle-Kept q l.closing t l.info b.info_end;
  }
  Step-Both {l} info_closes b = record {
    client_end = b.client_end;
    info_end = begin_closing-Kept l.info b.info_end;
  }
  Step-Both server_closes b = record { client_end = b.client_end; info_end = b.info_end }

  pub Reach-Both : {l m : Link} → Reach l m → Both P Q l → Both P Q m
  Reach-Both here b = b
  Reach-Both (next r s) b = Step-Both s (Reach-Both r b)
