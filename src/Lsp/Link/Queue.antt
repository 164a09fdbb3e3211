-- ===== src/Lsp/Link/Queue.antt =====
-- Where the payloads are that were written at the server's end of a connection of Lsp/Link.
use dsystem_homework.Base.{◌≡◌, refl, sym, ap, ◌∙◌, ℤ, true, [], ◌∷◌, ◌++◌, append_assoc, int_eq}
use dsystem_homework.Lsp.Status.{Params}
use dsystem_homework.Lsp.Info.{Addr}
use dsystem_homework.Lsp.Link.{
  Link, start, Step, Reach, client_writes, client_reads, client_fails, client_hears, client_turns,
  client_closes, client_polls, client_unplugged, server_writes, server_passes, server_drops,
  info_hears, info_turns, info_closes, server_closes, here, next,
}

-- Where the server's writes are; none is dropped while the connection is in the table.
pub record Queue (l : Link) : Type 0 where
  pub all_written : l.written_down ≡ l.passed_down ++ (l.dropped ++ l.outgoing)
  pub none_dropped : l.known ≡ true → l.dropped ≡ []

Step-Queue : {l m : Link} → Step l m → Queue l → Queue m
Step-Queue (client_writes payload) q = record {
  all_written = q.all_written;
  none_dropped = q.none_dropped;
}
Step-Queue (client_reads b payload c e) q = record {
  all_written = q.all_written;
  none_dropped = q.none_dropped;
}
Step-Queue (client_fails b x c e) q = record {
  all_written = q.all_written;
  none_dropped = q.none_dropped;
}
Step-Queue (client_hears m a) q = record {
  all_written = q.all_written;
  none_dropped = q.none_dropped;
}
Step-Queue (client_turns t) q = record {
  all_written = q.all_written;
  none_dropped = q.none_dropped;
}
Step-Queue client_closes q = record { all_written = q.all_written; none_dropped = q.none_dropped }
Step-Queue client_polls q = record { all_written = q.all_written; none_dropped = q.none_dropped }
Step-Queue client_unplugged q = record {
  all_written = q.all_written;
  none_dropped = q.none_dropped;
}
Step-Queue (info_hears m a) q = record {
  all_written = q.all_written;
  none_dropped = q.none_dropped;
}
Step-Queue (info_turns t) q = record { all_written = q.all_written; none_dropped = q.none_dropped }
Step-Queue server_closes q = record { all_written = q.all_written; none_dropped = q.none_dropped }
Step-Queue {l} info_closes q = record { all_written = q.all_written; none_dropped = λ on. cc on }
Step-Queue {l} (server_writes payload) q = record {
  all_written =
      ap (λ xs. xs ++ payload ∷ []) q.all_written
      ∙ append_assoc l.passed_down (l.dropped ++ l.outgoing) (payload ∷ [])
      ∙ ap (λ xs. l.passed_down ++ xs) (append_assoc l.dropped l.outgoing (payload ∷ []));
  none_dropped = q.none_dropped;
}
Step-Queue {l} (server_passes payload rest e on) q = record {
  all_written =
      q.all_written
      ∙ rw (q.none_dropped on, e) (sym (append_assoc l.passed_down (payload ∷ []) rest));
  none_dropped = q.none_dropped;
}
Step-Queue {l} (server_drops payload rest e off) q = record {
  all_written =
      q.all_written
      ∙ rw e (ap (λ xs. l.passed_down ++ xs) (sym (append_assoc l.dropped (payload ∷ []) rest)));
  none_dropped = λ on. cc (on, off);
}

pub Reach-Queue :
    (p q : Params) (id : ℤ) (addr : Addr) {l : Link} → Reach (start p q id addr) l → Queue l
unfolding start
Reach-Queue p q id addr here = record { all_written = refl; none_dropped = λ on. refl }
Reach-Queue p q id addr (next r s) = Step-Queue s (Reach-Queue p q id addr r)
