-- ===== src/Lsp/Status.antt =====
-- project-2/src/example.com/lsp/status.go and params.go: the closing states of a connection, and
-- the parameters of a client or server. A set or get under the lock is one write or read.
use dsystem_homework.Base.{ℕ, Bool, nat_beq}

pub data Status : Type 0 where
  not_closing start_closing handler_closed connection_closed closed : Status

-- The constants are `iota`, in this order.
abbrev code : Status → ℕ
code not_closing = 0
code start_closing = 1
code handler_closed = 2
code connection_closed = 3
code closed = 4

abbrev pub has_status : Status → Status → Bool
has_status s t = nat_beq (code s) (code t)

abbrev pub new_status : Status
new_status = not_closing

pub record Params : Type 0 where
  pub epoch_limit : ℕ
  pub epoch_millis : ℕ
  pub window_size : ℕ

abbrev pub default_epoch_limit : ℕ
default_epoch_limit = 5

abbrev pub default_epoch_millis : ℕ
default_epoch_millis = 2000

abbrev pub default_window_size : ℕ
default_window_size = 1

abbrev pub new_params : Params
new_params = record {
  epoch_limit = default_epoch_limit;
  epoch_millis = default_epoch_millis;
  window_size = default_window_size;
}
