-- ===== src/Lsp/Message.antt =====
-- project-2/src/example.com/lsp/message.go: the messages of the protocol and their constructors.
use dsystem_homework.Base.{ℕ, ℤ, pos, List, []}

abbrev pub Bytes : Type 0
Bytes = List ℕ

pub data MsgType : Type 0 where
  msg_connect msg_data msg_ack : MsgType

pub record Message : Type 0 where
  pub type : MsgType
  pub conn_id : ℤ
  pub seq_num : ℤ
  pub size : ℤ
  pub payload : Bytes

-- Fields that a Go literal leaves out are zero.
abbrev pub new_connect : Message
new_connect = record {
  type = msg_connect;
  conn_id = pos 0;
  seq_num = pos 0;
  size = pos 0;
  payload = [];
}

abbrev pub new_data : ℤ → ℤ → ℤ → Bytes → Message
new_data conn_id seq_num size payload = record {
  type = msg_data;
  conn_id = conn_id;
  seq_num = seq_num;
  size = size;
  payload = payload;
}

abbrev pub new_ack : ℤ → ℤ → Message
new_ack conn_id seq_num = record {
  type = msg_ack;
  conn_id = conn_id;
  seq_num = seq_num;
  size = pos 0;
  payload = [];
}
