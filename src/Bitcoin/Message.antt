-- ===== src/Bitcoin/Message.antt =====
-- project-2/src/example.com/bitcoin/message.go: the messages between client, server and miner. An
-- `uint64` is a natural number below 2 ^ 64.
use Prim.Native.String.{String}
use dsystem_homework.Base.{ℕ}

pub data MsgType : Type 0 where
  join request result : MsgType

pub record Message : Type 0 where
  pub type : MsgType
  pub data_text : String
  pub lower : ℕ
  pub upper : ℕ
  pub hash : ℕ
  pub nonce : ℕ

-- Fields that a Go literal leaves out are zero.
abbrev pub new_request : String → ℕ → ℕ → Message
new_request data_text lower upper = record {
  type = request;
  data_text = data_text;
  lower = lower;
  upper = upper;
  hash = 0;
  nonce = 0;
}

abbrev pub new_result : ℕ → ℕ → Message
new_result hash nonce = record {
  type = result;
  data_text = "";
  lower = 0;
  upper = 0;
  hash = hash;
  nonce = nonce;
}

abbrev pub new_join : Message
new_join = record { type = join; data_text = ""; lower = 0; upper = 0; hash = 0; nonce = 0 }
