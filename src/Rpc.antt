-- ===== src/Rpc.antt =====
-- The part of the crate `krossbar_rpc` that the program's code names: the bodies of requests. A
-- connection, a message id and a socket are numbers.
use krossbar_bus.Common.{ℕ, String}

-- `krossbar_rpc::request::Body`; `response` stands for the variants that the program does not name.
pub data Body (Bson : Type 0) : Type 0 where
  message call : Bson → Body Bson
  subscription response : Body Bson
  fd : String → ℕ → Body Bson

-- A message as `Rpc::poll` hands it over, on a connection known from the context.
pub record Message (Bson : Type 0) : Type 0 where
  pub message_id : ℕ
  pub endpoint : String
  pub body : Body Bson
