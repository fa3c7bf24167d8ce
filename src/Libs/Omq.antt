-- ===== src/Libs/Omq.antt =====
-- oxenmq. What the network answers is a function of the number of requests made before. The sources
-- wait for the outcome of `connect_remote`, so a connection is the value of a call.
use libonionrequests.Common.{ℕ, Bool, List, Option, Bytes}

pub record Omq : Type 1 where
  pub Address : Type 0
  -- `oxenmq::ConnectionID`.
  pub Connection : Type 0
  -- The constructor of `oxenmq::address` throws on a malformed text.
  pub parse_address : Bytes → Option Address
  -- `connect_remote`: the success or the failure callback is called.
  pub connect : ℕ → Address → Option Connection
  -- `request`: the callback gets a flag and the parts of the reply.
  pub request : ℕ → Connection → Bytes → Bytes → Bool × List Bytes
