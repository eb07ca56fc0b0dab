-- ===== src/Mqtt/Discovery/Template.antt =====
-- An entry of the discovery data: the topic and the body, before their parameters are put in.
use Prim.Native.String.{String}

pub record Entry : Type 0 where
  pub topic : String
  pub body : String
