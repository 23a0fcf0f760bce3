-- ===== src/Process/Reply.antt =====
-- What a part of a cycle ends with, and the arithmetic of doubles that the processes need.
use ocremote.Base.{Text}
use ocremote.Serialize.Value.{Doubles}
use ocremote.Action.{Action}

-- Accesses to a block by its address.
pub record AccessAddr : Type 0 where
  pub client : Text
  pub addr : Text

pub data Reply (D : Type 0) : Type 0 where
  -- scheduleTrivialPromise, and scheduleFailingPromise
  skip fail : Reply D
  -- enqueueAction, whose answer the cycle waits for
  send : (client : Text) → Action D → Reply D

-- The operations of `double`.
pub record Arithmetic (F : Doubles) : Type 0 where
  pub plus : F.Double → F.Double → F.Double
  pub times : F.Double → F.Double → F.Double
  pub divide : F.Double → F.Double → F.Double
  pub round : F.Double → F.Double
  -- 0.5
  pub half : F.Double
