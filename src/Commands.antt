-- ===== src/Commands.antt =====
-- crates/common/src/messages.rs: what a worker is told over its channel.
use wup_demo.Prelude.{String, List}

pub data ControlCommand : Type 0 where
  subscribe : List String → ControlCommand
  unsubscribe : List String → ControlCommand
  shutdown : ControlCommand
