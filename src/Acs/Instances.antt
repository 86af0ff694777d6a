-- ===== src/Acs/Instances.antt =====
-- The instances that `New` of acs/acs.go makes, behind the interfaces `RBC` and `BBA`.
use cleisthenes.Acs.State.{RbcOps, BbaOps}
use cleisthenes.Bba.State.{idle}
use cleisthenes.Bba.Handlers.{Json}
use cleisthenes.Bba.Handlers as agreements
use cleisthenes.Rbc.Decode.{Env}
use cleisthenes.Rbc.Handlers as broadcasts
use cleisthenes.Rbc.Input.{handle_input}

abbrev pub rbc_instances : Env → RbcOps
rbc_instances env = record {
  handle_input = handle_input env;
  handle_message = broadcasts.handle_message env;
}

abbrev pub bba_instances : Json → BbaOps
bba_instances json = record {
  handle_input = agreements.handle_input json;
  handle_message = agreements.handle_message json;
  idle = idle;
}
