-- ===== src/Control/Command.antt =====
-- The choices of the argument parser of compat/runner/control.py.
pub data Command : Type 0 where
  start stop attach detach restart touch collect_debug : Command
