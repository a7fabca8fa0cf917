-- ===== src/Program/Refine.antt =====
-- The program of cirque/src/main.rs and cirque-server/src/server.rs, related to System/Step.
use cirque.System.Step.{System}
use cirque.System.Step
use cirque.Program.Launch
use cirque.Program.Run.{Program}
