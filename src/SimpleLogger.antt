-- ===== src/SimpleLogger.antt =====
-- ExJ2534SimpleLogger of j2534_OverIP/j2534simplelogger.cpp: every method writes its name to the
-- debug log and refuses.
use j2534_oip_wrapper.Prelude.{List, ◌∷◌}
use j2534_oip_wrapper.Message.{ok, err_not_supported}
use j2534_oip_wrapper.Report.{Fn}
use j2534_oip_wrapper.Interface.{Implementation}

-- The names that `EXDBG_LOG << __FUNCTION__` has written, newest first.
abbrev pub Log : Type 0
Log = List Fn

unfoldable pub log_and_refuse : Implementation Log
log_and_refuse f args log = ok (err_not_supported, args, f ∷ log)
