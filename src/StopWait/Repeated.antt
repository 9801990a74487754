-- ===== src/StopWait/Repeated.antt =====
-- A repeated acknowledgement spoils a transfer (stop_wait_clnt.c, stop_wait_serv.c): it ends the wait for
-- the next one, and the packet behind is sent under the same number.
use network_camp.StopWait.System.{System}
