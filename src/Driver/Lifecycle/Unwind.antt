-- ===== src/Driver/Lifecycle/Unwind.antt =====
-- DriverEntry.c: what is left after a failed load, and after an unload.
use tcp_redirector.Prelude.{◌≡◌, ◌≢◌, true, false, arith}
use tcp_redirector.Driver.Entities.{nt_success, status_success}
use tcp_redirector.Driver.Service.{RedirectService, initialize, cleanup}
use tcp_redirector.Driver.Lifecycle.{unloaded, LoadReplies, driver_entry, driver_unload}

-- A load that fails, at whatever step, leaves no object and no global behind; its status is a failure,
-- and the queue and the rules are empty.
pub driver_entry_unwinds :
    (s : RedirectService) (w : LoadReplies)
    → nt_success (driver_entry (unloaded s) w).1 ≡ false
    → (driver_entry (unloaded s) w).0 ≡ unloaded initialize
unfolding driver_entry initialize cleanup
driver_entry_unwinds s w = ground arith

-- If the five calls whose status the load checks succeed, the load succeeds, all the objects exist and
-- the service is fresh, whatever the results for the engine's callout and filter.
pub driver_entry_succeeds :
    (s : RedirectService) (w : LoadReplies)
    → nt_success w.create_device ≡ true
    → nt_success w.create_symbolic_link ≡ true
    → nt_success w.engine_open ≡ true
    → nt_success w.redirect_handle_create ≡ true
    → nt_success w.callout_register ≡ true
    → driver_entry (unloaded s) w ≡ (
      record {
        g_redirect_service = initialize;
        g_device_object = true;
        g_engine_handle = true;
        g_redirect_handle = true;
        g_redirect_callout_id = w.callout_id;
        objects = record {
          device = true;
          link = true;
          engine = true;
          redirect_handle = true;
          callout = true;
        };
      },
      status_success,
    )
unfolding driver_entry
driver_entry_succeeds s w a b c d e = rw (a, b, c, d, e)

-- What loads and unloads again, with a callout identifier that is not zero and whatever the service
-- has become in between, leaves no object and no global behind.
pub driver_unload-driver_entry :
    (s used : RedirectService) (w : LoadReplies)
    → w.callout_id ≢ 0
    → nt_success (driver_entry (unloaded s) w).1 ≡ true
    → driver_unload (record (driver_entry (unloaded s) w).0 { g_redirect_service = used })
      ≡ unloaded (cleanup used).0
unfolding driver_entry driver_unload
driver_unload-driver_entry s used w id ok = ground arith
