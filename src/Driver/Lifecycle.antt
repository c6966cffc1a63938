-- ===== src/Driver/Lifecycle.antt =====
-- driver/.../adapters/driving/DriverEntry.c, with CreateDevice and DeleteDevice of IoctlHandler.c and
-- Register and Unregister of WfpCallout.c: the objects that the driver makes and destroys. A global
-- pointer is a flag (not NULL); `Objects` are the objects that exist in the system.
pub mod Unwind
use tcp_redirector.Prelude.{ℕ, Bool, true, false, not, ◌==◌, if◌then◌else◌}
use tcp_redirector.Driver.Entities.{nt_success, status_success}
use tcp_redirector.Driver.Service.{RedirectService, initialize, cleanup}

pub record Objects : Type 0 where
  pub device : Bool
  pub link : Bool
  pub engine : Bool
  pub redirect_handle : Bool
  pub callout : Bool

abbrev pub no_objects : Objects
no_objects = record {
  device = false;
  link = false;
  engine = false;
  redirect_handle = false;
  callout = false;
}

-- The globals, and the objects.
pub record Driver : Type 0 where
  pub g_redirect_service : RedirectService
  pub g_device_object : Bool
  pub g_engine_handle : Bool
  pub g_redirect_handle : Bool
  pub g_redirect_callout_id : ℕ
  pub objects : Objects

abbrev pub unloaded : RedirectService → Driver
unloaded s = record {
  g_redirect_service = s;
  g_device_object = false;
  g_engine_handle = false;
  g_redirect_handle = false;
  g_redirect_callout_id = 0;
  objects = no_objects;
}

-- The statuses that the system's functions return, and the identifier of the callout.
pub record LoadReplies : Type 0 where
  pub create_device : ℕ
  pub create_symbolic_link : ℕ
  pub engine_open : ℕ
  pub redirect_handle_create : ℕ
  pub callout_register : ℕ
  pub callout_id : ℕ
  pub callout_add : ℕ
  pub filter_add : ℕ

-- `IoDeleteDevice`, and the pointer set to NULL.
io_delete_device : Driver → Driver
io_delete_device d = record d { objects = record d.objects { device = false } }

forget_device : Driver → Driver
forget_device d = record d { g_device_object = false }

unfoldable pub create_device : Driver → LoadReplies → Driver × ℕ
unfolding io_delete_device forget_device
create_device d w =
    let created = record d {
      g_device_object = true;
      objects = record d.objects { device = true };
    } in
    let linked = record created { objects = record created.objects { link = true } } in
    if nt_success w.create_device
    then (if nt_success w.create_symbolic_link
        then (linked, status_success)
        else (forget_device (io_delete_device created), w.create_symbolic_link))
    else (d, w.create_device)

unfoldable pub delete_device : Driver → Driver
delete_device d =
    if d.g_device_object
    then record d { objects = record d.objects { device = false; link = false } }
    else d

destroy_handle : Driver → Driver
destroy_handle d =
    if d.g_redirect_handle
    then record d {
      g_redirect_handle = false;
      objects = record d.objects { redirect_handle = false };
    }
    else d

-- The results of FwpmCalloutAdd and FwpmFilterAdd are only printed.
unfoldable pub register_callout : Driver → LoadReplies → Driver × ℕ
unfolding destroy_handle
register_callout d w =
    let created = record d {
      g_redirect_handle = true;
      objects = record d.objects { redirect_handle = true };
    } in
    let registered = record created {
      g_redirect_callout_id = w.callout_id;
      objects = record created.objects { callout = true };
    } in
    if nt_success w.redirect_handle_create
    then (if nt_success w.callout_register
        then (registered, status_success)
        else (destroy_handle created, w.callout_register))
    else (d, w.redirect_handle_create)

unregister_id : Driver → Driver
unregister_id d =
    if d.g_redirect_callout_id == 0
    then d
    else record d { g_redirect_callout_id = 0; objects = record d.objects { callout = false } }

unfoldable pub unregister_callout : Driver → Driver
unfolding unregister_id destroy_handle
unregister_callout d = destroy_handle (unregister_id d)

close_engine : Driver → Driver
close_engine d = record d { g_engine_handle = false; objects = record d.objects { engine = false } }

clean_service : Driver → Driver
clean_service d = record d { g_redirect_service = (cleanup d.g_redirect_service).0 }

unfoldable pub driver_entry : Driver → LoadReplies → Driver × ℕ
unfolding create_device delete_device register_callout close_engine forget_device clean_service
driver_entry d w =
    let start = record d { g_redirect_service = initialize } in
    let (made, made_status) = create_device start w in
    let opened = record made {
      g_engine_handle = true;
      objects = record made.objects { engine = true };
    } in
    let (registered, registered_status) = register_callout opened w in
    if not (nt_success made_status)
    then (clean_service made, made_status)
    else if not (nt_success w.engine_open)
    then (clean_service (forget_device (delete_device made)), w.engine_open)
    else if not (nt_success registered_status)
    then (
      clean_service (forget_device (delete_device (close_engine registered))),
      registered_status,
    )
    else (registered, status_success)

unload_engine : Driver → Driver
unfolding unregister_callout close_engine
unload_engine d = if d.g_engine_handle then close_engine (unregister_callout d) else d

unload_device : Driver → Driver
unfolding delete_device forget_device
unload_device d = if d.g_device_object then forget_device (delete_device d) else d

unfoldable pub driver_unload : Driver → Driver
unfolding unload_engine unload_device clean_service
driver_unload d = clean_service (unload_device (unload_engine d))
