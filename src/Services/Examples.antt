-- ===== src/Services/Examples.antt =====
-- The registry of usr/root/service.c with one service.
use bradyp_os.Base.{◌≡◌, refl, ◌==◌, if◌then◌else◌, arith}
use bradyp_os.Base.Array.{Array}
use bradyp_os.Services.{
  Registry, append, serv_get_ret, find_service_desc, handle_service_get, handle_service_register,
}
use bradyp_os.Services.Handlers.{IsRegistered, handle_service_get-register}

abbrev one_service : Registry
one_service = record { service_count = 1; services = λ i. record { thread = 0x108001; name = 7 } }

-- The UTCB at 0x200 names the thread 0x10C001.
abbrev memory_of_sender : Array
memory_of_sender x = if x == 0x80 then 0x10C001 else 0

handle_service_get-register_example :
    IsRegistered memory_of_sender one_service 0x200 9
      (handle_service_register memory_of_sender one_service 1 0 0x200 9).1
unfolding find_service_desc
handle_service_get-register_example =
    handle_service_get-register memory_of_sender one_service 0x200 9 (omega arith) refl

-- The sender is named by the word of its UTCB.
lookup_run :
    handle_service_get (handle_service_register memory_of_sender one_service 1 0 0x200 9).1 1 0 9
    ≡ serv_get_ret 0x10C001
unfolding handle_service_get handle_service_register append find_service_desc
lookup_run = refl
