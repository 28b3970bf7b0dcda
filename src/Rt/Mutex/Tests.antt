-- ===== src/Rt/Mutex/Tests.antt =====
-- The theorems on mutexes and conditions at a kernel whose only thread is the current one.
use libpeli.Base.{◌≡◌, true, false, some, arith, refl}
use libpeli.Util.LinkList.{no_link, no_list}
use libpeli.Rt.Thread.{Kernel, Thread, running, returned}
use libpeli.Rt.Mutex.{Mutex, try_lock, wait}
use libpeli.Rt.Mutex.Signal.{GoesOn, wait-GoesOn}

abbrev alone : Thread
alone = record {
  state = running;
  priority = 16;
  stack_bottom = 0x80010000;
  stack_size = 0x1000;
  join_thread = 0;
  join_queue = 500;
  wait_queue = 0;
  result = 0;
}

abbrev kernel : Kernel
kernel = record {
  threads = λ _. alone;
  thread_links = λ _. no_link;
  thread_list = no_list;
  ready = record { links = λ _. no_link; queues = λ _. no_list; mask = 0 };
  wait_links = λ _. no_link;
  wait_queues = λ _. no_list;
  current = 100;
  stray_stack = 0;
  stray_stack_size = 0;
  lo_mem = record {
    em_current_context = 100;
    rm_current_context = 100;
    current_thread = 100;
    list_head = 0;
    list_tail = 0;
  };
}

abbrev held : Mutex
held = record { owner_thread = 100; wait_queue = 600; lock_count = 1; recursive = true }

abbrev free : Mutex
free = record { owner_thread = 0; wait_queue = 600; lock_count = 0; recursive = false }

held_again : (try_lock 100 held).0 ≡ true
unfolding try_lock
held_again = refl

wait-GoesOn_example :
    (m' : Mutex) × (k' : Kernel) × (wait 700 held kernel ≡ some (m', returned k'))
    × GoesOn 700 held m' kernel k'
wait-GoesOn_example =
    wait-GoesOn 700 held kernel (record { chain = refl; last_is_tail = refl }) (ground arith) refl
      refl (ground arith) (ground arith) refl refl
