-- ===== src/Rt/Gthread/Tests.antt =====
-- A thread that has exited, joined by the one that runs.
use libpeli.Base.{ℕ, ◌≡◌, refl, ◌==◌, if◌then◌else◌, [], some, arith}
use libpeli.Util.LinkList.{no_link, no_list}
use libpeli.Rt.Thread.{Kernel, Thread, running, exited, returned}
use libpeli.Rt.Thread.Life.{Destroyed}
use libpeli.Rt.Gthread.{gthread_join, answered, refused, gthread_self}
use libpeli.Rt.Gthread.Join.{gthread_join_lem}

abbrev thread_at : ℕ → Thread
thread_at t = record {
  state = if t == 8 then exited else running;
  priority = 16;
  stack_bottom = 0x80010000;
  stack_size = 0x1000;
  join_thread = 0;
  join_queue = 500;
  wait_queue = 0;
  result = 7;
}

abbrev kernel : Kernel
kernel = record {
  threads = thread_at;
  thread_links = λ _. no_link;
  thread_list = record { head = 8; tail = 8 };
  ready = record { links = λ _. no_link; queues = λ _. no_list; mask = 0 };
  wait_links = λ _. no_link;
  wait_queues = λ _. no_list;
  current = 100;
  stray_stack = 0;
  stray_stack_size = 0;
  lo_mem = record {
    em_current_context = 100;
    rm_current_context = 100;
    current_thread = 100;
    list_head = 8;
    list_tail = 8;
  };
}

gthread_join_lem_example :
    ((k' : Kernel) × (gthread_join 4096 8 kernel ≡ some (answered 0 (returned k')))
      × Destroyed 8 [] kernel k')
    × (gthread_join 4096 100 kernel ≡ some (answered refused (returned kernel)))
    × (gthread_join 4096 gthread_self kernel ≡ some (answered refused (returned kernel)))
gthread_join_lem_example =
    gthread_join_lem 4096 8 [] kernel (ground arith) refl (ground arith) (ground arith)
      (ground arith)
