-- ===== src/Deadlock/Tests.antt =====
-- Runs of the two threads: into the deadlock, and one after the other.
use linux_socket_test.Prelude.{refl}
use linux_socket_test.Deadlock.{main_step, another_step, by_main, by_another, Reach, start, later}
use linux_socket_test.Deadlock.Runs.{all_done}

main_first : Reach (all_done 2 3)
unfolding main_step another_step
main_first =
    later
      (later
        (later
          (later
            (later
              (later
                (later
                  (later
                    (later
                      (later (later (later start (by_main refl)) (by_main refl)) (by_main refl))
                      (by_main refl))
                    (by_main refl))
                  (by_main refl))
                (by_another refl))
              (by_another refl))
            (by_another refl))
          (by_another refl))
        (by_another refl))
      (by_another refl)
