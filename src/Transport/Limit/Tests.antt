-- ===== src/Transport/Limit/Tests.antt =====
-- A transport with two connections for each host, and the theorem on the limit there.
use oohttp.Base.{ℕ, Bool, true, ◌≡◌, refl, Option, none, some, arith}
use oohttp.Transport.Limit.{Limits, Released, dec_conns_per_host, handed, new_queue, queue_for_dial}
use oohttp.Transport.Limit.Bound.{Comes-IsKept, IsKept, asked, new}
use oohttp.Transport.Limit.Slots.{limits_of, live_after_queue}
use oohttp.Transport.Queue.{len}

abbrev all_wait : ℕ → Bool
all_wait w = true

abbrev new_limits : Limits ℕ
new_limits = record {
  max_conns_per_host = 2;
  conns_per_host = λ k. 0;
  conns_per_host_wait = λ k. new_queue;
}

abbrev ask : ℕ → Limits ℕ → Limits ℕ
ask w t = limits_of (queue_for_dial all_wait 7 w t)

abbrev live_three : ℕ → ℕ
live_three =
    live_after_queue
      (live_after_queue (live_after_queue (λ k. 0) 7 (queue_for_dial all_wait 7 1 new_limits)) 7
        (queue_for_dial all_wait 7 2 (ask 1 new_limits)))
      7 (queue_for_dial all_wait 7 3 (ask 2 (ask 1 new_limits)))

Comes-IsKept_example : IsKept 2 live_three (ask 3 (ask 2 (ask 1 new_limits)))
Comes-IsKept_example = Comes-IsKept 2 live_three (ask 3 (ask 2 (ask 1 new_limits))) (omega arith) (
    asked _ (ask 2 (ask 1 new_limits)) all_wait 7 3
      (asked _ (ask 1 new_limits) all_wait 7 2 (asked _ new_limits all_wait 7 1 new)))

abbrev who_is_next : Released ℕ → Option ℕ
who_is_next (handed w t) = some w
who_is_next _ = none

one_waits :
    (live_three 7 ≡ 2)
    × (len ((ask 3 (ask 2 (ask 1 new_limits))).conns_per_host_wait 7) ≡ 1)
    × (who_is_next (dec_conns_per_host all_wait 7 (ask 3 (ask 2 (ask 1 new_limits)))) ≡ some 3)
unfolding queue_for_dial dec_conns_per_host len
one_waits = (refl, refl, refl)
