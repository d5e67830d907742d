-- ===== src/Transport/Tests.antt =====
-- Runs of the queue of `transport.go`, and its theorem at calls.
use oohttp.Base.{ℕ, Bool, ◌≡◌, refl, List, [], ◌∷◌, none, some, leb}
use oohttp.Transport.Calls.{
  Call, clean, cleaned, list_run, pop_wait, popped, push_wait, pushed, queue_run, queue_run-new,
}

abbrev below_ten : ℕ → Bool
below_ten n = leb n 9

abbrev calls : List (Call ℕ)
calls =
    push_wait 3
    ∷ push_wait 12
    ∷ pop_wait
    ∷ push_wait 40
    ∷ push_wait 5
    ∷ clean
    ∷ pop_wait
    ∷ pop_wait
    ∷ []

queue_run-new_example :
    queue_run below_ten calls (record { head = []; head_pos = 0; tail = [] })
    ≡ list_run below_ten calls []
queue_run-new_example = queue_run-new below_ten calls

outputs :
    queue_run below_ten calls (record { head = []; head_pos = 0; tail = [] })
    ≡ pushed
      ∷ pushed
      ∷ popped (some 3)
      ∷ pushed
      ∷ pushed
      ∷ cleaned Bool.true
      ∷ popped (some 5)
      ∷ popped none
      ∷ []
unfolding queue_run
outputs = refl
