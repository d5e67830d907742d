-- ===== src/Transport/Calls.antt =====
-- The queue in two stages returns what a queue in one list returns.
use oohttp.Base.{◌≡◌, refl, ap, Bool, List, [], ◌∷◌, ◌++◌, Option, none, some, arith}
use oohttp.Transport.Fifo.{
  Holds, clean_front-IsCleaned, drop_stale, first, pop_front-IsPopped, push_back-Holds, rest,
  stale_first,
}
use oohttp.Transport.Queue.{WantConnQueue, clean_front, pop_front, push_back}

-- The calls that change the queue, and what they return.
pub data Call (A : Type 0) : Type 0 where
  push_wait : A → Call A
  pop_wait : Call A
  clean : Call A

pub data Output (A : Type 0) : Type 0 where
  pushed : Output A
  popped : Option A → Output A
  cleaned : Bool → Output A
  endless : Output A

module _ {A : Type 0} (waiting : A → Bool) where
  abbrev after_clean :
      WantConnQueue A → Option (Bool × WantConnQueue A) → Output A × WantConnQueue A
  after_clean q none = (endless, q)
  after_clean q (some r) = (cleaned r.0, r.1)

  unfoldable pub queue_call : Call A → WantConnQueue A → Output A × WantConnQueue A
  unfolding push_back pop_front clean_front
  queue_call (push_wait w) q = (pushed, push_back q w)
  queue_call pop_wait q = (popped (pop_front q).0, (pop_front q).1)
  queue_call clean q = after_clean q (clean_front waiting q)

  unfoldable pub queue_run : List (Call A) → WantConnQueue A → List (Output A)
  unfolding queue_call
  queue_run [] q = []
  queue_run (c ∷ cs) q = (queue_call c q).0 ∷ queue_run cs (queue_call c q).1

  -- The same calls on one list.
  abbrev pub list_call : Call A → List A → Output A × List A
  list_call (push_wait w) ws = (pushed, ws ++ (w ∷ []))
  list_call pop_wait ws = (popped (first ws), rest ws)
  list_call clean ws = (cleaned (stale_first waiting ws), drop_stale waiting ws)

  abbrev pub list_run : List (Call A) → List A → List (Output A)
  list_run [] ws = []
  list_run (c ∷ cs) ws = (list_call c ws).0 ∷ list_run cs (list_call c ws).1

  queue_call-list_call :
      (c : Call A) (ws : List A) (q : WantConnQueue A)
      → Holds ws q
      → ((queue_call c q).0 ≡ (list_call c ws).0) × Holds (list_call c ws).1 (queue_call c q).1
  unfolding queue_call
  queue_call-list_call (push_wait w) ws q h = (refl, push_back-Holds ws q w h)
  queue_call-list_call pop_wait ws q h = let p = pop_front-IsPopped ws q h in (ap popped p.0, p.1)
  queue_call-list_call clean ws q h =
      let k = clean_front-IsCleaned waiting ws q h in rw k.result (refl, k.holds)

  queue_run-list_run :
      (cs : List (Call A)) (ws : List A) (q : WantConnQueue A)
      → Holds ws q
      → queue_run cs q ≡ list_run cs ws
  unfolding queue_run
  queue_run-list_run [] ws q h i = []
  queue_run-list_run (c ∷ cs) ws q h i =
      (queue_call-list_call c ws q h).0 i
      ∷ queue_run-list_run cs (list_call c ws).1 (queue_call c q).1
          (queue_call-list_call c ws q h).1 i

  -- Any sequence of `pushBack`, `popFront` and `cleanFront` on a new queue returns what it returns
  -- on one list that is first in, first out; the loop of `cleanFront` ends every time, within as
  -- many rounds as the queue has elements and one more.
  pub queue_run-new :
      (cs : List (Call A))
      → queue_run cs (record { head = []; head_pos = 0; tail = [] }) ≡ list_run cs []
  queue_run-new cs = queue_run-list_run cs [] _ (record { same = refl; in_range = omega arith })
