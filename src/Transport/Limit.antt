-- ===== src/Transport/Limit.antt =====
-- transport.go: `queueForDial` and `decConnsPerHost`, which keep the connections of a host within
-- `MaxConnsPerHost`.
pub mod Waits
pub mod Slots
pub mod Bound
mod Tests
use oohttp.Base.{
  ℕ, zero, suc, ◌+◌, ◌-◌, Bool, true, false, Option, none, some, leb, ltb, ◌==◌, if◌then◌else◌, [],
}
use oohttp.Transport.Queue.{WantConnQueue, clean_front, len, pop_front, push_back}

-- The map `m` after `m[k] = a`.
abbrev pub update : {A : Type 0} → (ℕ → A) → ℕ → A → ℕ → A
update m k a j = if j == k then a else m j

-- The fields of `Transport` that the limit is about; a key that a map lacks has 0, or an empty
-- queue. Keys of hosts are numbers, and a limit of 0 or less is 0.
pub record Limits (W : Type 0) : Type 0 where
  pub max_conns_per_host : ℕ
  pub conns_per_host : ℕ → ℕ
  pub conns_per_host_wait : ℕ → WantConnQueue W

abbrev pub new_queue : {W : Type 0} → WantConnQueue W
new_queue = record { head = []; head_pos = 0; tail = [] }

-- Whether a dial was started.
pub data Queued (W : Type 0) : Type 0 where
  dialing : Limits W → Queued W
  waits : Limits W → Queued W

-- What `decConnsPerHost` does: nothing, a panic, another dial for a wait, or one connection less.
pub data Released (W : Type 0) : Type 0 where
  unlimited : Released W
  underflow : Released W
  handed : W → Limits W → Released W
  decremented : Limits W → Released W

module _ {W : Type 0} (waiting : W → Bool) where
  -- The queue after `cleanFront`, which always ends.
  abbrev pub cleaned_queue : WantConnQueue W → WantConnQueue W
  cleaned_queue q = elim (clean_front waiting q) [ none ↦ q | some p ↦ p.1 ]

  -- `queueForDial`
  unfoldable pub queue_for_dial : ℕ → W → Limits W → Queued W
  unfolding clean_front push_back
  queue_for_dial key w t =
      if t.max_conns_per_host == 0
      then dialing t
      else if ltb (t.conns_per_host key) t.max_conns_per_host
      then dialing
          (record t { conns_per_host = update t.conns_per_host key (suc (t.conns_per_host key)) })
      else waits (record t {
        conns_per_host_wait =
            update t.conns_per_host_wait key
              (push_back (cleaned_queue (t.conns_per_host_wait key)) w);
      })

  abbrev pub is_waiting : Option W → Bool
  is_waiting none = false
  is_waiting (some w) = waiting w

  -- The loop of `decConnsPerHost` over the queue, so many rounds: the wait that gets the connection.
  unfoldable pub hand_over : ℕ → WantConnQueue W → Option W × WantConnQueue W
  unfolding len pop_front
  hand_over zero q = (none, q)
  hand_over (suc fuel) q =
      let rest = hand_over fuel (pop_front q).1 in
      if len q == 0 then (none, q) else if is_waiting (pop_front q).0 then pop_front q else rest

  -- `q` back in the map; an empty one is deleted.
  abbrev pub store_queue : ℕ → WantConnQueue W → Limits W → Limits W
  store_queue key q t = record t {
    conns_per_host_wait = update t.conns_per_host_wait key (if len q == 0 then new_queue else q);
  }

  abbrev pub decrement : ℕ → Limits W → Limits W
  decrement key t = record t {
    conns_per_host = update t.conns_per_host key (t.conns_per_host key - 1);
  }

  abbrev pub after_hand_over : ℕ → Limits W → Option W × WantConnQueue W → Released W
  after_hand_over key t (some w, q) = handed w (store_queue key q t)
  after_hand_over key t (none, q) = decremented (decrement key (store_queue key q t))

  -- `decConnsPerHost`
  unfoldable pub dec_conns_per_host : ℕ → Limits W → Released W
  unfolding hand_over len
  dec_conns_per_host key t =
      if t.max_conns_per_host == 0
      then unlimited
      else if t.conns_per_host key == 0
      then underflow
      else if ltb 0 (len (t.conns_per_host_wait key))
      then after_hand_over key t
          (hand_over (suc (len (t.conns_per_host_wait key))) (t.conns_per_host_wait key))
      else decremented (decrement key t)
