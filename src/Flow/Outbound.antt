-- ===== src/Flow/Outbound.antt =====
-- Outbound windows: the test of `http2outflow.add` is the test for overflow, and `take` charges
-- the stream and the connection alike.
use oohttp.Base.{
  ℕ, ◌+◌, ◌≤◌, ◌<◌, ◌≡◌, refl, true, false, ◌↔◌, Option, none, some, arith, if◌then◌else◌,
  Bool-cases, ◌⊎◌, inl, inr,
}
use oohttp.Base.Int.{ℤ, pos, pos_part, neg_part, ◌+ℤ◌, ◌-ℤ◌, ◌≤ℤ◌, ◌<ℤ◌, ltb_ℤ, int32, IsInt32}
use oohttp.Flow.{Outflow, outflow_add, outflow_take, available, take_conn}

-- The exact sum of two integers is an `int32`.
abbrev pub Fits : ℤ → ℤ → Type 0
Fits a b =
    (pos_part a + pos_part b < 0x8000_0000 + neg_part a + neg_part b)
    × (neg_part a + neg_part b ≤ 0x8000_0000 + pos_part a + pos_part b)

-- What `add` of an `int32` to a window of that type returns is true exactly if the exact sum is an
-- `int32`; the window is then that sum, else it is the one before; the connection's window stays.
pub outflow_add_lem :
    (f : Outflow) (n : ℤ)
    → IsInt32 f.n
    → IsInt32 n
    → (((outflow_add f n).1 ≡ true) ↔ Fits f.n n)
      × ((outflow_add f n).0.n ≡ (if (outflow_add f n).1 then f.n +ℤ n else f.n))
      × ((outflow_add f n).0.conn ≡ f.conn)
unfolding outflow_add int32 ◌+ℤ◌
outflow_add_lem f n h k = ground arith

pub data IsInt32Conn : Option ℤ → Type 0 where
  alone : IsInt32Conn none
  shared : {c : ℤ} → IsInt32 c → IsInt32Conn (some c)

-- `b` is `a` less `n`.
abbrev pub Charged : ℕ → ℤ → ℤ → Type 0
Charged n a b = pos_part a + neg_part b ≡ pos_part b + neg_part a + n

pub data ChargedConn (n : ℕ) : Option ℤ → Option ℤ → Type 0 where
  alone : ChargedConn n none none
  shared : {c d : ℤ} → Charged n c d → ChargedConn n (some c) (some d)

-- What `take` of `n` bytes does: it panics on more than is available, else both windows are less
-- by `n`, and so is what is available.
pub data TakeResult (f : Outflow) (n : ℕ) : Option Outflow → Type 0 where
  refused : available f <ℤ pos n → TakeResult f n none
  taken :
      {f' : Outflow}
      → pos n ≤ℤ available f
      → Charged n f.n f'.n
      → ChargedConn n f.conn f'.conn
      → Charged n (available f) (available f')
      → TakeResult f n (some f')

-- `int32` of an exact difference.
int32_sub : (a : ℤ) (n : ℕ) → IsInt32 a → pos n ≤ℤ a → Charged n a (int32 (a -ℤ pos n))
unfolding int32 ◌-ℤ◌
int32_sub a n h k = ground arith

available-alone : (a : ℤ) → available (record { n = a; conn = none }) ≡ a
unfolding available
available-alone a = refl

available-shared :
    (a c : ℤ)
    → let b = available (record { n = a; conn = some c }) in
      (b ≤ℤ a) × (b ≤ℤ c) × ((b ≡ a) ⊎ (b ≡ c))
unfolding available
available-shared a c = ground arith

available-Charged :
    (a a' c c' : ℤ) (n : ℕ)
    → Charged n a a'
    → Charged n c c'
    → Charged n
        (available (record { n = a; conn = some c }))
        (available (record { n = a'; conn = some c' }))
unfolding available
available-Charged a a' c c' n h k = ground arith

outflow_take-refused :
    (f : Outflow) (n : ℤ) → ltb_ℤ (available f) n ≡ true → outflow_take f n ≡ none
unfolding outflow_take
outflow_take-refused f n e = ground arith

outflow_take-taken :
    (f : Outflow) (n : ℤ)
    → ltb_ℤ (available f) n ≡ false
    → outflow_take f n ≡ some (record { n = int32 (f.n -ℤ n); conn = take_conn f.conn n })
unfolding outflow_take
outflow_take-taken f n e = ground arith

charged :
    (a : ℤ) (conn : Option ℤ) (n : ℕ)
    → IsInt32 a
    → IsInt32Conn conn
    → pos n ≤ℤ available (record { n = a; conn = conn })
    → TakeResult
        (record { n = a; conn = conn })
        n
        (some (record { n = int32 (a -ℤ pos n); conn = take_conn conn (pos n) }))
unfolding available
charged a none n h _ k = let one = int32_sub a n h k in taken k one alone (rw available-alone one)
charged a (some c) n h (shared j) k =
    let (le_a, le_c, _) = available-shared a c in
    let one = int32_sub a n h (omega arith) in
    let two = int32_sub c n j (omega arith) in
    taken k one (shared two) (available-Charged a _ c _ n one two)

-- `take` of `n` bytes from windows of type `int32` panics exactly if more is asked for than the
-- smaller of the two windows; else the stream's window, the connection's if there is one and what is
-- available are all less by `n`.
pub outflow_take-TakeResult :
    (f : Outflow) (n : ℕ)
    → IsInt32 f.n
    → IsInt32Conn f.conn
    → TakeResult f n (outflow_take f (pos n))
outflow_take-TakeResult f n h k = elim (Bool-cases (ltb_ℤ (available f) (pos n))) [
  | inl less ↦ rw (outflow_take-refused f (pos n) less) (refused (ground arith))
  | inr more ↦ rw (outflow_take-taken f (pos n) more) (charged f.n f.conn n h k (ground arith))
]
