-- ===== src/Flow/Tests.antt =====
-- Windows of a few sizes, and the operations on them.
use oohttp.Base.{
  ◌≤◌, ◌<◌, ◌≡◌, refl, ◌↔◌, ◌⊎◌, true, false, none, some, arith, if◌then◌else◌, ◌+◌, ◌-◌,
}
use oohttp.Base.Int.{pos, pos_part, ◌+ℤ◌, ◌-ℤ◌, int32, int64, uint32}
use oohttp.Flow.Inbound.{IsWindow, Added, inflow_add-Added, inflow_add-none, inflow_take_lem}
use oohttp.Flow.Outbound.{shared, Fits, TakeResult, outflow_add_lem, outflow_take-TakeResult}
use oohttp.Flow.{
  Inflow, Outflow, inflow_add, inflow_take, take_inflows, outflow_add, outflow_take, available,
}

abbrev stream : Inflow
stream = record { avail = pos 5000; unsent = pos 100 }

abbrev small : Inflow
small = record { avail = pos 10; unsent = pos 0 }

stream-IsWindow : IsWindow stream
stream-IsWindow = record { avail_pos = refl; unsent_pos = refl; bound = omega arith }

-- 4096 bytes and more are announced at once.
added : inflow_add stream (pos 4000) ≡ some (record { avail = pos 9100; unsent = pos 0 }, pos 4100)
unfolding inflow_add int32 int64 ◌+ℤ◌
added = refl

inflow_add-Added_example :
    Added stream 4000 (record { avail = pos 9100; unsent = pos 0 }) (pos 4100)
inflow_add-Added_example =
    inflow_add-Added stream (record { avail = pos 9100; unsent = pos 0 }) 4000 (pos 4100)
      stream-IsWindow (omega arith) added

inflow_add-none_example :
    (inflow_add stream (pos 0x7fff_ffff) ≡ none)
    ↔ ((0 < 0) ⊎ (0x7fff_ffff < 5000 + 100 + 0x7fff_ffff))
inflow_add-none_example = inflow_add-none stream (pos 0x7fff_ffff) stream-IsWindow (omega arith)

inflow_take_lem_example :
    (((inflow_take stream 5001).1 ≡ true) ↔ (5001 ≤ 5000))
    × IsWindow (inflow_take stream 5001).0
    × (pos_part (inflow_take stream 5001).0.avail
        ≡ (if (inflow_take stream 5001).1 then 5000 - 5001 else 5000))
    × ((inflow_take stream 5001).0.unsent ≡ pos 100)
inflow_take_lem_example = inflow_take_lem stream 5001 stream-IsWindow (omega arith)

-- Both windows are charged, or none.
taken :
    (take_inflows stream small 11 ≡ (stream, small, false))
    × ((take_inflows stream small 10).2 ≡ true)
unfolding take_inflows int32 uint32
taken = (refl, refl)

abbrev outbound : Outflow
outbound = record { n = pos 300; conn = some (pos 200) }

outflow_add_lem_example :
    (((outflow_add outbound (pos 0x7fff_ffff)).1 ≡ true) ↔ Fits (pos 300) (pos 0x7fff_ffff))
    × ((outflow_add outbound (pos 0x7fff_ffff)).0.n ≡ (
        if (outflow_add outbound (pos 0x7fff_ffff)).1 then pos 300 +ℤ pos 0x7fff_ffff else pos 300))
    × ((outflow_add outbound (pos 0x7fff_ffff)).0.conn ≡ some (pos 200))
outflow_add_lem_example = outflow_add_lem outbound (pos 0x7fff_ffff) (omega arith) (omega arith)

outflow_take-TakeResult_example : TakeResult outbound 150 (outflow_take outbound (pos 150))
outflow_take-TakeResult_example =
    outflow_take-TakeResult outbound 150 (omega arith) (shared (omega arith))

run :
    (outflow_take outbound (pos 150) ≡ some (record { n = pos 150; conn = some (pos 50) }))
    × (outflow_take outbound (pos 250) ≡ none)
    × ((outflow_add outbound (pos 0x7fff_ffff)).1 ≡ false)
unfolding outflow_take outflow_add available int32 ◌+ℤ◌ ◌-ℤ◌
run = (refl, refl, refl)
