-- ===== src/Flow.antt =====
-- h2_bundle.go: the flow-control windows of HTTP/2, `http2inflow` and `http2outflow`.
pub mod Inbound
pub mod Outbound
mod Tests
use oohttp.Base.{ℕ, ◌-◌, Bool, true, false, not, ◌&&◌, ◌||◌, Option, none, some, ltb, if◌then◌else◌}
use oohttp.Base.Int.{ℤ, pos, negsuc, pos_part, neg_part, ◌+ℤ◌, ◌-ℤ◌, ltb_ℤ, int32, int64, uint32}

-- Both fields are of type `int32`.
pub record Inflow : Type 0 where
  pub avail : ℤ
  pub unsent : ℤ

-- `http2inflowMinRefresh`
abbrev pub inflow_min_refresh : ℤ
inflow_min_refresh = pos 4096

-- `maxWindow`
abbrev pub max_window : ℤ
max_window = pos 0x7fff_ffff

-- `init`
abbrev pub init : ℤ → Inflow → Inflow
init n f = record f { avail = n }

-- The part of `http2inflow.add` that follows its checks.
abbrev pub refresh : Inflow → ℤ → Inflow × ℤ
refresh f unsent =
    if ltb_ℤ f.unsent inflow_min_refresh && ltb_ℤ f.unsent f.avail
    then (f, pos 0)
    else (record { avail = int32 (f.avail +ℤ f.unsent); unsent = pos 0 }, int32 unsent)

-- `http2inflow.add`, of an `int` of 64 bits; `none` is a panic.
unfoldable pub inflow_add : Inflow → ℤ → Option (Inflow × ℤ)
inflow_add f n =
    let unsent = int64 (f.unsent +ℤ n) in
    if ltb_ℤ n (pos 0)
    then none
    else if ltb_ℤ max_window (int64 (unsent +ℤ f.avail))
    then none
    else some (refresh (record f { unsent = int32 unsent }) unsent)

-- `http2inflow.take`, of an `uint32`
unfoldable pub inflow_take : Inflow → ℕ → Inflow × Bool
unfolding int32 uint32 ◌-ℤ◌
inflow_take f n =
    if ltb (uint32 f.avail) n
    then (f, false)
    else (record f { avail = int32 (f.avail -ℤ int32 (pos n)) }, true)

-- `http2takeInflows`, of two windows that are not one.
unfoldable pub take_inflows : Inflow → Inflow → ℕ → Inflow × Inflow × Bool
unfolding int32 uint32 ◌-ℤ◌
take_inflows f1 f2 n =
    if ltb (uint32 f1.avail) n || ltb (uint32 f2.avail) n then (f1, f2, false) else (
      record f1 { avail = int32 (f1.avail -ℤ int32 (pos n)) },
      record f2 { avail = int32 (f2.avail -ℤ int32 (pos n)) },
      true,
    )

-- A stream's `http2outflow`, with the `n` of the connection's that it shares; `none` is the nil of
-- the connection's own.
pub record Outflow : Type 0 where
  pub n : ℤ
  pub conn : Option ℤ

-- `setConnFlow`
abbrev pub set_conn_flow : Outflow → ℤ → Outflow
set_conn_flow f cf = record f { conn = some cf }

abbrev pub min_with : Option ℤ → ℤ → ℤ
min_with none n = n
min_with (some c) n = if ltb_ℤ c n then c else n

-- `available`
unfoldable pub available : Outflow → ℤ
available f = min_with f.conn f.n

abbrev pub take_conn : Option ℤ → ℤ → Option ℤ
take_conn none n = none
take_conn (some c) n = some (int32 (c -ℤ n))

-- `http2outflow.take`; `none` is the panic.
unfoldable pub outflow_take : Outflow → ℤ → Option Outflow
unfolding available int32 ◌-ℤ◌
outflow_take f n =
    if ltb_ℤ (available f) n
    then none
    else some (record { n = int32 (f.n -ℤ n); conn = take_conn f.conn n })

abbrev pub same : Bool → Bool → Bool
same true b = b
same false b = not b

-- `http2outflow.add`
unfoldable pub outflow_add : Outflow → ℤ → Outflow × Bool
unfolding int32 ◌+ℤ◌
outflow_add f n =
    let sum = int32 (f.n +ℤ n) in
    if same (ltb_ℤ n sum) (ltb_ℤ (pos 0) f.n) then (record f { n = sum }, true) else (f, false)
