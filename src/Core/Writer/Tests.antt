-- ===== src/Core/Writer/Tests.antt =====
-- The theorems on the writer at concrete buffers.
use vicarl.Prelude.{◌+◌, ◌^◌, ◌≢◌, arith}
use vicarl.Core.Types.{err, fault}
use vicarl.Core.Samples.{generous, two_bytes, two_bytes-IsWbuf}
use vicarl.Core.Writer.{wbuf_reserve}
use vicarl.Core.Writer.Growth.{Reserved, wbuf_reserve_lem, wbuf_reserve-ne-fault}

-- More than the buffer has room for.
wbuf_reserve_lem_example : Reserved generous two_bytes 300 (wbuf_reserve generous two_bytes 300)
wbuf_reserve_lem_example = wbuf_reserve_lem generous two_bytes 300 two_bytes-IsWbuf (omega arith)

-- The doubling passes SIZE_MAX.
wbuf_reserve-ne-fault_example : wbuf_reserve generous two_bytes (2 ^ 63 + 1) ≢ err fault
wbuf_reserve-ne-fault_example =
    wbuf_reserve-ne-fault generous two_bytes (2 ^ 63 + 1) two_bytes-IsWbuf
