-- ===== src/Api/Registers.antt =====
-- `SiDaqRbcpReadBytes` and `SiDaqRbcpWriteBytes` with a device, and with a length that is refused.
use si_daq_api.Base.{ℕ, ◌<◌, ◌≤◌, ◌≡◌, ◌^◌, false, none, some, List, ◌++◌, drop, arith}
use si_daq_api.Rbcp.{Rbcp, Net}
use si_daq_api.Rbcp.Device.{dump, device_net, length-dump, read_bytes-dump}
use si_daq_api.Rbcp.Bounds.{access_too_large}
use si_daq_api.Api.State.{sitcp_write_error, Mngr}
use si_daq_api.Api.Access.{rbcp_read_bytes, rbcp_write_bytes}

-- With an object, for an address of 32 bits and a length of at most 255: `SiDaqRbcpReadBytes`
-- answers the bytes that the device holds at the address; they stand at the head of the manager's
-- register buffer, and but for that and the object nothing has changed.
pub rbcp_read_bytes-dump :
    (mem : ℕ → ℕ) (addr len : ℕ) (r : Rbcp) (m : Mngr)
    → m.sitcp ≡ some r
    → addr < 2 ^ 32
    → len ≤ 255
    → (r' : Rbcp) × (rbcp_read_bytes (device_net mem) addr len m ≡ (
      some (dump mem addr len),
      record m { sitcp = some r'; sitcp_register = dump mem addr len ++ drop len m.sitcp_register },
    ))
unfolding rbcp_read_bytes
rbcp_read_bytes-dump mem addr len r m e in_range le =
    let (r', read, _) = read_bytes-dump mem r addr in_range len le in
    (r', ground (arith, read, length-dump mem addr len))

-- With an object, a length above 255 is refused by both functions: both leave the same manager,
-- with the error of a failed write and the object as it was.
pub rbcp_access_too_large :
    (net : Net) (buffer : List ℕ) (addr len : ℕ) (r : Rbcp) (m : Mngr)
    → m.sitcp ≡ some r
    → 255 < len
    → ((rbcp_read_bytes net addr len m).0 ≡ none)
      × ((rbcp_write_bytes net buffer addr len m).0 ≡ false)
      × ((rbcp_read_bytes net addr len m).1 ≡ (rbcp_write_bytes net buffer addr len m).1)
      × ((rbcp_read_bytes net addr len m).1.error_code ≡ sitcp_write_error)
      × ((rbcp_read_bytes net addr len m).1.sitcp ≡ some r)
unfolding rbcp_read_bytes rbcp_write_bytes
rbcp_access_too_large net buffer addr len r m e gt =
    ground (arith, access_too_large net buffer addr len r gt)
