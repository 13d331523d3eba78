-- ===== src/Sample/SitcpInfo.antt =====
-- `CreateSiTCPInfo` of MfcSample/SiDaqMfcSampleDlg.cpp: what the text on the device's registers says.
-- A line of the text is the record's field of its name; its words and number formats are left out.
use si_daq_api.Base.{
  ℕ, zero, suc, ◌+◌, ◌*◌, ◌<◌, ◌≤◌, ◌≡◌, refl, sym, ap, ap₂, ◌∙◌, arith, Returns, returns,
  Returns-bind, lt→leb, take, drop, Bool, not, ◌==◌, Option, none, some, List, [], ◌∷◌, Outcome,
  done, fault, ◌>>=◌, leb, length, get_or, if◌then◌else◌,
}
use si_daq_api.Sample.FrameLength.{big_endian}

pub record SitcpInfo : Type 0 where
  pub ip_address : List ℕ
  pub tcp_data_port : ℕ
  pub udp_port : ℕ
  pub mac_address : List ℕ
  pub tcp_command_port : ℕ
  pub tcp_max_segment_size : ℕ
  pub keep_alive_not_empty : ℕ
  pub keep_alive_empty : ℕ
  pub timeout_connecting : ℕ
  pub timeout_disconnect : ℕ
  pub reconnect_interval : ℕ
  pub retransmission_timer : ℕ
  pub keep_alive_enabled : Bool

-- `ret_data[at]`; past the end of the memory it is a fault.
byte_at : List ℕ → ℕ → Outcome ℕ
byte_at data_ at_ = if leb (length data_) at_ then fault else done (get_or data_ at_ 0)

-- `(ret_data[begin + 0] << 8) + ret_data[begin + 1]`
word_at : List ℕ → ℕ → Outcome ℕ
word_at data_ begin =
    byte_at data_ begin >>= λ high. byte_at data_ (begin + 1) >>= λ low. done (high * 256 + low)

bytes_at : List ℕ → List ℕ → Outcome (List ℕ)
bytes_at data_ [] = done []
bytes_at data_ (at_ ∷ ats) =
    byte_at data_ at_ >>= λ byte. bytes_at data_ ats >>= λ bytes. done (byte ∷ bytes)

-- `CreateSiTCPInfo(ret_data)`; the registers begin at 0xffffff00. NULL gives the title alone.
unfoldable pub create_sitcp_info : Option (List ℕ) → Outcome (Option SitcpInfo)
unfolding byte_at word_at bytes_at
create_sitcp_info none = done none
create_sitcp_info (some ret_data) = bytes_at ret_data (0x18 ∷ 0x19 ∷ 0x1a ∷ 0x1b ∷ []) >>= λ ip.
    word_at ret_data 0x1c >>= λ tcp. word_at ret_data 0x22 >>= λ udp.
    bytes_at ret_data (0x12 ∷ 0x13 ∷ 0x14 ∷ 0x15 ∷ 0x16 ∷ 0x17 ∷ []) >>= λ mac.
    word_at ret_data 0x1e >>= λ command. word_at ret_data 0x20 >>= λ segment.
    word_at ret_data 0x24 >>= λ not_empty. word_at ret_data 0x26 >>= λ empty.
    word_at ret_data 0x28 >>= λ connecting. word_at ret_data 0x2a >>= λ disconnect.
    word_at ret_data 0x2c >>= λ reconnect. word_at ret_data 0x2e >>= λ retransmission.
    byte_at ret_data 0x10 >>= λ control. done (
      some (record {
        ip_address = ip;
        tcp_data_port = tcp;
        udp_port = udp;
        mac_address = mac;
        tcp_command_port = command;
        tcp_max_segment_size = segment;
        keep_alive_not_empty = not_empty;
        keep_alive_empty = empty;
        timeout_connecting = connecting;
        timeout_disconnect = disconnect * 256;
        reconnect_interval = reconnect;
        retransmission_timer = retransmission;
        keep_alive_enabled = not (control == 0);
      }))

abbrev pub AllBytes : List ℕ → Type 0
AllBytes [] = Unit {0}
AllBytes (byte ∷ bytes) = (byte < 256) × AllBytes bytes

get_or-AllBytes : (data_ : List ℕ) (n : ℕ) → AllBytes data_ → get_or data_ n 0 < 256
get_or-AllBytes [] n a = omega arith
get_or-AllBytes (byte ∷ data_) zero a = a.0
get_or-AllBytes (byte ∷ data_) (suc n) a = get_or-AllBytes data_ n a.1

byte_at-done :
    (data_ : List ℕ) (n : ℕ) → n < length data_ → byte_at data_ n ≡ done (get_or data_ n 0)
unfolding byte_at
byte_at-done data_ n h = rw (lt→leb (length data_) n h) refl

take-drop :
    (data_ : List ℕ) (n k : ℕ)
    → n < length data_
    → take (suc k) (drop n data_) ≡ get_or data_ n 0 ∷ take k (drop (suc n) data_)
take-drop [] n k h = absurd (omega arith)
take-drop (byte ∷ data_) zero k h = refl
take-drop (byte ∷ data_) (suc n) k h = take-drop data_ n k (omega arith)

pair_at :
    (data_ : List ℕ) (n : ℕ)
    → suc n < length data_
    → take 2 (drop n data_) ≡ get_or data_ n 0 ∷ get_or data_ (n + 1) 0 ∷ []
pair_at data_ n h =
    take-drop data_ n 1 (omega arith)
    ∙ ap (◌∷◌ (get_or data_ n 0)) (take-drop data_ (suc n) 0 h)
    ∙ ap (λ k. get_or data_ n 0 ∷ get_or data_ k 0 ∷ []) next
  where
    next : suc n ≡ n + 1
    next = omega arith

abbrev from : ℕ → ℕ → List ℕ
from n zero = []
from n (suc k) = n ∷ from (suc n) k

bytes_at-from :
    (data_ : List ℕ) (n k : ℕ)
    → n + k ≤ length data_
    → bytes_at data_ (from n k) ≡ done (take k (drop n data_))
unfolding bytes_at
bytes_at-from data_ n zero h = refl
bytes_at-from data_ n (suc k) h =
    rw (byte_at-done data_ n (omega arith), bytes_at-from data_ (suc n) k (omega arith))
      (ap done (sym (take-drop data_ n k (omega arith))))

-- The number is the one that two registers hold, the high byte first.
abbrev pub IsWord : List ℕ → ℕ → ℕ → Type 0
IsWord data_ n value = big_endian 2 value ≡ take 2 (drop n data_)

-- What the text says of the registers `data_`.
pub record IsShown (data_ : List ℕ) (info : SitcpInfo) : Type 0 where
  pub ip_address : info.ip_address ≡ take 4 (drop 0x18 data_)
  pub mac_address : info.mac_address ≡ take 6 (drop 0x12 data_)
  pub tcp_data_port : IsWord data_ 0x1c info.tcp_data_port
  pub tcp_command_port : IsWord data_ 0x1e info.tcp_command_port
  pub tcp_max_segment_size : IsWord data_ 0x20 info.tcp_max_segment_size
  pub udp_port : IsWord data_ 0x22 info.udp_port
  pub keep_alive_not_empty : IsWord data_ 0x24 info.keep_alive_not_empty
  pub keep_alive_empty : IsWord data_ 0x26 info.keep_alive_empty
  pub timeout_connecting : IsWord data_ 0x28 info.timeout_connecting
  pub timeout_disconnect :
      (ticks : ℕ) × IsWord data_ 0x2a ticks × (info.timeout_disconnect ≡ ticks * 256)
  pub reconnect_interval : IsWord data_ 0x2c info.reconnect_interval
  pub retransmission_timer : IsWord data_ 0x2e info.retransmission_timer

module _ (data_ : List ℕ) (a : AllBytes data_) where
  word_at-IsWord : (n : ℕ) → suc n < length data_ → Returns (IsWord data_ n) (word_at data_ n)
  unfolding word_at big_endian
  word_at-IsWord n h =
      rw (byte_at-done data_ n (omega arith), byte_at-done data_ (n + 1) (omega arith))
        (returns (
          ap₂ (λ x y. x ∷ y ∷ []) (omega (arith, high, low)) (omega (arith, high, low))
          ∙ sym (pair_at data_ n h)))
    where
      high : get_or data_ n 0 < 256
      high = get_or-AllBytes data_ n a

      low : get_or data_ (n + 1) 0 < 256
      low = get_or-AllBytes data_ (n + 1) a

  -- Of registers that reach to the retransmission timer (48 bytes at least), `CreateSiTCPInfo`
  -- reads none that is not there; it shows the addresses byte by byte, and each port, size and
  -- time as the number that its two registers hold, the high byte first, and the time to
  -- disconnect as 256 times that number.
  pub create_sitcp_info-IsShown :
      48 ≤ length data_
      → Returns
          (λ r. (info : SitcpInfo) × (r ≡ some info) × IsShown data_ info)
          (create_sitcp_info (some data_))
  unfolding create_sitcp_info
  create_sitcp_info-IsShown h =
      rw
        (
          bytes_at-from data_ 0x18 4 (omega arith),
          bytes_at-from data_ 0x12 6 (omega arith),
          byte_at-done data_ 0x10 (omega arith),
        )
        (Returns-bind (word_at-IsWord 0x1c (omega arith)) λ tcp e1.
          Returns-bind (word_at-IsWord 0x22 (omega arith)) λ udp e2.
            Returns-bind (word_at-IsWord 0x1e (omega arith)) λ command e3.
              Returns-bind (word_at-IsWord 0x20 (omega arith)) λ segment e4.
                Returns-bind (word_at-IsWord 0x24 (omega arith)) λ not_empty e5.
                  Returns-bind (word_at-IsWord 0x26 (omega arith)) λ empty e6.
                    Returns-bind (word_at-IsWord 0x28 (omega arith)) λ connecting e7.
                      Returns-bind (word_at-IsWord 0x2a (omega arith)) λ disconnect e8.
                        Returns-bind (word_at-IsWord 0x2c (omega arith)) λ reconnect e9.
                          Returns-bind (word_at-IsWord 0x2e (omega arith)) λ retransmission e10.
                            returns (
                              _,
                              refl,
                              record {
                                ip_address = refl;
                                mac_address = refl;
                                tcp_data_port = e1;
                                tcp_command_port = e3;
                                tcp_max_segment_size = e4;
                                udp_port = e2;
                                keep_alive_not_empty = e5;
                                keep_alive_empty = e6;
                                timeout_connecting = e7;
                                timeout_disconnect = (disconnect, e8, refl);
                                reconnect_interval = e9;
                                retransmission_timer = e10;
                              },
                            ))
