-- ===== src/Api/Starts.antt =====
-- What `SiDaqInitialize` answers in general.
use si_daq_api.Base.{
  ℕ, ◌+◌, ◌%◌, ◌^◌, ◌<◌, ◌≡◌, ◌⊎◌, inl, inr, refl, arith, Bool, true, false, not, ◌==◌, Bool-cases,
  Option, none, some, List, done, Returns, returns, length, lt→leb,
}
use si_daq_api.Rbcp.{Rbcp}
use si_daq_api.Rbcp.Bounds.{IsSound}
use si_daq_api.Api.Sound.{HasSound, rbcp_read_bytes-ReadOk}
use si_daq_api.Rbcp.Construct.{SockaddrIn, made}
use si_daq_api.Rbcp.Construct.Cases.{Accepts, construct_made, new_object-IsNew}
use si_daq_api.Api.Access.{rbcp_read_bytes}
use si_daq_api.Api.State.{sys_error, no_error, Mngr, Process, set_sidaq_error}
use si_daq_api.Api.Lifecycle.{
  Startup, Initialized, null, manager, fresh_mngr, connect_answer, connect_device, new_rbcp,
  start_rbcp, reg_area_address, rbcp_reg_length, sidaq_initialize, host_name_max,
}

pub option-cases : {A : Type 0} (o : Option A) → (o ≡ none) ⊎ ((a : A) × (o ≡ some a))
option-cases none = inl refl
option-cases (some a) = inr (a, refl)

-- NULL, or a manager whose register client is sound, and whose queues exist unless it has failed.
abbrev pub IsAnswer : Initialized → Type 0
IsAnswer r =
    (r ≡ null)
    ⊎ ((m : Mngr) × (r ≡ manager m) × HasSound m × ((m.status ≡ sys_error) ⊎ (m.queues ≡ true)))

connect_answer-IsAnswer :
    (allocated : Bool) (o : Option (List ℕ)) (m : Mngr)
    → HasSound m
    → IsAnswer (connect_answer allocated o m)
unfolding connect_answer
connect_answer-IsAnswer allocated none m v = inr (_, refl, record { client = tt }, inl refl)
connect_answer-IsAnswer true (some bytes) m v =
    inr (_, refl, record { client = v.client }, inr refl)
connect_answer-IsAnswer false (some bytes) m v = inl refl

-- What lets the constructor of `SiTcpRbcp` make the object.
abbrev pub CanConnect : Startup → List ℕ → ℕ → Type 0
CanConnect s ip udp_port = Accepts s.host ip (udp_port % 2 ^ 16)

pub new_rbcp-made :
    (s : Startup) (ip : List ℕ) (udp_port : ℕ)
    → Accepts s.host ip (udp_port % 2 ^ 16)
    → (r : Rbcp) × (peer : SockaddrIn) × (new_rbcp s ip udp_port ≡ made r peer) × IsSound r
unfolding new_rbcp
new_rbcp-made s ip udp_port a = (
  _,
  _,
  construct_made s.host ip (udp_port % 2 ^ 16) 200 a,
  (new_object-IsNew s.host ip (udp_port % 2 ^ 16) 200 (omega arith)).sound,
)

pub start_rbcp-made :
    (s : Startup) (m : Mngr) (r : Rbcp) (peer : SockaddrIn)
    → new_rbcp s m.ip_address m.udp_port ≡ made r peer
    → start_rbcp s m ≡ connect_device s r m
unfolding start_rbcp
start_rbcp-made s m r peer e = rw (e, start_rbcp) refl

start_rbcp-IsAnswer :
    (s : Startup) (m : Mngr) → CanConnect s m.ip_address m.udp_port → IsAnswer (start_rbcp s m)
unfolding connect_device
start_rbcp-IsAnswer s m a =
    let (r, peer, e, sound) = new_rbcp-made s m.ip_address m.udp_port a in
    let (kept, brings) =
      rbcp_read_bytes-ReadOk s.net reg_area_address rbcp_reg_length (record m { sitcp = some r })
        (omega arith) (record { client = sound }) in
    rw (start_rbcp-made s m r peer e) (
      connect_answer-IsAnswer s.list_allocated
        (rbcp_read_bytes s.net reg_area_address rbcp_reg_length (record m { sitcp = some r })).0
        (rbcp_read_bytes s.net reg_area_address rbcp_reg_length (record m { sitcp = some r })).1
        kept)

module _ (s : Startup) (ip : List ℕ) (tcp_port udp_port : ℕ) (p : Process)
    (fits : length ip < host_name_max) where
  initialize-split :
      (sidaq_initialize (some ip) tcp_port udp_port false s p ≡ done (null, p))
      ⊎ (((m : Mngr) × (sidaq_initialize (some ip) tcp_port udp_port false s p
              ≡ done (manager m, p))
            × HasSound m
            × (m.status ≡ sys_error))
          ⊎ ((p' : Process) × (sidaq_initialize (some ip) tcp_port udp_port false s p
                ≡ done (start_rbcp s (fresh_mngr ip tcp_port udp_port), p'))))
  unfolding sidaq_initialize start_rbcp connect_device new_rbcp
  initialize-split = elim (Bool-cases (not s.allocated)) [
    | inl e ↦ inl (rw e refl)
    | inr e ↦ elim (Bool-cases (p.wsa_init == 0)) [
      | inr c ↦ inr (inr (p, rw (e, lt→leb host_name_max (length ip) fits, c) refl))
      | inl c ↦ elim (option-cases s.wsa_failed) [
        | inl w ↦ inr (
            inr (
              record p { wsa_init = p.wsa_init + 1 },
              rw (e, lt→leb host_name_max (length ip) fits, c, w) refl,
            ))
        | inr (a, w) ↦ inr (
            inl (
              set_sidaq_error (record (fresh_mngr ip tcp_port udp_port) { status = sys_error })
                  no_error "could not initialize socket. WSAStartup Failed." (some a),
              rw (e, lt→leb host_name_max (length ip) fits, c, w) refl,
              record { client = tt },
              refl,
            ))
      ]
    ]
  ]

  -- For an address that fits, and a socket library that lets the constructor connect: NULL or a
  -- manager whose register client is sound, and whose queues exist unless it has failed.
  pub sidaq_initialize-cases :
      CanConnect s ip udp_port
      → Returns (λ i. IsAnswer i.0) (sidaq_initialize (some ip) tcp_port udp_port false s p)
  sidaq_initialize-cases a = elim initialize-split [
    | inl e ↦ rw e (returns (inl refl))
    | inr (inl (m, e, v, st)) ↦ rw e (returns (inr (m, refl, v, inl st)))
    | inr (inr (p', e)) ↦ rw e (returns (start_rbcp-IsAnswer s (fresh_mngr ip tcp_port udp_port) a))
  ]
