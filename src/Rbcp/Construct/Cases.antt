-- ===== src/Rbcp/Construct/Cases.antt =====
-- What the constructor of `SiTcpRbcp` makes, and what it leaves open when it throws.
use si_daq_api.Base.{
  ℕ, ◌-◌, ◌*◌, ◌^◌, ◌<◌, ◌≡◌, ◌≢◌, ◌⊎◌, inl, inr, refl, true, false, List, arith, ◌==◌, Bool-cases,
  ==→eq, ==→ne, ◌/◌,
}
use si_daq_api.Rbcp.{Rbcp, RbcpException, socket_error, set_timeout, get_timeout}
use si_daq_api.Rbcp.Bounds.{IsSound, get_timeout-set_timeout}
use si_daq_api.Rbcp.Construct.{
  blank, Host, Construction, made, failed, make_sockaddr_in, connect_socket, construct,
}

-- The socket library gives the constructor what it asks for.
pub record Accepts (host : Host) (host_addr : List ℕ) (port : ℕ) : Type 0 where
  pub socket : host.has_socket ≡ true
  pub option_set : host.setsockopt ≡ 0
  pub connected : host.connect (make_sockaddr_in host host_addr port) ≡ 0

-- The new object: its socket is open, and the timeout is set.
pub record IsNew (msec : ℕ) (r : Rbcp) : Type 0 where
  pub sound : IsSound r
  pub first_id : r.id ≡ 0
  pub kept_open : r.closed ≡ 0
  pub waits : get_timeout r ≡ msec

abbrev pub Refused : Host → List ℕ → ℕ → Construction → Type 0
Refused host host_addr port c =
    (e : RbcpException) × (left : ℕ) × (c ≡ failed e left)
    × (e.error_number ≡ socket_error)
    × ((left ≡ 0 × ((host.has_socket ≡ false) ⊎ (host.setsockopt ≢ 0)))
        ⊎ (left ≡ 1 × (host.connect (make_sockaddr_in host host_addr port) ≢ 0)))

abbrev pub Made : Host → List ℕ → ℕ → ℕ → Construction → Type 0
Made host host_addr port msec c =
    (r : Rbcp) × (c ≡ made r (make_sockaddr_in host host_addr port)) × IsNew msec r

module _ (host : Host) (host_addr : List ℕ) (port msec : ℕ) where
  construct_no_socket :
      host.has_socket ≡ false
      → construct host host_addr port msec
        ≡ failed (record { error_number = socket_error; message = "socket() failed" }) 0
  unfolding construct
  construct_no_socket e = ground arith

  construct_no_option :
      host.has_socket ≡ true
      → host.setsockopt ≢ 0
      → construct host host_addr port msec
        ≡ failed (record { error_number = socket_error; message = "setsocketopt() failed" }) 0
  unfolding construct connect_socket set_timeout
  construct_no_option e n = ground arith

  construct_no_peer :
      host.has_socket ≡ true
      → host.setsockopt ≡ 0
      → host.connect (make_sockaddr_in host host_addr port) ≢ 0
      → construct host host_addr port msec
        ≡ failed (record { error_number = socket_error; message = "connect() failed" }) 1
  unfolding construct connect_socket set_timeout
  construct_no_peer e o n = ground arith

  -- The object that the constructor makes.
  abbrev pub new_object : Rbcp
  new_object = record blank {
    wait = record { tv_sec = msec / 1000; tv_usec = (msec - msec / 1000 * 1000) * 1000 };
  }

  pub construct_made :
      Accepts host host_addr port
      → construct host host_addr port msec ≡ made new_object (make_sockaddr_in host host_addr port)
  unfolding construct connect_socket set_timeout
  construct_made a = ground (arith, a.socket, a.option_set, a.connected)

  pub new_object-IsNew : msec < 2 ^ 31 → IsNew msec new_object
  unfolding set_timeout
  new_object-IsNew small = record {
    sound = record { size = refl; id_byte = omega arith };
    first_id = refl;
    kept_open = refl;
    waits = get_timeout-set_timeout 0 msec blank small;
  }

  -- With a timeout of less than 2 ^ 31 milliseconds, the constructor makes an object exactly if the socket library gives
  -- a socket, takes the option and connects: it is sound, its socket open and its timeout set, and
  -- its peer is the address that `make_sockaddr_in` computes. Otherwise it throws a socket error,
  -- and the socket stays open exactly where it is `connect` that failed.
  pub construct-cases :
      msec < 2 ^ 31
      → (Accepts host host_addr port
          × Made host host_addr port msec (construct host host_addr port msec))
        ⊎ (¬ Accepts host host_addr port
            × Refused host host_addr port (construct host host_addr port msec))
  construct-cases small = elim (Bool-cases host.has_socket) [
    | inr e ↦ inr ((λ a. cc (a.socket, e)), (_, 0, construct_no_socket e, refl, inl (refl, inl e)))
    | inl e ↦ elim (Bool-cases (host.setsockopt == 0)) [
      | inr o ↦ inr (
        (λ a. ==→ne _ _ o a.option_set),
        (_, 0, construct_no_option e (==→ne _ _ o), refl, inl (refl, inr (==→ne _ _ o))),
      )
      | inl o ↦ elim (Bool-cases (host.connect (make_sockaddr_in host host_addr port) == 0)) [
        | inr n ↦ inr (
          (λ a. ==→ne _ _ n a.connected),
          (_, 1, construct_no_peer e (==→eq _ _ o) (==→ne _ _ n), refl, inr (refl, ==→ne _ _ n)),
        )
        | inl n ↦
            let a : Accepts host host_addr port = record {
              socket = e;
              option_set = ==→eq _ _ o;
              connected = ==→eq _ _ n;
            } in
            inl (a, (new_object, construct_made a, new_object-IsNew small))
      ]
    ]
  ]
