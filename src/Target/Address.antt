-- ===== src/Target/Address.antt =====
-- target.cpp: targets as socket addresses, and back.
use nodescan.Prelude.{
  ℕ, ◌^◌, ◌<◌, ◌≡◌, List, htonl, htons, ntohl, ntohs, ntohl-htonl, ntohs-htons, arith,
}
use nodescan.Target.{PortApi, PortLaws, Target}

-- The fields of `sockaddr_in` that are set; the others are zero.
pub record SockaddrIn : Type 0 where
  pub sin_family : ℕ
  pub sin_addr : List ℕ
  pub sin_port : List ℕ

-- AF_INET of the system's headers.
abbrev pub af_inet : ℕ
af_inet = 2

module _ {P : Type 0} ⦃api : PortApi P⦄ where
  pub to_sockaddr_in : Target P → SockaddrIn
  to_sockaddr_in t = record {
    sin_family = af_inet;
    sin_addr = htonl t.ipv4;
    sin_port = htons (api.value t.port);
  }

  -- `sa` is what `getpeername` gives, `type` and `proto` what `getsockopt` gives.
  unfoldable pub from_socket : SockaddrIn → ℕ → ℕ → Target P
  from_socket sa type proto = record {
    ipv4 = ntohl sa.sin_addr;
    port = api.make (ntohs sa.sin_port) (api.protocol_from_socket_type type proto);
  }

  -- A socket connected to the address that `to_sockaddr_in` computes, and created with the target's
  -- socket type and protocol, gives the target back.
  pub from_socket-to_sockaddr_in :
      (t : Target P)
      → PortLaws api
      → t.ipv4 < 2 ^ 32
      → from_socket (to_sockaddr_in t) (api.socket_type t.port) (api.socket_proto t.port) ≡ t
  unfolding from_socket to_sockaddr_in
  from_socket-to_sockaddr_in t laws h = ground (
    arith,
    ntohl-htonl t.ipv4 h,
    ntohs-htons (api.value t.port) (laws.value-lt t.port),
    laws.protocol_from_socket t.port,
    laws.make-value t.port,
  )
