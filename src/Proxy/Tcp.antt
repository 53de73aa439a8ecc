-- ===== src/Proxy/Tcp.antt =====
-- pkg/proxy/proxy_tcp.go: one TCP proxy, its connections and what it reports to `Start`.
use s_ingress.Common.Net.{Addr, AddrPort, invalid, v4, v6}
use s_ingress.Common.Texts.{Text, codes}
use s_ingress.Common.{Bool, List, Option, [], false, none, some, true, ℕ, ◌++◌, ◌∷◌}

-- `getProxyHeader`, at the addresses of a connection. `addr_string` and `itoa` are
-- `netip.Addr.String` and `strconv.Itoa`.
module _ (addr_string : Addr → Text) (itoa : ℕ → Text) where
  abbrev endpoints : AddrPort → AddrPort → Text
  endpoints remote local =
      addr_string remote.addr
      ++ codes " "
      ++ addr_string local.addr
      ++ codes " "
      ++ itoa remote.port
      ++ codes " "
      ++ itoa local.port
      ++ 0x0D ∷ 0x0A ∷ []

  unfoldable pub get_proxy_header : AddrPort → AddrPort → Text
  get_proxy_header remote local = elim remote.addr [
    | v6 n zone ↦ codes "PROXY TCP6 " ++ endpoints remote local
    | v4 n ↦ codes "PROXY TCP4 " ++ endpoints remote local
    | invalid ↦ codes "PROXY "
  ]

-- The two ends of a proxied connection: what was written upstream, and which ends are closed.
pub record TcpConnection : Type 0 where
  pub written : Text
  pub upstream_open : Bool
  pub downstream_open : Bool
  pub copying : Bool

-- `connectTcp` up to the start of the copying: whether the dial and the write of the header
-- succeed.
unfoldable pub connect_tcp : Bool → Bool → Text → TcpConnection
connect_tcp false write_ok header = record {
  written = [];
  upstream_open = false;
  downstream_open = true;
  copying = false;
}
connect_tcp true false header = record {
  written = [];
  upstream_open = false;
  downstream_open = false;
  copying = false;
}
connect_tcp true true header = record {
  written = header;
  upstream_open = true;
  downstream_open = true;
  copying = true;
}

-- How the copying ends: one of the two directions stops, or the context is cancelled.
pub data ConnectionEnd : Type 0 where
  downstream_ended upstream_ended context_cancelled : ConnectionEnd

-- The three goroutines of `connectTcp` do the same at their end.
unfoldable pub end_copy : ConnectionEnd → TcpConnection → TcpConnection
end_copy e c = record c { upstream_open = false; downstream_open = false; copying = false }

-- What `AcceptTCP` gives.
pub data Accept : Type 0 where
  aborted : Accept
  refused : Text → Accept
  accepted : (remote local : AddrPort) → Accept

-- The accept loop of `startTcpProxy`: the connections that it hands on, and its message, if it
-- has come to an end.
unfoldable pub accept_loop : List Accept → List (AddrPort × AddrPort) × Option Text
accept_loop [] = ([], none)
accept_loop (aborted ∷ more) = accept_loop more
accept_loop (refused e ∷ more) = ([], some e)
accept_loop (accepted remote local ∷ more) =
    let (connections, message) = accept_loop more in ((remote, local) ∷ connections, message)

-- The goroutine that closes the listener, by the error of the close.
unfoldable pub close_messages : Option Text → List (Option Text)
close_messages none = none ∷ []
close_messages (some e) = some e ∷ none ∷ []

-- All messages of one TCP proxy on the error channel of `Start`.
unfoldable pub tcp_messages : List Accept → Option Text → List (Option Text)
unfolding accept_loop close_messages
tcp_messages accepts close_error = elim (accept_loop accepts).1 [
  | none ↦ close_messages close_error
  | some e ↦ some e ∷ close_messages close_error
]
