-- ===== src/Proxy/Lifecycle/Ending.antt =====
-- pkg/proxy/proxy.go and proxy_tcp.go: the messages of all listeners, and the end of `Start`.
use s_ingress.Common.Texts.{Text}
use s_ingress.Common.{
  Bool, List, Option, Option-cases, Result, [], ap, arith, err, false, inl, inr, is_none, length,
  map, none, ok, ok-injective, refl, some, suc, true, ℕ, ◌+◌, ◌∷◌, ◌≡◌, ◌≤◌,
}
use s_ingress.Proxy.Lifecycle.Listening.{
  Opens, Starts, all_listeners, all_run, failed_at, listened, listened-Starts,
}
use s_ingress.Proxy.Lifecycle.Stopping.{Stands, in_loop, messages, over, serve_events-Stands}
use s_ingress.Proxy.Lifecycle.{
  Event, Listener, Proxy, Running, after_listeners, first_config, http_server, https_server,
  quic_server, start, start_listeners, start_returned, status_server, tcp_listener, wait_for_config,
}
use s_ingress.Proxy.Listeners.{ServerRun, server_message}
use s_ingress.Proxy.Routing.{RoutingConfig, TcpProxyConfig, value}
use s_ingress.Proxy.Tcp.{Accept, accept_loop, close_messages, tcp_messages}

Opens-free :
    (listen : Listener → Option Text)
    → ((l : Listener) → listen l ≡ none)
    → (l : Listener) → Opens listen l
Opens-free listen free quic_server = tt
Opens-free listen free https_server = free https_server
Opens-free listen free http_server = free http_server
Opens-free listen free status_server = free status_server
Opens-free listen free (tcp_listener conf) = free (tcp_listener conf)

-- If no port is taken, all listeners start.
Starts-complete :
    (listen : Listener → Option Text) (k : ℕ) (all : List Listener) (r : Result Text ℕ)
    (started : List Listener)
    → ((l : Listener) → listen l ≡ none)
    → Starts listen k all r started
    → r ≡ ok (k + length all)
Starts-complete listen k all (ok n) started free (all_run _ e) = ap ok e
Starts-complete listen k all (err m) started free (failed_at l rest e a f) =
    absurd (f (Opens-free listen free l))

not_free : Path Bool true false → ⊥
not_free e = cc

close_messages-one : (e : Option Text) → 1 ≤ length (close_messages e)
unfolding close_messages
close_messages-one none = omega arith
close_messages-one (some e) = omega arith

tcp_messages-one : (accepts : List Accept) (e : Option Text) → 1 ≤ length (tcp_messages accepts e)
unfolding tcp_messages
tcp_messages-one accepts e = elim (Option-cases (accept_loop accepts).1) [
  | inl h ↦ rw (h, tcp_messages) (close_messages-one e)
  | inr (m, h) ↦ rw (h, tcp_messages) (omega arith)
]

tcp_messages-two :
    (accepts : List Accept) (e : Option Text)
    → is_none (accept_loop accepts).1 ≡ false
    → 2 ≤ length (tcp_messages accepts e)
unfolding tcp_messages
tcp_messages-two accepts e closed = elim (Option-cases (accept_loop accepts).1) [
  | inl h ↦ absurd (not_free (rw h at closed))
  | inr (m, h) ↦ rw (h, tcp_messages) (omega (arith, close_messages-one e))
]

-- How the servers and the TCP proxies of one run come to their end.
pub record Ends : Type 0 where
  pub server_run : Listener → ServerRun
  pub accepts : TcpProxyConfig → List Accept
  pub close_error : TcpProxyConfig → Option Text

module _ (ends : Ends) where
  -- All messages that a listener sends to `Start`.
  abbrev pub messages_of : Listener → List (Option Text)
  messages_of (tcp_listener conf) = tcp_messages (ends.accepts conf) (ends.close_error conf)
  messages_of l = server_message l (ends.server_run l) ∷ []

  abbrev pub total : List Listener → ℕ
  total [] = 0
  total (l ∷ ls) = length (messages_of l) + total ls

  one_message : (l : Listener) → 1 ≤ length (messages_of l)
  one_message https_server = omega arith
  one_message http_server = omega arith
  one_message quic_server = omega arith
  one_message status_server = omega arith
  one_message (tcp_listener conf) = tcp_messages-one (ends.accepts conf) (ends.close_error conf)

  length-total : (ls : List Listener) → length ls ≤ total ls
  length-total [] = omega arith
  length-total (l ∷ ls) = omega (arith, one_message l, length-total ls)

  total-tcp :
      (confs : List TcpProxyConfig)
      → ((conf : TcpProxyConfig) → is_none (accept_loop (ends.accepts conf)).1 ≡ false)
      → length confs + length confs ≤ total (map tcp_listener confs)
  total-tcp [] closed = omega arith
  total-tcp (conf ∷ confs) closed = omega (
    arith,
    tcp_messages-two (ends.accepts conf) (ends.close_error conf) (closed conf),
    total-tcp confs closed,
  )

length-map : {A B : Type 0} (f : A → B) (xs : List A) → length (map f xs) ≡ length xs
length-map f [] = refl
length-map f (x ∷ xs) = ap suc (length-map f xs)

Stands-returns :
    (n : ℕ) (p : Proxy) (es : List Event) (r : Running)
    → n ≤ length (messages es)
    → Stands n p es r
    → (e : Option Text) × (q : Proxy) × (r ≡ start_returned e q)
Stands-returns n p es r enough (in_loop few) = absurd (omega arith)
Stands-returns n p es (start_returned e q) enough (over many same) = (e, q, refl)

after_listeners-returns :
    (listen : Listener → Option Text) (p : Proxy) (es : List Event)
    (r : Result Text ℕ × List Listener) (n : ℕ)
    → r.0 ≡ ok n
    → n ≤ length (messages es)
    → (e : Option Text) × (q : Proxy) × (after_listeners listen p es r ≡ start_returned e q)
after_listeners-returns listen p es (err m, started) n h enough = cc
after_listeners-returns listen p es (ok m, started) n h enough =
    let same : m ≡ n = ok-injective h in
    Stands-returns m p es _ (omega arith) (serve_events-Stands m p es)

start-returns :
    (listen : Listener → Option Text) (cfg : RoutingConfig) (p : Proxy) (es : List Event)
    → ((l : Listener) → listen l ≡ none)
    → length (all_listeners cfg) ≤ length (messages es)
    → (e : Option Text) × (q : Proxy) × (start listen (first_config (some cfg)) es p
        ≡ value (start_returned e q))
unfolding start wait_for_config start_listeners
start-returns listen cfg p es free enough =
    let count =
      Starts-complete listen 0 (all_listeners cfg) (listened listen cfg).0 (listened listen cfg).1
        free (listened-Starts listen cfg) in
    let (e, q, h) =
      after_listeners-returns listen (record p { routing_config = some cfg }) es
        (listened listen cfg) _ count (omega arith) in
    (e, q, ap value h)

-- If no port is taken, `Start` returns as soon as it has received, in any order and between any
-- configurations and signals, as many messages as its listeners send until their end.
pub start-ends :
    (listen : Listener → Option Text) (ends : Ends) (cfg : RoutingConfig) (p : Proxy)
    (es : List Event)
    → ((l : Listener) → listen l ≡ none)
    → total ends (all_listeners cfg) ≤ length (messages es)
    → (e : Option Text) × (q : Proxy) × (start listen (first_config (some cfg)) es p
        ≡ value (start_returned e q))
start-ends listen ends cfg p es free enough =
    start-returns listen cfg p es free (omega (arith, length-total ends (all_listeners cfg)))

-- `Start` does not wait for all messages: if the accept loop of each TCP proxy comes to its end,
-- it returns after one message for each listener, and by then at least as many messages as there
-- are TCP proxies have not been received.
pub start-early :
    (listen : Listener → Option Text) (ends : Ends) (cfg : RoutingConfig) (p : Proxy)
    (es : List Event)
    → ((l : Listener) → listen l ≡ none)
    → ((conf : TcpProxyConfig) → is_none (accept_loop (ends.accepts conf)).1 ≡ false)
    → length (messages es) ≡ length (all_listeners cfg)
    → ((e : Option Text) × (q : Proxy) × (start listen (first_config (some cfg)) es p
          ≡ value (start_returned e q)))
      × (length (messages es) + length cfg.tcp_proxy ≤ total ends (all_listeners cfg))
start-early listen ends cfg p es free closed count = (
  start-returns listen cfg p es free (omega arith),
  omega (arith, total-tcp ends cfg.tcp_proxy closed, length-map tcp_listener cfg.tcp_proxy),
)
