-- ===== src/Connection/Client.antt =====
-- Which address counts as the client's.
use fingered.Base.{
  ◌≡◌, ◌⊎◌, inl, inr, refl, subst, Bool, true, false, not, Option, none, some, if◌then◌else◌, arith,
  Result, ok, err,
}
use fingered.Base.Int.{pos}
use fingered.Addr.{Addr}
use fingered.Proxy.{parse_proxy_line, is_trusted_proxy, is_public_unicast_ip}
use fingered.Proxy.Line.{parse_proxy_line_iff}
use fingered.Reader.{Reader, ReadError, LineRead, read_line}
use fingered.Config.{Config}
use fingered.Content.Resolve.{ListenerMode}
use fingered.Connection.{
  Connection, Prepared, closed, ready, should_silently_close, proxied, proxy_read,
  read_proxy_header, speaks_for_clients, handshaken, start_tls, prepare_tls, prepare_plain,
  prepare_conn,
}

-- The client's address, if the connection goes on, has the property P.
abbrev ClientOf : (Addr → Type 0) → Prepared → Type 0
ClientOf P (closed why) = Unit
ClientOf P (ready reader client) = P client

if-ClientOf :
    (P : Addr → Type 0) (b : Bool) (x y : Prepared)
    → (b ≡ true → ClientOf P x)
    → (b ≡ false → ClientOf P y)
    → ClientOf P (if b then x else y)
if-ClientOf P true x y h k = h refl
if-ClientOf P false x y h k = k refl

-- Who the client may be: the peer, or a public address that a trusted peer names
abbrev pub IsClient : Config → Addr → Addr → Type 0
IsClient c peer client =
    (client ≡ peer)
    ⊎ ((c.proxy_protocol ≡ true)
        × (is_trusted_proxy c.trusted_proxy_ips peer ≡ true)
        × (is_public_unicast_ip client ≡ true))

speaks_for_clients-and :
    (c : Config) (peer : Addr)
    → speaks_for_clients c peer ≡ true
    → (c.proxy_protocol ≡ true) × (is_trusted_proxy c.trusted_proxy_ips peer ≡ true)
unfolding speaks_for_clients
speaks_for_clients-and c peer s = (ground arith, ground arith)

module _ (c : Config) (peer : Addr) where
  proxied-IsClient :
      (rest : Reader) (o : Option Addr)
      → speaks_for_clients c peer ≡ true
      → ((ip : Addr) → o ≡ some ip → is_public_unicast_ip ip ≡ true)
      → ClientOf (IsClient c peer) (proxied rest o)
  proxied-IsClient rest none s h = tt
  proxied-IsClient rest (some ip) s h =
      let (on, trusted) = speaks_for_clients-and c peer s in inr (on, trusted, h ip refl)

  proxy_read-IsClient :
      (r : LineRead) (e : Option ReadError)
      → speaks_for_clients c peer ≡ true
      → ClientOf (IsClient c peer) (proxy_read r e)
  proxy_read-IsClient r (some e) s = tt
  proxy_read-IsClient r none s =
      proxied-IsClient r.reader (parse_proxy_line r.line) s
        (λ ip h. ((parse_proxy_line_iff r.line ip).0 h).1.public)

  read_proxy_header-IsClient :
      (reader : Reader)
      → speaks_for_clients c peer ≡ true
      → ClientOf (IsClient c peer) (read_proxy_header reader)
  unfolding read_proxy_header
  read_proxy_header-IsClient reader s =
      let r = read_line reader (pos 108) in
      if-ClientOf (IsClient c peer) (should_silently_close r.error r.complete) (closed none)
        (proxy_read r r.error) (λ e. tt) (λ e. proxy_read-IsClient r r.error s)

handshaken-IsClient :
    (P : Addr → Type 0) (client : Addr) (x : Result Reader)
    → P client
    → ClientOf P (handshaken client x)
handshaken-IsClient P client (ok r) h = h
handshaken-IsClient P client (err e) h = tt

start_tls-IsClient :
    (P : Addr → Type 0) (conn : Connection) (p : Prepared)
    → ClientOf P p
    → ClientOf P (start_tls conn p)
start_tls-IsClient P conn (closed why) h = tt
start_tls-IsClient P conn (ready reader client) h =
    if-ClientOf P (not conn.sets_handshake_deadline) (closed none)
      (handshaken client (conn.handshake reader)) (λ e. tt)
      (λ e. handshaken-IsClient P client (conn.handshake reader) h)

prepare_tls-IsClient :
    (c : Config) (conn : Connection) → ClientOf (IsClient c conn.peer) (prepare_tls c conn)
unfolding prepare_tls
prepare_tls-IsClient c conn =
    let P : Addr → Type 0 = IsClient c conn.peer in
    if-ClientOf P (not conn.sets_header_deadline) (closed none) _ (λ e. tt)
      (λ e. start_tls-IsClient P conn _ (
        if-ClientOf P (speaks_for_clients c conn.peer) (read_proxy_header conn.reader)
          (ready conn.reader conn.peer) (read_proxy_header-IsClient c conn.peer conn.reader)
          (λ e. inl refl)))

prepare_plain-IsClient :
    (c : Config) (conn : Connection) → ClientOf (IsClient c conn.peer) (prepare_plain c conn)
unfolding prepare_plain
prepare_plain-IsClient c conn =
    let P : Addr → Type 0 = IsClient c conn.peer in
    if-ClientOf P (speaks_for_clients c conn.peer) _ (ready conn.reader conn.peer)
      (λ s.
        if-ClientOf P (not conn.sets_header_deadline) (closed none) (read_proxy_header conn.reader)
          (λ e. tt) (λ e. read_proxy_header-IsClient c conn.peer conn.reader s))
      (λ e. inl refl)

-- On either kind of listener, the address that counts as the client's is the peer's own, or a public
-- unicast address, and then the PROXY protocol is on and the peer is a trusted proxy.
pub prepare_conn-IsClient :
    (c : Config) (mode : ListenerMode) (conn : Connection) (reader : Reader) (client : Addr)
    → prepare_conn c mode conn ≡ ready reader client
    → IsClient c conn.peer client
unfolding prepare_conn
prepare_conn-IsClient c mode conn reader client h =
    let P : Addr → Type 0 = IsClient c conn.peer in
    subst (ClientOf P) h (
      if-ClientOf P mode.tls (prepare_tls c conn) (prepare_plain c conn)
        (λ e. prepare_tls-IsClient c conn) (λ e. prepare_plain-IsClient c conn))
