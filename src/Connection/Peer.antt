-- ===== src/Connection/Peer.antt =====
-- internal/server/server.go: `peerAddr`, and which peers may speak for a client.
use fingered.Base.{◌≡◌, refl, true, false, List, [], ◌∷◌, Option, none, some, Bytes, arith}
use fingered.Addr.{Addr, invalid, is_valid, addr_eq, v4, v6}
use fingered.Addr.Parse.{parse_addr}
use fingered.Proxy.{is_trusted_proxy}
use fingered.Config.{Config}
use fingered.Config.Load.{File, loaded, load}
use fingered.Config.Trusted.{AreValid, load-AreValid}
use fingered.Connection.{speaks_for_clients}

abbrev pub addr_or_invalid : Option Addr → Addr
addr_or_invalid none = invalid
addr_or_invalid (some ip) = ip

-- `peerAddr`, from the host that `net.SplitHostPort` finds in the text of the remote address; `none` if
-- there is no address or it does not split
unfoldable pub peer_addr : Option Bytes → Addr
peer_addr none = invalid
peer_addr (some host) = addr_or_invalid (parse_addr host)

is_trusted_proxy-invalid : (ips : List Addr) → AreValid ips → is_trusted_proxy ips invalid ≡ false
unfolding is_trusted_proxy is_valid addr_eq
is_trusted_proxy-invalid [] h = refl
is_trusted_proxy-invalid (invalid ∷ ips) h = absurd (cc h.0)
is_trusted_proxy-invalid (v4 a b c d ∷ ips) h = is_trusted_proxy-invalid ips h.1
is_trusted_proxy-invalid (v6 bs z ∷ ips) h = is_trusted_proxy-invalid ips h.1

-- A peer that may speak for clients: it has a host, which parses to a trusted proxy.
pub record IsSpeaker (c : Config) (remote : Option Bytes) : Type 0 where
  pub host : Bytes
  pub has_host : remote ≡ some host
  pub parses : parse_addr host ≡ some (peer_addr remote)
  pub trusted : is_trusted_proxy c.trusted_proxy_ips (peer_addr remote) ≡ true
  pub on : c.proxy_protocol ≡ true

module _ (c : Config) (valid : AreValid c.trusted_proxy_ips) where
  invalid_peer : speaks_for_clients c invalid ≡ false
  unfolding speaks_for_clients
  invalid_peer = ground (arith, is_trusted_proxy-invalid c.trusted_proxy_ips valid)

  host-IsSpeaker :
      (host : Bytes) (o : Option Addr)
      → parse_addr host ≡ o
      → speaks_for_clients c (addr_or_invalid o) ≡ true
      → IsSpeaker c (some host)
  unfolding peer_addr speaks_for_clients
  host-IsSpeaker host none e h = absurd (cc (invalid_peer, h))
  host-IsSpeaker host (some ip) e h = record {
    host = host;
    has_host = refl;
    parses = rw e refl;
    trusted = rw e (ground arith);
    on = ground arith;
  }

  remote-IsSpeaker :
      (remote : Option Bytes) → speaks_for_clients c (peer_addr remote) ≡ true → IsSpeaker c remote
  unfolding peer_addr
  remote-IsSpeaker none h = absurd (cc (invalid_peer, h))
  remote-IsSpeaker (some host) h = host-IsSpeaker host (parse_addr host) refl h

-- Under a configuration that Load returns, a peer whose PROXY header is read has a host that parses to
-- one of the trusted proxies, and the PROXY protocol is on: a peer whose address is missing or does not
-- parse is not trusted.
pub speaks_for_clients-IsSpeaker :
    (f : File) (c : Config) (remote : Option Bytes)
    → load f ≡ loaded c
    → speaks_for_clients c (peer_addr remote) ≡ true
    → IsSpeaker c remote
speaks_for_clients-IsSpeaker f c remote l h = remote-IsSpeaker c (load-AreValid f c l) remote h
