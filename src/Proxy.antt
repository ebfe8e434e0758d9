-- ===== src/Proxy.antt =====
-- internal/server/server.go: the PROXY protocol, version 1, and the trusted proxies.
pub mod Public
pub mod Header
pub mod Line
use fingered.Base.{
  ℕ, ◌≤◌, Bool, true, false, not, ◌&&◌, ◌||◌, List, [], ◌∷◌, Option, none, some, ◌==◌, within, ltb,
  if◌then◌else◌, Bytes, codes, eqb,
}
use fingered.Base.Int.{ℤ, pos, ltb_ℤ}
use fingered.Text.{has_suffix, trim_suffix, split}
use fingered.Number.{atoi}
use fingered.Addr.{
  Addr, v4, v6, is_valid, is4, is6, zone, unmap, is_loopback, is_private, is_link_local_unicast,
  is_link_local_multicast, is_multicast, is_unspecified, addr_eq, byte_at,
}
use fingered.Addr.Parse.{parse_addr}

-- The blocks that the library's tests of an IPv4 address leave
unfoldable pub is_reserved4 : ℕ → ℕ → ℕ → ℕ → Bool
is_reserved4 a b c d =
    (a == 255 && (b == 255 && (c == 255 && d == 255)))
    || (a == 100 && within 64 127 b)
    || (a == 198 && (b == 18 || b == 19))
    || (a == 192 && (b == 0 && c == 0))
    || (a == 192 && (b == 0 && c == 2))
    || (a == 198 && (b == 51 && c == 100))
    || (a == 203 && (b == 0 && c == 113))

-- The tests of the source behind `Unmap`
unfoldable pub is_reserved : Addr → Bool
unfolding is_reserved4
is_reserved (v4 a b c d) = is_reserved4 a b c d
is_reserved (v6 bs _) =
    byte_at 0 bs == 0x20 && (byte_at 1 bs == 0x01 && (byte_at 2 bs == 0x0d && byte_at 3 bs == 0xb8))
is_reserved _ = false

unfoldable pub is_public_unicast_ip : Addr → Bool
unfolding is_reserved
is_public_unicast_ip ip =
    let u = unmap ip in
    if not (is_valid ip)
    then false
    else if is_loopback u
        || is_private u
        || is_link_local_unicast u
        || is_link_local_multicast u
        || is_multicast u
        || is_unspecified u
    then false
    else not (is_reserved u)

-- The address in a field of the header, which names its family first
unfoldable pub parse_proxy_addr : Bytes → Bytes → Option Addr
parse_proxy_addr network value = elim (parse_addr value) [
  | none ↦ none
  | some ip ↦
      if not (eqb (zone ip) [])
      then none
      else if eqb network (codes "TCP4")
      then (if not (is4 ip) then none else some ip)
      else if eqb network (codes "TCP6")
      then (if not (is6 ip) then none else some ip)
      else none
]

-- Whether `parseProxyPort` returns no error
unfoldable pub parse_proxy_port : Bytes → Bool
parse_proxy_port value = elim (atoi value) [
  | none ↦ false
  | some port ↦ not (ltb_ℤ port (pos 1) || ltb_ℤ (pos 65535) port)
]

unfoldable pub any_empty : List Bytes → Bool
any_empty [] = false
any_empty (f ∷ fs) = eqb f [] || any_empty fs

abbrev pub is_none {ℓ} : {A : Type ℓ} → Option A → Bool
is_none none = true
is_none (some _) = false

-- The tests of the six fields after the empty ones are refused
unfoldable pub check_fields : Bytes → Bytes → Bytes → Bytes → Bytes → Bytes → Option Addr
check_fields keyword network source destination source_port destination_port =
    if not (eqb keyword (codes "PROXY"))
    then none
    else if not (eqb network (codes "TCP4")) && not (eqb network (codes "TCP6"))
    then none
    else elim (parse_proxy_addr network source) [
      | none ↦ none
      | some src ↦
          if not (is_public_unicast_ip src)
          then none
          else if is_none (parse_proxy_addr network destination)
          then none
          else if not (parse_proxy_port source_port)
          then none
          else if not (parse_proxy_port destination_port)
          then none
          else some src
    ]

-- `len(fields) != 6` and the empty fields
unfoldable pub parse_proxy_fields : List Bytes → Option Addr
unfolding check_fields any_empty
parse_proxy_fields (f0 ∷ f1 ∷ f2 ∷ f3 ∷ f4 ∷ f5 ∷ []) =
    if any_empty (f0 ∷ f1 ∷ f2 ∷ f3 ∷ f4 ∷ f5 ∷ []) then none else check_fields f0 f1 f2 f3 f4 f5
parse_proxy_fields _ = none

unfoldable pub parse_proxy_line : Bytes → Option Addr
unfolding parse_proxy_fields
parse_proxy_line line =
    if not (has_suffix line (codes "\r\n"))
    then none
    else parse_proxy_fields (split (trim_suffix line (codes "\r\n")) b' ')

-- `isTrustedProxy`, over the configured addresses
unfoldable pub is_trusted_proxy : List Addr → Addr → Bool
is_trusted_proxy [] addr = false
is_trusted_proxy (ip ∷ ips) addr = if addr_eq ip addr then true else is_trusted_proxy ips addr
