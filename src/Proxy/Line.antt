-- ===== src/Proxy/Line.antt =====
-- Which lines are accepted as a PROXY header, and what address they give.
use fingered.Base.{
  ◌≡◌, ◌↔◌, refl, ap, ◌∙◌, false, not, ◌&&◌, [], some, arith, Bytes, codes, eqb, eqb_iff, eqb_refl,
}
use fingered.Text.{join}
use fingered.Text.Laws.{trim_suffix-append, has_suffix-append}
use fingered.Text.Pieces.{split-join}
use fingered.Addr.{Addr, zone}
use fingered.Proxy.{parse_proxy_addr, check_fields, parse_proxy_line}
use fingered.Proxy.Header.{IsProxyAddr, Header, header_fields, IsHeader, parse_proxy_line_sound}

tcp_families : eqb (codes "TCP6") (codes "TCP4") ≡ false
unfolding eqb
tcp_families = refl

parse_proxy_addr_complete :
    (network text : Bytes) (ip : Addr)
    → IsProxyAddr network text ip
    → parse_proxy_addr network text ≡ some ip
unfolding parse_proxy_addr
parse_proxy_addr_complete network text ip h = ground (
  arith,
  h.parsed,
  h.family,
  eqb_iff (zone ip) [],
  h.no_zone,
  eqb_iff network (codes "TCP4"),
  eqb_iff network (codes "TCP6"),
  tcp_families,
)

network_known :
    (h : Header) (src : Addr)
    → IsProxyAddr h.network h.source src
    → (not (eqb h.network (codes "TCP4")) && not (eqb h.network (codes "TCP6"))) ≡ false
network_known h src a =
    ground (arith, a.family, eqb_iff h.network (codes "TCP4"), eqb_iff h.network (codes "TCP6"))

check_fields_complete :
    (line : Bytes) (src : Addr) (h : Header)
    → IsHeader line src h
    → check_fields (codes "PROXY") h.network h.source h.destination h.source_port h.destination_port
      ≡ some src
unfolding check_fields
check_fields_complete line src h k = ground (
  arith,
  eqb_refl (codes "PROXY"),
  network_known h src k.source,
  parse_proxy_addr_complete h.network h.source src k.source,
  parse_proxy_addr_complete h.network h.destination k.destination.0 k.destination.1,
  k.public,
  k.source_port,
  k.destination_port,
)

parse_proxy_line_complete :
    (line : Bytes) (src : Addr) (h : Header)
    → IsHeader line src h
    → parse_proxy_line line ≡ some src
parse_proxy_line_complete line src h k =
    ap parse_proxy_line k.spelled
    ∙ unfold parse_proxy_line in
      rw
        (
          has_suffix-append (join (header_fields h) (codes " ")) (codes "\r\n"),
          trim_suffix-append (join (header_fields h) (codes " ")) (codes "\r\n") (λ e. cc e),
          split-join (codes "PROXY") _ b' ' k.spaceless,
          k.not_empty,
        )
        (check_fields_complete line src h k)

-- A line is accepted as a PROXY header with the client address `src` exactly if it is the keyword
-- PROXY and five fields that are not empty, each behind one space, then CRLF; the first field is TCP4
-- or TCP6, the second and third are addresses of that family with no zone, the second is `src` and
-- public unicast, and the last two are ports.
pub parse_proxy_line_iff :
    (line : Bytes) (src : Addr)
    → (parse_proxy_line line ≡ some src) ↔ ((h : Header) × IsHeader line src h)
parse_proxy_line_iff line src =
    (parse_proxy_line_sound line src, λ k. parse_proxy_line_complete line src k.0 k.1)
