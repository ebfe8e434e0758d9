-- ===== src/Tests/Proxies.antt =====
-- PROXY headers and address classes.
use fingered.Base.{◌≡◌, ◌↔◌, refl, not, none, some, Bytes, codes, arith}
use fingered.Tests.{proxies}
use fingered.Addr.{v4}
use fingered.Proxy.{parse_proxy_line, is_public_unicast_ip}
use fingered.Proxy.Header.{Header, IsHeader}
use fingered.Proxy.Line.{parse_proxy_line_iff}
use fingered.Proxy.Public.{number, in_blocks, blocks, is_public_unicast_ip-v4}

abbrev header : Bytes
header = codes "PROXY TCP4 8.8.8.8 10.0.0.1 4000 79\r\n"

header_run :
    (parse_proxy_line header ≡ some (v4 8 8 8 8))
    × (parse_proxy_line (codes "PROXY TCP4 10.0.0.1 8.8.8.8 4000 79\r\n") ≡ none)
    × (parse_proxy_line (codes "PROXY TCP4  8.8.8.8 10.0.0.1 4000 79\r\n") ≡ none)
    × (parse_proxy_line (codes "PROXY TCP4 8.8.8.8 10.0.0.1 0 79\r\n") ≡ none)
unfolding proxies
header_run = (refl, refl, refl, refl)

parse_proxy_line_iff_example :
    (parse_proxy_line header ≡ some (v4 8 8 8 8)) ↔ ((h : Header) × IsHeader header (v4 8 8 8 8) h)
parse_proxy_line_iff_example = parse_proxy_line_iff header (v4 8 8 8 8)

is_public_unicast_ip-v4_example :
    is_public_unicast_ip (v4 198 51 100 7) ≡ not (in_blocks blocks (number 198 51 100 7))
is_public_unicast_ip-v4_example =
    is_public_unicast_ip-v4 198 51 100 7 (omega arith) (omega arith) (omega arith)
