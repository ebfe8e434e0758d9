-- ===== src/Tests/Requests.antt =====
-- Requests and lines: the cases of request_test.go, and theorems at concrete lines.
use fingered.Base.{
  ◌≡◌, ◌↔◌, refl, true, false, [], ◌∷◌, ◌++◌, none, some, Bytes, codes, arith, ◌-◌, ◌^◌,
}
use fingered.Base.Int.{pos}
use fingered.Text.{index_byte}
use fingered.Token.{finger, fingers, Flag, parse_flag, parse_target, flag_text}
use fingered.Token.Flags.{IsFlag, parse_flag_iff}
use fingered.Reader.{Reader, end_of_file, read_line, too_long}
use fingered.Token.Name.{IsName, parse_target_iff}
use fingered.Reader.Index.{by_position, read_line-by_position, read_line_overflow}
use fingered.Request.{Request, parse_request}
use fingered.Tests.{requests}
use fingered.Request.Sound.{IsRequest}
use fingered.Request.Accepted.{parse_request-IsRequest}
use fingered.Request.RoundTrip.{parse_request-canonical}

abbrev plan : Flag
plan = record { name = codes "PLAN"; value = []; bare = true }

abbrev mode : Flag
mode = record { name = codes "mode"; value = codes "full"; bare = false }

abbrev line : Bytes
line = codes "/PLAN  /mode=full /PLAN alice\r\n"

abbrev parsed : Request
parsed = record {
  raw = codes "/PLAN  /mode=full /PLAN alice";
  canonical = codes "/PLAN /mode=full alice";
  target = codes "alice";
  flags = plan ∷ mode ∷ [];
}

parse_line : parse_request line finger true ≡ some parsed
unfolding requests
parse_line = refl

refused :
    (parse_request (codes "foo.txt\r\n") finger false ≡ none)
    × (parse_request (codes "foo/bar\r\n") finger false ≡ none)
    × (parse_request (codes "alice smith\r\n") finger false ≡ none)
    × (parse_request (codes "/W  alice\r\n") finger false ≡ none)
    × (parse_request (codes "/PLAN / bad\r\n") finger true ≡ none)
    × (parse_request (codes "alice\n") fingers true ≡ none)
unfolding requests
refused = (refl, refl, refl, refl, refl, refl)

parse_request-canonical_example :
    parse_request (codes "/PLAN /mode=full alice" ++ codes "\r\n") finger true
    ≡ some (record parsed { raw = codes "/PLAN /mode=full alice" })
parse_request-canonical_example = parse_request-canonical line finger true parsed parse_line

parse_request-IsRequest_example : IsRequest parsed
parse_request-IsRequest_example = parse_request-IsRequest line finger true parsed parse_line

abbrev wire : Reader
wire = record { input = codes "bob\r\nrest"; ending = end_of_file }

read_line-by_position_example :
    read_line wire (pos 256)
    ≡ by_position 258 end_of_file [] (codes "bob\r\nrest") (index_byte (codes "bob\r\nrest") b'\n')
read_line-by_position_example = read_line-by_position wire 256 (omega arith)

parse_flag_iff_example :
    (parse_flag (codes "/mode=full") ≡ some mode)
    ↔ (IsFlag mode × (codes "/mode=full" ≡ flag_text mode))
parse_flag_iff_example = parse_flag_iff (codes "/mode=full") mode

target_runs :
    (parse_target (codes "alice.v2") fingers ≡ some (codes "alice.v2"))
    × (parse_target (codes "alice.TXT") finger ≡ none)
    × (parse_target (codes "al/ice") finger ≡ none)
unfolding requests
target_runs = (refl, refl, refl)

parse_target_iff_example :
    (parse_target (codes "alice.v2") fingers ≡ some (codes "alice.v2"))
    ↔ (IsName (codes "alice.v2") × (codes "alice.v2" ≡ codes "alice.v2"))
parse_target_iff_example = parse_target_iff fingers (codes "alice.v2") (codes "alice.v2")

read_line_overflow_example :
    read_line (record { input = codes "a\n"; ending = end_of_file }) (pos (2 ^ 63 - 1))
    ≡ too_long (codes "\n") end_of_file
read_line_overflow_example = read_line_overflow b'a' (codes "\n") end_of_file
