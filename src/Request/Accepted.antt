-- ===== src/Request/Accepted.antt =====
-- What `parseRequest` guarantees of every request that it accepts.
use fingered.Base.{◌≡◌, refl, inl, inr, Bool, [], some, arith, Bytes, Bool-cases, eqb, codes}
use fingered.Text.{trim_suffix}
use fingered.Token.{Protocol, finger, fingers}
use fingered.Request.{
  Request, trim_line_ending, empty_request, parse_finger_request, parse_fingers_request,
  parse_request,
}
use fingered.Request.Sound.{IsRequest, no_flags, parse_structured_request-IsRequest}
use fingered.Request.Plain.{parse_plain_line-IsPlain, IsPlain-IsRequest}

empty_IsRequest : (req : Request) → some empty_request ≡ some req → IsRequest req
empty_IsRequest req h =
    let same : empty_request ≡ req = ground arith in
    rw (← same) (record { flags = no_flags; target = inl refl; canonical = tt })

parse_finger_request-IsRequest :
    (raw_line : Bytes) (extend : Bool) (req : Request)
    → parse_finger_request raw_line extend ≡ some req
    → IsRequest req
unfolding parse_finger_request
parse_finger_request-IsRequest raw_line extend req h =
    let line = trim_line_ending raw_line in
    elim (Bool-cases (eqb line [])) [
      | inl e ↦ empty_IsRequest req (ground arith)
      | inr e ↦ elim (Bool-cases extend) [
        | inl x ↦ parse_structured_request-IsRequest line finger req (ground arith)
        | inr x ↦ IsPlain-IsRequest line req (parse_plain_line-IsPlain line req (ground arith))
      ]
    ]

parse_fingers_request-IsRequest :
    (raw_line : Bytes) (req : Request) → parse_fingers_request raw_line ≡ some req → IsRequest req
unfolding parse_fingers_request
parse_fingers_request-IsRequest raw_line req h =
    let line = trim_suffix raw_line (codes "\r\n") in
    elim (Bool-cases (eqb line [])) [
      | inl e ↦ empty_IsRequest req (ground arith)
      | inr e ↦ parse_structured_request-IsRequest line fingers req (ground arith)
    ]

-- Whatever the bytes of the line and under either protocol, an accepted request has at most 16 flags,
-- each well formed and with distinct names, a target that is empty or one local file name, and a
-- canonical form of printable ASCII and spaces.
pub parse_request-IsRequest :
    (raw_line : Bytes) (p : Protocol) (extend : Bool) (req : Request)
    → parse_request raw_line p extend ≡ some req
    → IsRequest req
unfolding parse_request
parse_request-IsRequest raw_line finger extend req h =
    parse_finger_request-IsRequest raw_line extend req h
parse_request-IsRequest raw_line fingers extend req h =
    parse_fingers_request-IsRequest raw_line req h
