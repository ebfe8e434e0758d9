-- ===== src/Request/RoundTrip.antt =====
-- The canonical form of a request, sent as a line, is parsed to the same request.
use fingered.Base.{
  ◌≡◌, sym, ap, ◌∙◌, inl, inr, Bool, true, false, [], ◌++◌, some, arith, Bytes, Bool-cases, eqb,
  codes,
}
use fingered.Text.{trim_suffix}
use fingered.Token.{Protocol, finger, fingers}
use fingered.Request.{
  Request, parse_structured_request, empty_request, trim_line_ending, parse_finger_request,
  parse_fingers_request, parse_request, parse_plain_line,
}
use fingered.Request.Plain.{parse_plain_line-IsPlain}
use fingered.Request.Rebuilt.{
  IsRebuilt, structured-IsRebuilt, empty-IsRebuilt, trim_line_ending-crlf, extended_again,
  fingers_again, rebuilt_is,
}

plain_step :
    (s : Bytes)
    → eqb s [] ≡ false
    → parse_finger_request (s ++ codes "\r\n") false ≡ parse_plain_line s
unfolding parse_finger_request
plain_step s ne = rw (trim_line_ending-crlf s, ne)

plain_again :
    (line : Bytes) (req : Request)
    → eqb line [] ≡ false
    → parse_plain_line line ≡ some req
    → parse_finger_request (req.canonical ++ codes "\r\n") false
      ≡ some (record req { raw = req.canonical })
plain_again line req ne h =
    let plain = parse_plain_line-IsPlain line req h in
    let same : req ≡ record req { raw = req.canonical } = λ i. record {
      raw = (plain.raw ∙ sym plain.canonical) i;
      canonical = req.canonical;
      target = req.target;
      flags = req.flags;
    } in
    plain_step req.canonical (ap (λ (s : Bytes). eqb s []) plain.canonical ∙ ne)
    ∙ ap parse_plain_line plain.canonical
    ∙ h
    ∙ ap some same

empty_again :
    (extend : Bool) (req : Request)
    → some empty_request ≡ some req
    → parse_finger_request (req.canonical ++ codes "\r\n") extend
      ≡ some (record req { raw = req.canonical })
unfolding parse_finger_request eqb
empty_again extend req h =
    let same : empty_request ≡ req = ground arith in rw (← same) (rw (trim_line_ending-crlf []))

structured_again :
    (line : Bytes) (req : Request)
    → parse_structured_request line finger ≡ some req
    → parse_finger_request (req.canonical ++ codes "\r\n") true
      ≡ some (record req { raw = req.canonical })
structured_again line req h =
    let b = structured-IsRebuilt line finger req h in
    ap (λ (s : Bytes). parse_finger_request (s ++ codes "\r\n") true) b.canonical
    ∙ extended_again req.flags req.target b.flags b.target
    ∙ ap some (rebuilt_is req b)

finger_again :
    (raw_line : Bytes) (extend : Bool) (req : Request)
    → parse_finger_request raw_line extend ≡ some req
    → parse_finger_request (req.canonical ++ codes "\r\n") extend
      ≡ some (record req { raw = req.canonical })
finger_again raw_line extend req h = elim (Bool-cases (eqb (trim_line_ending raw_line) [])) [
  | inl e ↦ empty_again extend req (by_empty e)
  | inr e ↦ by_extend extend e h
]
  where
    by_empty : eqb (trim_line_ending raw_line) [] ≡ true → some empty_request ≡ some req
    by_empty e = unfold parse_finger_request in ground arith

    by_extend :
        (x : Bool)
        → eqb (trim_line_ending raw_line) [] ≡ false
        → parse_finger_request raw_line x ≡ some req
        → parse_finger_request (req.canonical ++ codes "\r\n") x
          ≡ some (record req { raw = req.canonical })
    by_extend true e g =
        structured_again (trim_line_ending raw_line) req
          (unfold parse_finger_request in ground arith)
    by_extend false e g =
        plain_again (trim_line_ending raw_line) req e (unfold parse_finger_request in ground arith)

fingers-IsRebuilt :
    (raw_line : Bytes) (req : Request) → parse_fingers_request raw_line ≡ some req → IsRebuilt req
unfolding parse_fingers_request
fingers-IsRebuilt raw_line req h =
    let line = trim_suffix raw_line (codes "\r\n") in
    elim (Bool-cases (eqb line [])) [
      | inl e ↦ empty-IsRebuilt req (ground arith)
      | inr e ↦ structured-IsRebuilt line fingers req (ground arith)
    ]

-- The canonical form of an accepted request, sent again as a line under the same protocol and
-- configuration, is accepted with the same target, flags and canonical form.
pub parse_request-canonical :
    (raw_line : Bytes) (p : Protocol) (extend : Bool) (req : Request)
    → parse_request raw_line p extend ≡ some req
    → parse_request (req.canonical ++ codes "\r\n") p extend
      ≡ some (record req { raw = req.canonical })
unfolding parse_request
parse_request-canonical raw_line finger extend req h = finger_again raw_line extend req h
parse_request-canonical raw_line fingers extend req h =
    let b = fingers-IsRebuilt raw_line req h in
    ap (λ (s : Bytes). parse_fingers_request (s ++ codes "\r\n")) b.canonical
    ∙ fingers_again req.flags req.target b.flags b.target
    ∙ ap some (rebuilt_is req b)
