-- ===== src/Tests/Bodies.antt =====
-- Bodies: sanitized and joined.
use fingered.Base.{◌≡◌, refl, true, false, [], ◌∷◌, ◌++◌, Bytes, codes, ok, err}
use fingered.Tests.{bodies}
use fingered.Utf8.{valid}
use fingered.Body.{sanitize_body, join_segments}
use fingered.Body.Clean.{IsBody, sanitize_body-IsBody}
use fingered.Body.Fixed.{sanitize_body-IsFixed}
use fingered.Body.Joined.{ended_parts, join_segments-ended_parts}

abbrev raw : Bytes
raw = 0xc3 ∷ 0xa9 ∷ 0x01 ∷ codes "a\rb\n\tc\r\n"

abbrev sent : Bytes
sent = 0xc3 ∷ 0xa9 ∷ codes "?a\r\nb\r\n\tc\r\n"

sanitize_raw : sanitize_body raw true ≡ ok sent
unfolding bodies
sanitize_raw = refl

sanitize_refusals :
    (sanitize_body (codes "ok" ++ 0 ∷ []) false ≡ err (codes "content contains NUL"))
    × (sanitize_body (0xc3 ∷ []) true ≡ err (codes "content is not valid utf-8"))
    × (sanitize_body (0x9f ∷ 0xc3 ∷ []) false ≡ ok (b'?' ∷ 0xc3 ∷ []))
unfolding bodies
sanitize_refusals = (refl, refl, refl)

sanitize_body-IsBody_example : IsBody true sent
sanitize_body-IsBody_example = sanitize_body-IsBody raw true sent sanitize_raw

sanitize_body-IsFixed_example : (sanitize_body sent true ≡ ok sent) × (valid sent ≡ true)
sanitize_body-IsFixed_example = sanitize_body-IsFixed raw true sent sanitize_raw

join_run : join_segments (codes "head" ∷ [] ∷ codes "body\r\n" ∷ []) ≡ codes "head\r\nbody\r\n"
unfolding bodies
join_run = refl

join_segments-ended_parts_example :
    join_segments (codes "head" ∷ [] ∷ codes "body\r\n" ∷ [])
    ≡ ended_parts (codes "head" ∷ [] ∷ codes "body\r\n" ∷ [])
join_segments-ended_parts_example =
    join_segments-ended_parts (codes "head" ∷ [] ∷ codes "body\r\n" ∷ [])
