-- ===== src/Body.antt =====
-- internal/server/server.go: what is sent of a file or of a script's output, and how parts are joined.
pub mod Joined
pub mod Clean
pub mod Stable
pub mod Fixed
pub mod Printed
use fingered.Base.{
  ℕ, ◌≤◌, Bool, true, false, not, ◌&&◌, ◌||◌, List, [], ◌∷◌, ◌++◌, Option, none, some, ltb, ◌==◌,
  within, if◌then◌else◌, Bytes, codes, length, append_each, Result, ok, err,
}
use fingered.Text.{has_suffix, index_byte, replace_all}
use fingered.Utf8.{runes, valid, encode_rune}

unfoldable pub valid_output_rune : ℕ → Bool
valid_output_rune r =
    if r == b'\t'
    then true
    else if ltb r 0x20
    then false
    else if r == 0x7f || within 0x80 0x9f r
    then false
    else true

unfoldable pub valid_output_byte : ℕ → Bool
valid_output_byte b =
    if b == b'\t'
    then true
    else if ltb b 0x20
    then false
    else if b == 0x7f || within 0x80 0x9f b
    then false
    else true

-- What the loops append for one rune and for one byte
unfoldable pub render_rune : ℕ → Bytes
render_rune r =
    if r == b'\n' then codes "\r\n" else if valid_output_rune r then encode_rune r else codes "?"

unfoldable pub render_byte : ℕ → Bytes
render_byte b =
    if b == b'\n' then codes "\r\n" else if valid_output_byte b then b ∷ [] else codes "?"

unfoldable pub normalize_newlines : Bytes → Bytes
normalize_newlines raw =
    replace_all (replace_all raw (codes "\r\n") (codes "\n")) (codes "\r") (codes "\n")

abbrev pub has_byte : Bytes → ℕ → Bool
has_byte s b = elim (index_byte s b) [ none ↦ false | some _ ↦ true ]

unfoldable pub sanitize_body : Bytes → Bool → Result Bytes
unfolding render_rune render_byte normalize_newlines
sanitize_body raw utf8_required =
    let text = normalize_newlines raw in
    if has_byte raw 0
    then err (codes "content contains NUL")
    else if utf8_required
    then (if not (valid text)
        then err (codes "content is not valid utf-8")
        else ok (append_each render_rune (runes text)))
    else ok (append_each render_byte text)

-- `if len(out) > 0 && !bytes.HasSuffix(out, "\r\n") { out = append(out, '\r', '\n') }`
unfoldable pub end_line : Bytes → Bytes
end_line out =
    if ltb 0 (length out) && not (has_suffix out (codes "\r\n")) then out ++ codes "\r\n" else out

-- One round of the loop of `joinSegments`
unfoldable pub add_segment : Bytes → Bytes → Bytes
unfolding end_line
add_segment out [] = out
add_segment out (c ∷ part) = end_line out ++ (c ∷ part)

unfoldable pub join_segments_from : Bytes → List Bytes → Bytes
unfolding add_segment
join_segments_from out [] = end_line out
join_segments_from out (part ∷ parts) = join_segments_from (add_segment out part) parts

unfoldable pub join_segments : List Bytes → Bytes
unfolding join_segments_from
join_segments parts = join_segments_from [] parts
