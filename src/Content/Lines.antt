-- ===== src/Content/Lines.antt =====
-- Every response consists of text bytes and CRLF line ends, and is not too long.
use fingered.Base.{
  ◌≡◌, ◌⊎◌, inl, inr, refl, Bool, true, false, List, [], ◌∷◌, if◌then◌else◌, Bytes, codes, length,
  arith, Bool-cases,
}
use fingered.Base.Int.{pos, ltb_ℤ, ◌≤ℤ◌}
use fingered.Request.{Request, no_content_body}
use fingered.Body.{join_segments}
use fingered.Body.Clean.{IsBody, done}
use fingered.Config.{Config}
use fingered.Content.Resolve.{Outcome, Event, World, ListenerMode, Found, missing, broken, present}
use fingered.Content.Response.{
  Content, utf8_required, cgi_content, main_content, resolve_main_content, found_template,
  resolve_template, resolve_templates, assemble, capped_response, response_of, build_valid_response,
  Template,
}
use fingered.Content.Clean.{
  join_segments-IsBody, IsClean, no_content_body-IsBody, credits_body-IsBody, load_static-IsClean,
  run_cgi-IsClean,
}

cgi_content-IsBody :
    (u : Bool) (name : Bytes) (f : Found) → IsClean u f → IsBody u (cgi_content name f).body
cgi_content-IsBody u name missing h = no_content_body-IsBody u
cgi_content-IsBody u name (broken e) h = no_content_body-IsBody u
cgi_content-IsBody u name (present body) h = h

main_content-IsBody :
    (u : Bool) (name : Bytes) (cgi_enable : Bool) (f : Found) (script : Content)
    → IsClean u f
    → IsBody u script.body
    → IsBody u (main_content name cgi_enable f script).body
main_content-IsBody u name true missing script h k = k
main_content-IsBody u name false missing script h k = no_content_body-IsBody u
main_content-IsBody u name cgi_enable (broken e) script h k = no_content_body-IsBody u
main_content-IsBody u name cgi_enable (present body) script h k = h

resolve_main_content-IsBody :
    (w : World) (c : Config) (req : Request) (mode : ListenerMode)
    → IsBody (utf8_required mode) (resolve_main_content w c req mode).body
unfolding resolve_main_content
resolve_main_content-IsBody w c req mode =
    main_content-IsBody (utf8_required mode) _ mode.cgi_enable _ _
      (load_static-IsClean w c mode.doc_root _ (utf8_required mode))
      (cgi_content-IsBody (utf8_required mode) _ _
        (run_cgi-IsClean w c mode.doc_root _ req (utf8_required mode)))

found_template-IsBody :
    (u : Bool) (name file_name : Bytes) (f : Found) (otherwise : Template)
    → IsClean u f
    → IsBody u otherwise.body
    → IsBody u (found_template name file_name f otherwise).body
found_template-IsBody u name file_name missing otherwise h k = k
found_template-IsBody u name file_name (broken e) otherwise h k = done
found_template-IsBody u name file_name (present body) otherwise h k = h

if_template-IsBody :
    (u b : Bool) (s t : Template)
    → IsBody u s.body
    → IsBody u t.body
    → IsBody u (if b then s else t).body
if_template-IsBody u true s t h k = h
if_template-IsBody u false s t h k = k

resolve_template-IsBody :
    (w : World) (c : Config) (name : Bytes) (req : Request) (mode : ListenerMode)
    → IsBody (utf8_required mode) (resolve_template w c name req mode).body
unfolding resolve_template
resolve_template-IsBody w c name req mode =
    let u = utf8_required mode in
    found_template-IsBody u name _ _ _ (load_static-IsClean w c mode.doc_root _ u) (
      if_template-IsBody u mode.cgi_enable _ _
        (found_template-IsBody u name _ _ _ (run_cgi-IsClean w c mode.doc_root _ req u) done) done)

abbrev AreBodies : Bool → Template × Template → Type 0
AreBodies u (s, t) = IsBody u s.body × IsBody u t.body

if_templates-IsBody :
    (u b : Bool) (p q : Template × Template)
    → AreBodies u p
    → AreBodies u q
    → AreBodies u (if b then p else q)
if_templates-IsBody u true p q h k = h
if_templates-IsBody u false p q h k = k

resolve_templates-IsBody :
    (w : World) (c : Config) (req : Request) (mode : ListenerMode)
    → IsBody (utf8_required mode) (resolve_templates w c req mode).0.body
      × IsBody (utf8_required mode) (resolve_templates w c req mode).1.body
unfolding resolve_templates
resolve_templates-IsBody w c req mode =
    if_templates-IsBody (utf8_required mode) c.tpl_enable _ _
      (
        resolve_template-IsBody w c (codes ".header") req mode,
        resolve_template-IsBody w c (codes ".footer") req mode,
      )
      (done, done)

assemble-IsBody :
    (u : Bool) (c : Config) (header body footer : Bytes)
    → IsBody u header
    → IsBody u body
    → IsBody u footer
    → IsBody u (assemble c header body footer)
unfolding assemble
assemble-IsBody u c header body footer h k l =
    let joined : IsBody u (join_segments (header ∷ body ∷ footer ∷ [])) =
      join_segments-IsBody (header ∷ body ∷ footer ∷ []) (h, (k, (l, tt))) in
    elim (Bool-cases c.credits_enable) [
      | inl e ↦ rw e (join_segments-IsBody _ (joined, (credits_body-IsBody u, tt)))
      | inr e ↦ rw e joined
    ]

capped_response-IsBody :
    (u : Bool) (c : Config) (assembled : Bytes) (outcome : Outcome) (events : List Event)
    → IsBody u assembled
    → IsBody u (capped_response c assembled outcome events).body
unfolding capped_response
capped_response-IsBody u c assembled outcome events h =
    elim (Bool-cases (ltb_ℤ c.max_response_bytes (pos (length assembled)))) [
      | inl e ↦ rw e (no_content_body-IsBody u)
      | inr e ↦ rw e h
    ]

capped_response_bounded :
    (c : Config) (assembled : Bytes) (outcome : Outcome) (events : List Event)
    → (pos (length (capped_response c assembled outcome events).body) ≤ℤ c.max_response_bytes)
      ⊎ ((capped_response c assembled outcome events).body ≡ no_content_body)
unfolding capped_response
capped_response_bounded c assembled outcome events =
    elim (Bool-cases (ltb_ℤ c.max_response_bytes (pos (length assembled)))) [
      | inl e ↦ rw e (inr refl)
      | inr e ↦ rw e (inl (ground arith))
    ]

-- Whatever the files hold and the scripts write, a response consists of text bytes and CRLF line ends,
-- with the templates and the credits in it.
pub build_valid_response-IsBody :
    (w : World) (c : Config) (req : Request) (mode : ListenerMode)
    → IsBody (utf8_required mode) (build_valid_response w c req mode).body
unfolding build_valid_response response_of
build_valid_response-IsBody w c req mode =
    let u = utf8_required mode in
    let (header, footer) = resolve_templates-IsBody w c req mode in
    capped_response-IsBody u c _ _ _
      (assemble-IsBody u c _ _ _ header (resolve_main_content-IsBody w c req mode) footer)

-- A response is within max_response_bytes, or it is the fixed body that says there is no content.
pub build_valid_response_bounded :
    (w : World) (c : Config) (req : Request) (mode : ListenerMode)
    → (pos (length (build_valid_response w c req mode).body) ≤ℤ c.max_response_bytes)
      ⊎ ((build_valid_response w c req mode).body ≡ no_content_body)
unfolding build_valid_response response_of
build_valid_response_bounded w c req mode = capped_response_bounded c _ _ _
