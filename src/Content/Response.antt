-- ===== src/Content/Response.antt =====
-- `resolveMainContent`, `resolveTemplate` and `buildValidResponse`: a static file goes before a
-- script, and the header and the footer go around the content.
use fingered.Base.{Bool, true, false, List, [], ◌∷◌, ◌++◌, if◌then◌else◌, Bytes, codes, length}
use fingered.Base.Int.{pos, ltb_ℤ}
use fingered.Token.{finger, fingers}
use fingered.Request.{Request, no_content_body, credits_body}
use fingered.Body.{join_segments}
use fingered.Config.{Config}
use fingered.Content.Resolve.{
  World, ListenerMode, Found, missing, broken, present, Outcome, hit, miss, cgi_hit, cgi_fail,
  Event, content_error, template_skipped, build_content_name, load_static, run_cgi,
}

-- A body, what the access log says of it, and what the error log got
pub record Content : Type 0 where
  pub body : Bytes
  pub outcome : Outcome
  pub events : List Event

abbrev pub content_of : Bytes → Outcome → List Event → Content
content_of body outcome events = record { body = body; outcome = outcome; events = events }

abbrev pub utf8_required : ListenerMode → Bool
utf8_required mode = elim mode.protocol [ finger ↦ false | fingers ↦ true ]

abbrev pub cgi_content : Bytes → Found → Content
cgi_content name missing = content_of no_content_body miss []
cgi_content name (broken e) = content_of no_content_body cgi_fail (content_error name e ∷ [])
cgi_content name (present body) = content_of body cgi_hit []

abbrev pub main_content : Bytes → Bool → Found → Content → Content
main_content name cgi_enable missing script =
    if cgi_enable then script else content_of no_content_body miss []
main_content name cgi_enable (broken e) script =
    content_of no_content_body miss (content_error name e ∷ [])
main_content name cgi_enable (present body) script = content_of body hit []

unfoldable pub resolve_main_content : World → Config → Request → ListenerMode → Content
resolve_main_content w c req mode =
    let static_name = build_content_name req.target (codes ".txt") in
    let cgi_name = build_content_name req.target (codes ".cgi") in
    main_content static_name mode.cgi_enable
      (load_static w c.max_response_bytes mode.doc_root static_name (utf8_required mode))
      (cgi_content cgi_name (run_cgi w c mode.doc_root cgi_name req (utf8_required mode)))

-- The text of a template, and what the error log got
pub record Template : Type 0 where
  pub body : Bytes
  pub events : List Event

abbrev pub template_of : Bytes → List Event → Template
template_of body events = record { body = body; events = events }

abbrev pub found_template : Bytes → Bytes → Found → Template → Template
found_template name file_name missing otherwise = otherwise
found_template name file_name (broken e) otherwise =
    template_of [] (content_error file_name e ∷ template_skipped name ∷ [])
found_template name file_name (present body) otherwise = template_of body []

unfoldable pub resolve_template : World → Config → Bytes → Request → ListenerMode → Template
resolve_template w c name req mode =
    let skipped = template_of [] (template_skipped name ∷ []) in
    let static_name = name ++ codes ".txt" in
    let cgi_name = name ++ codes ".cgi" in
    found_template name static_name
      (load_static w c.max_response_bytes mode.doc_root static_name (utf8_required mode))
      (if mode.cgi_enable
        then found_template name cgi_name
            (run_cgi w c mode.doc_root cgi_name req (utf8_required mode)) skipped
        else skipped)

unfoldable pub resolve_templates : World → Config → Request → ListenerMode → Template × Template
unfolding resolve_template
resolve_templates w c req mode =
    if c.tpl_enable
    then (
      resolve_template w c (codes ".header") req mode,
      resolve_template w c (codes ".footer") req mode,
    )
    else (template_of [] [], template_of [] [])

-- The parts around the content, with the credits if they are on
unfoldable pub assemble : Config → Bytes → Bytes → Bytes → Bytes
assemble c header body footer =
    let assembled = join_segments (header ∷ body ∷ footer ∷ []) in
    if c.credits_enable then join_segments (assembled ∷ credits_body ∷ []) else assembled

-- A response that is too long is replaced.
unfoldable pub capped_response : Config → Bytes → Outcome → List Event → Content
capped_response c assembled outcome events =
    if ltb_ℤ c.max_response_bytes (pos (length assembled))
    then content_of no_content_body miss events
    else content_of assembled outcome events

unfoldable pub response_of : Config → Content → Template × Template → Content
unfolding assemble capped_response
response_of c main (header, footer) =
    capped_response c (assemble c header.body main.body footer.body) main.outcome
      (main.events ++ (header.events ++ footer.events))

unfoldable pub build_valid_response : World → Config → Request → ListenerMode → Content
unfolding resolve_main_content resolve_templates response_of
build_valid_response w c req mode =
    response_of c (resolve_main_content w c req mode) (resolve_templates w c req mode)
