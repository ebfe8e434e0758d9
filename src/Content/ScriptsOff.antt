-- ===== src/Content/ScriptsOff.antt =====
-- Where scripts are off, no script has a part in the response.
use fingered.Base.{
  ◌≡◌, refl, ap, ◌∙◌, Bool, false, [], ◌∷◌, ◌++◌, if◌then◌else◌, Bytes, codes, Result,
}
use fingered.Request.{Request}
use fingered.Config.{Config}
use fingered.Content.Resolve.{
  World, ListenerMode, Found, missing, broken, present, Command, Ran, load_static, run_cgi,
  build_content_name, template_skipped,
}
use fingered.Content.Response.{
  Content, cgi_content, utf8_required, main_content, resolve_main_content, Template, template_of,
  found_template, resolve_template, resolve_templates, response_of, build_valid_response,
}

main_content_off :
    (name : Bytes) (cgi_enable : Bool) (f : Found) (s t : Content)
    → cgi_enable ≡ false
    → main_content name cgi_enable f s ≡ main_content name cgi_enable f t
main_content_off name cgi_enable missing s t h = rw h refl
main_content_off name cgi_enable (broken e) s t h = refl
main_content_off name cgi_enable (present body) s t h = refl

if_off : (b : Bool) (s t u : Template) → b ≡ false → (if b then s else u) ≡ (if b then t else u)
if_off b s t u h = rw h refl

if_pair :
    (b : Bool) (s s' t t' : Template) (u : Template × Template)
    → s ≡ s'
    → t ≡ t'
    → (if b then (s, t) else u) ≡ (if b then (s', t') else u)
if_pair b s s' t t' u h k = rw h (rw k refl)

module _ (w : World) (own_executable : Result Bytes) (run : Command → Ran) (c : Config)
    (req : Request) (mode : ListenerMode) (off : mode.cgi_enable ≡ false) where
  -- The same files, and other scripts
  abbrev other : World
  other = record w { own_executable = own_executable; run = run }

  abbrev script_content : World → Bytes → Content
  script_content v name = cgi_content name (run_cgi v c mode.doc_root name req (utf8_required mode))

  abbrev static_content : Bytes → Found
  static_content name = load_static w c.max_response_bytes mode.doc_root name (utf8_required mode)

  resolve_main_content_off :
      resolve_main_content other c req mode ≡ resolve_main_content w c req mode
  unfolding resolve_main_content load_static
  resolve_main_content_off =
      let static_name = build_content_name req.target (codes ".txt") in
      let cgi_name = build_content_name req.target (codes ".cgi") in
      main_content_off static_name mode.cgi_enable (static_content static_name)
        (script_content other cgi_name) (script_content w cgi_name) off

  abbrev script_template : World → Bytes → Template
  script_template v name =
      found_template name (name ++ codes ".cgi")
        (run_cgi v c mode.doc_root (name ++ codes ".cgi") req (utf8_required mode))
        (template_of [] (template_skipped name ∷ []))

  resolve_template_off :
      (name : Bytes) → resolve_template other c name req mode ≡ resolve_template w c name req mode
  unfolding resolve_template load_static
  resolve_template_off name =
      ap (found_template name (name ++ codes ".txt") (static_content (name ++ codes ".txt"))) (
        if_off mode.cgi_enable (script_template other name) (script_template w name)
          (template_of [] (template_skipped name ∷ [])) off)

  resolve_templates_off : resolve_templates other c req mode ≡ resolve_templates w c req mode
  unfolding resolve_templates
  resolve_templates_off =
      if_pair c.tpl_enable _ _ _ _ (template_of [] [], template_of [] [])
        (resolve_template_off (codes ".header")) (resolve_template_off (codes ".footer"))

  -- On a listener where scripts are off, the response, its outcome and what it logs are the same
  -- whatever the scripts would do.
  pub build_valid_response_off :
      build_valid_response other c req mode ≡ build_valid_response w c req mode
  unfolding build_valid_response
  build_valid_response_off =
      ap (λ m. response_of c m (resolve_templates other c req mode)) resolve_main_content_off
      ∙ ap (response_of c (resolve_main_content w c req mode)) resolve_templates_off
