-- ===== src/Tests/Configs.antt =====
-- A configuration file, from its lines to the configuration.
use fingered.Content.Resolve.{listener_modes}
use fingered.Content.Listeners.{IsListener, listener_modes-IsListener}
use fingered.Base.{All, ◌≢◌, ◌≡◌, ◌↔◌, refl, true, List, [], ◌∷◌, none, some, Bytes, codes}
use fingered.Base.Int.{pos}
use fingered.Addr.{v4}
use fingered.Tests.{configs}
use fingered.Config.{Config, default_config}
use fingered.Config.Apply.{parse_millis}
use fingered.Config.Validate.{validate}
use fingered.Config.Valid.{IsValidConfig, validate_iff}
use fingered.Config.Load.{
  opened, loaded, failed, missing_key, unknown_key, bad_value, invalid_line, load,
}
use fingered.Config.Loaded.{IsLoaded, load_iff}

abbrev lines : List Bytes
lines =
    codes "# fingered.conf"
    ∷ codes ""
    ∷ codes "bind_ip = 10.0.0.7"
    ∷ codes "port=79"
    ∷ codes " doc_root = /var//finger/./www/ "
    ∷ codes "read_timeout_ms = 2500"
    ∷ codes "cgi_enable = Yes"
    ∷ []

abbrev settled : Config
settled = record default_config {
  bind_ip = v4 10 0 0 7;
  port = pos 79;
  doc_root = codes "/var/finger/www";
  read_timeout = pos 2500000000;
  cgi_enable = true;
}

load-lines_run : load (opened lines none) ≡ loaded settled
unfolding configs
load-lines_run = refl

load_refusals :
    (load (opened (codes "port=79" ∷ []) none) ≡ failed missing_key)
    × (load (opened (codes "port" ∷ []) none) ≡ failed (invalid_line 1))
    × (load (opened (codes ";" ∷ codes "x=1" ∷ []) none) ≡ failed (unknown_key 2 (codes "x")))
    × (load (opened (codes "port=0" ∷ []) none) ≡ failed (bad_value 1 (codes "port")))
unfolding configs
load_refusals = (refl, refl, refl, refl)

-- A number of milliseconds whose product is past 64 bits comes out as a short time.
parse_millis_wraps : parse_millis (codes "18446744073710") ≡ some (pos 448384)
unfolding configs
parse_millis_wraps = refl

load_iff_example :
    (load (opened lines none) ≡ loaded settled)
    ↔ ((read : List Bytes) × (opened lines none ≡ opened read none) × IsLoaded read settled)
load_iff_example = load_iff (opened lines none) settled

validate_iff_example : (validate settled ≡ none) ↔ IsValidConfig settled
validate_iff_example = validate_iff settled

validate_run : validate settled ≡ none
unfolding configs
validate_run = refl

listener_modes-IsListener_example :
    All IsListener (listener_modes settled) × (listener_modes settled ≢ [])
listener_modes-IsListener_example =
    listener_modes-IsListener settled ((validate_iff settled).0 validate_run)
