-- ===== src/Config/Load.antt =====
-- `Load` over the lines of the file, which a `bufio.Scanner` yields before it stops, maybe with an
-- error. The messages are values; the path and the text of a bad value are left out of them.
use fingered.Base.{
  ℕ, suc, ◌+◌, Bool, true, false, ◌&&◌, ◌||◌, List, [], ◌∷◌, Option, none, some, Bytes, codes, eqb,
  if◌then◌else◌, take, drop,
}
use fingered.Text.{index_byte, has_prefix}
use fingered.Text.Trim.{trim_space}
use fingered.Config.{Config, Key, bind_ip, port, doc_root, default_config, allowed, find_key}
use fingered.Config.Apply.{apply_value}
use fingered.Config.Validate.{Problem, validate}

-- The errors; `missing_key` names one of the required keys that the file lacks, any of them.
pub data LoadError : Type 0 where
  not_opened scan_failed : Bytes → LoadError
  invalid_line : ℕ → LoadError
  unknown_key bad_value : ℕ → Bytes → LoadError
  missing_key : LoadError
  invalid_config : Problem → LoadError

pub data Outcome {ℓ} (A : Type ℓ) : Type ℓ where
  loaded : A → Outcome A
  failed : LoadError → Outcome A

-- The variables of the loop: `cfg` and `required`
pub record Loading : Type 0 where
  pub config : Config
  pub seen_bind_ip : Bool
  pub seen_port : Bool
  pub seen_doc_root : Bool

abbrev pub start : Loading
start = record {
  config = default_config;
  seen_bind_ip = false;
  seen_port = false;
  seen_doc_root = false;
}

-- `key, value, ok := splitKV(line)`
unfoldable pub split_kv : Bytes → Option (Bytes × Bytes)
split_kv line = elim (index_byte line b'=') [
  | none ↦ none
  | some i ↦
      let key = trim_space (take i line) in
      let value = trim_space (drop (i + 1) line) in
      if eqb key [] || eqb value [] then none else some (key, value)
]

-- The keys of `required`
unfoldable pub is_bind_ip : Key → Bool
is_bind_ip bind_ip = true
is_bind_ip _ = false

unfoldable pub is_port_key : Key → Bool
is_port_key port = true
is_port_key _ = false

unfoldable pub is_doc_root : Key → Bool
is_doc_root doc_root = true
is_doc_root _ = false

-- `required[key] = true`, if the key is in the map
abbrev pub mark_required : Key → Loading → Loading
mark_required k s = record s {
  seen_bind_ip = is_bind_ip k || s.seen_bind_ip;
  seen_port = is_port_key k || s.seen_port;
  seen_doc_root = is_doc_root k || s.seen_doc_root;
}

-- `applyValue`, and its error
abbrev pub store : ℕ → Bytes → Loading → Option Config → Outcome Loading
store n key s none = failed (bad_value n key)
store n key s (some c) = loaded (record s { config = c })

abbrev pub load_known : ℕ → Bytes → Bytes → Loading → Option Key → Outcome Loading
load_known n key value s none = failed (unknown_key n key)
load_known n key value s (some k) = store n key (mark_required k s) (apply_value s.config k value)

abbrev pub load_setting : ℕ → Loading → Option (Bytes × Bytes) → Outcome Loading
load_setting n s none = failed (invalid_line n)
load_setting n s (some (key, value)) = load_known n key value s (find_key allowed key)

abbrev pub is_ignored : Bytes → Bool
is_ignored line = eqb line [] || has_prefix line (codes "#") || has_prefix line (codes ";")

-- One turn of the loop, at the line of number n
unfoldable pub load_line : ℕ → Bytes → Loading → Outcome Loading
load_line n text s =
    let line = trim_space text in
    if is_ignored line then loaded s else load_setting n s (split_kv line)

unfoldable pub load_lines : ℕ → List Bytes → Loading → Outcome Loading
load_lines n [] s = loaded s
load_lines n (text ∷ texts) s = elim (load_line n text s) [
  | failed e ↦ failed e
  | loaded next ↦ load_lines (suc n) texts next
]

-- `if err := cfg.Validate(); err != nil { return Config{}, err }; return cfg, nil`
abbrev pub checked : Config → Option Problem → Outcome Config
checked c none = loaded c
checked c (some p) = failed (invalid_config p)

-- What comes behind the loop
unfoldable pub finish_load : Option Bytes → Loading → Outcome Config
finish_load (some e) s = failed (scan_failed e)
finish_load none s =
    if s.seen_bind_ip && (s.seen_port && s.seen_doc_root)
    then checked s.config (validate s.config)
    else failed missing_key

-- The file as the program meets it: it is not opened, or it yields lines and then an error or none.
pub data File : Type 0 where
  unopened : Bytes → File
  opened : List Bytes → Option Bytes → File

unfoldable pub load : File → Outcome Config
unfolding load_lines finish_load
load (unopened e) = failed (not_opened e)
load (opened lines e) = elim (load_lines 1 lines start) [
  | failed why ↦ failed why
  | loaded s ↦ finish_load e s
]
