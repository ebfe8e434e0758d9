-- ===== src/Probe.antt =====
-- debug/cgi_probe.go: the script that answers by the name it is called by. What the system says of the
-- process is a parameter, and its output is the list of its writes.
pub mod Echo
use fingered.Base.{
  replicate, ℕ, zero, suc, ◌+◌, ◌-◌, ◌*◌, ◌/◌, ◌%◌, ◌^◌, ◌==◌, Bool, true, false, List, [], ◌∷◌,
  ◌++◌, Option, none, some, if◌then◌else◌, Bytes, codes, eqb, ltb, map, Result, ok, err,
}
use fingered.Base.Int.{ℤ, pos}
use fingered.Text.{trim_suffix, join}
use fingered.Number.{itoa}
use fingered.FilePath.{base}
use fingered.Helper.{CapHeader, CapData, cap_header}
use fingered.Content.Files.{Stream}
use fingered.Content.Resolve.{Command, Ran, read_all_limited}

-- What a probe writes, and its exit status
pub record Output : Type 0 where
  pub stdout : List Bytes
  pub stderr : List Bytes
  pub status : ℕ

abbrev pub printed : List Bytes → Output
printed writes = record { stdout = writes; stderr = []; status = 0 }

abbrev pub text_or_error : Result Bytes → Bytes
text_or_error (err e) = codes "stdin-read-error"
text_or_error (ok data_read) = trim_suffix data_read (codes "\n")

-- `readRequest`
unfoldable pub read_request : Stream → Bytes
read_request stdin = text_or_error (read_all_limited (pos 1024) stdin)

unfoldable pub echo : Stream → List Bytes
unfolding read_request
echo stdin = (codes "cgi-echo:" ++ (read_request stdin ++ codes "\n")) ∷ []

abbrev pub control : List Bytes
control = (codes "cgi-control:" ++ 0x01 ∷ b'\t' ∷ 0x7f ∷ b'\n' ∷ []) ∷ []

abbrev pub nul : List Bytes
nul = (codes "ok" ++ 0 ∷ b'\n' ∷ []) ∷ []

unfoldable pub big : List Bytes
big = replicate 64 (replicate 8192 b'A' ++ codes "\n")

-- Behind a sleep of 2.5 seconds
abbrev pub slow : List Bytes
slow = codes "cgi-slow-complete\n" ∷ []

abbrev pub fail : Output
fail = record { stdout = []; stderr = codes "cgi probe stderr marker\n" ∷ []; status = 7 }

abbrev pub index_sentinel : List Bytes
index_sentinel = codes "cgi-index-should-not-win\n" ∷ []

-- What `inspect` asks the system: `is_open` is whether `Fstat` of a number succeeds, `capget` and `prctl`
-- are the raw calls, which give an error number as its text, and the last three
-- are the errors of opening the configuration, of binding the port and of `chroot`.
pub record System : Type 0 where
  pub process_id : ℤ
  pub uid : ℤ
  pub gid : ℤ
  pub groups : List ℤ
  pub env_count : ℤ
  pub cwd : Bytes
  pub is_open : ℕ → Bool
  pub capget : CapHeader → Result (CapData × CapData)
  pub prctl : ℕ → Result ℕ
  pub open_config : Option Bytes
  pub bind_low : Option Bytes
  pub chroot_again : Option Bytes

-- `openFDs` from a number on, for so many numbers
unfoldable pub open_fds : (ℕ → Bool) → ℕ → ℕ → List ℤ
open_fds is_open fd zero = []
open_fds is_open fd (suc n) =
    let rest = open_fds is_open (fd + 1) n in if is_open fd then pos fd ∷ rest else rest

unfoldable pub join_ints : List ℤ → Bytes
join_ints [] = codes "-"
join_ints (value ∷ values) = join (map itoa (value ∷ values)) (codes ",")

-- `tryOpen`, `tryBindLow` and `tryChroot`
abbrev pub attempt : Option Bytes → Bytes
attempt none = codes "ok"
attempt (some e) = e

-- Two 32-bit words with no bit in common are a sum.
abbrev pub joined_words : ℕ → ℕ → ℕ
joined_words low high = high * 2 ^ 32 + low

abbrev words_joined : Result (CapData × CapData) → Result (ℕ × ℕ × ℕ)
words_joined (err e) = err e
words_joined (ok (low, high)) = ok (
  joined_words low.effective high.effective,
  joined_words low.permitted high.permitted,
  joined_words low.inheritable high.inheritable,
)

abbrev pub capabilities : (CapHeader → Result (CapData × CapData)) → Result (ℕ × ℕ × ℕ)
capabilities capget = words_joined (capget cap_header)

abbrev pr_get_no_new_privs : ℕ
pr_get_no_new_privs = 0x27

abbrev pub get_no_new_privs : (ℕ → Result ℕ) → Result ℕ
get_no_new_privs prctl = prctl pr_get_no_new_privs

abbrev hex_digit : ℕ → ℕ
hex_digit d = if ltb d 10 then b'0' + d else b'a' + (d - 10)

-- `%x`; sixteen rounds are enough for 64 bits.
unfoldable pub hex_from : ℕ → ℕ → Bytes → Bytes
hex_from zero n digits = digits
hex_from (suc fuel) n digits =
    let rest = hex_from fuel (n / 16) (hex_digit (n % 16) ∷ digits) in
    if ltb n 16 then hex_digit n ∷ digits else rest

abbrev pub field : Bytes → Bytes → Bytes
field name value = name ++ (codes "=" ++ (value ++ codes "\n"))

abbrev pub hex_field : Bytes → ℕ → Bytes
hex_field name n = field name (codes "0x" ++ hex_from 16 n [])

unfoldable pub caps_fields : Result (ℕ × ℕ × ℕ) → List Bytes
unfolding hex_from
caps_fields (err e) = field (codes "cap_err") e ∷ []
caps_fields (ok (eff, prm, inh)) =
    hex_field (codes "caps_eff") eff
    ∷ hex_field (codes "caps_prm") prm
    ∷ hex_field (codes "caps_inh") inh
    ∷ []

abbrev pub privs_field : Result ℕ → Bytes
privs_field (err e) = field (codes "no_new_privs_err") e
privs_field (ok n) = field (codes "no_new_privs") (itoa (pos n))

unfoldable pub inspect : System → List Bytes
unfolding caps_fields open_fds join_ints
inspect s =
    (field (codes "uid") (itoa s.uid)
      ∷ field (codes "gid") (itoa s.gid)
      ∷ field (codes "groups") (join_ints s.groups)
      ∷ field (codes "env_count") (itoa s.env_count)
      ∷ field (codes "cwd") s.cwd
      ∷ field (codes "fds") (join_ints (open_fds s.is_open 3 14))
      ∷ [])
    ++ (caps_fields (capabilities s.capget)
        ++ (privs_field (get_no_new_privs s.prctl)
            ∷ field (codes "open_config") (attempt s.open_config)
            ∷ field (codes "bind_low") (attempt s.bind_low)
            ∷ field (codes "chroot_again") (attempt s.chroot_again)
            ∷ []))

-- The `switch` on the name
unfoldable pub probe_named : System → Bytes → Stream → Output
unfolding echo big inspect
probe_named s name stdin =
    if eqb name (codes "echo.cgi")
    then printed (echo stdin)
    else if eqb name (codes "control.cgi")
    then printed control
    else if eqb name (codes "nul.cgi")
    then printed nul
    else if eqb name (codes "big.cgi")
    then printed big
    else if eqb name (codes "slow.cgi")
    then printed slow
    else if eqb name (codes "fail.cgi")
    then fail
    else if eqb name (codes "index.cgi")
    then printed index_sentinel
    else if eqb name (codes "inspect.cgi")
    then printed (inspect s)
    else printed ((codes "unknown probe: " ++ (name ++ codes "\n")) ∷ [])

-- `main`, with the first argument
unfoldable pub probe : System → Bytes → Stream → Output
unfolding probe_named
probe s arg0 stdin = probe_named s (base arg0) stdin

-- The process of a probe that a command starts, if it ends in time: an exit status other than 0 is an
-- error of the process.
abbrev pub ran_of : ℤ → Output → Ran
ran_of process_id out = record {
  timed_out = false;
  stdout = out.stdout;
  stderr = out.stderr;
  pid = some process_id;
  error = if out.status == 0 then none else some (codes "exit status " ++ itoa (pos out.status));
}

abbrev pub probe_run : System → Command → Ran
probe_run s command =
    ran_of s.process_id (probe s command.argv0 (record { content = command.stdin; fault = none }))
