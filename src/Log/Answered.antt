-- ===== src/Log/Answered.antt =====
-- The entries of a connection: each is one line, and each answer has one line in the access log.
use fingered.Base.{
  ℕ, ◌+◌, ◌≡◌, refl, ap, ◌∙◌, inl, inr, List, [], ◌∷◌, ◌++◌, Option, none, some, Bytes, All,
  All-append, Option-cases,
}
use fingered.Base.Int.{ℤ}
use fingered.Addr.{Addr}
use fingered.Config.{Config}
use fingered.Content.Resolve.{World, Outcome}
use fingered.Content.Response.{utf8_required}
use fingered.Connection.{Connection, Effect, summary_logged, event_logged, answered, serve_conn}
use fingered.Connection.Answer.{answers, IsAnswer, serve_conn-IsAnswer}
use fingered.Log.Clean.{IsVisible}
use fingered.Log.Line.{Texts, Origin, access_line}
use fingered.Log.Record.{AreTexts, IsLine, log-IsLine}
use fingered.Log.Open.{LogFiles}
use fingered.Log.Session.{
  Logger, Entry, in_errors, in_access, log_error, log_access, Session, origin_of, summary_text,
  event_text, outcome_text, log_write_error, write_and_log, entries_of, entries,
}

-- An entry of a log that is on, which is one line
abbrev pub IsEntry : LogFiles → Entry → Type 0
IsEntry files (in_errors path line) = (files.errors_file ≡ some path) × IsLine line
IsEntry files (in_access path line) = (files.access_file ≡ some path) × IsLine line

-- The lines of the access log
abbrev pub accesses : List Entry → List Bytes
accesses [] = []
accesses (in_errors path line ∷ es) = accesses es
accesses (in_access path line ∷ es) = line ∷ accesses es

-- One line for each body, with the number of its bytes that were written
abbrev pub AreRecorded : Session → List Bytes → List Bytes → Type 0
AreRecorded s [] lines = lines ≡ []
AreRecorded s (body ∷ bodies) lines =
    (k : ℕ) × (client : Addr) × (request : Bytes) × (outcome : Outcome) × (rest : List Bytes)
    × (lines
        ≡ access_line s.logger.header (s.clock k) (origin_of s client) request
            (outcome_text outcome) (s.write body).bytes_sent s.milliseconds
          ∷ rest)
    × AreRecorded s bodies rest

pub accesses-append : (es fs : List Entry) → accesses (es ++ fs) ≡ accesses es ++ accesses fs
accesses-append [] fs = refl
accesses-append (in_errors path line ∷ es) fs = accesses-append es fs
accesses-append (in_access path line ∷ es) fs = ap (◌∷◌ line) (accesses-append es fs)

accesses-log_error :
    (l : Logger) (t : Texts) (o : Origin) (summary : Bytes)
    → accesses (log_error l t o summary) ≡ []
unfolding log_error
accesses-log_error l t o summary = elim (Option-cases l.files.errors_file) [
  | inl e ↦ rw e refl
  | inr (path, e) ↦ rw e refl
]

accesses-log_write_error :
    (s : Session) (t : Texts) (client : Addr) (o : Option Bytes)
    → accesses (log_write_error s t client o) ≡ []
accesses-log_write_error s t client none = refl
accesses-log_write_error s t client (some e) = accesses-log_error s.logger t _ _

module _ (s : Session) (host : All IsVisible s.logger.header.host)
    (texts : (k : ℕ) → AreTexts (s.clock k)) where
  log_error-IsEntry :
      (k : ℕ) (o : Origin) (summary : Bytes)
      → All (IsEntry s.logger.files) (log_error s.logger (s.clock k) o summary)
  unfolding log_error
  log_error-IsEntry k o summary = elim (Option-cases s.logger.files.errors_file) [
    | inl e ↦ rw e tt
    | inr (path, e) ↦
        let line =
          (log-IsLine s.logger.header (s.clock k) host (texts k) o summary [] [] s.milliseconds
            s.milliseconds).0 in
        rw e ((refl, line), tt)
  ]

  log_access-IsEntry :
      (k : ℕ) (o : Origin) (request outcome : Bytes) (bytes_sent : ℤ)
      → All
          (IsEntry s.logger.files)
          (log_access s.logger (s.clock k) o request outcome bytes_sent s.milliseconds)
  unfolding log_access
  log_access-IsEntry k o request outcome bytes_sent =
      elim (Option-cases s.logger.files.access_file) [
        | inl e ↦ rw e tt
        | inr (path, e) ↦
            let line =
              (log-IsLine s.logger.header (s.clock k) host (texts k) o [] request outcome bytes_sent
                s.milliseconds).1 in
            rw e ((refl, line), tt)
      ]

  log_write_error-IsEntry :
      (k : ℕ) (client : Addr) (o : Option Bytes)
      → All (IsEntry s.logger.files) (log_write_error s (s.clock k) client o)
  log_write_error-IsEntry k client none = tt
  log_write_error-IsEntry k client (some e) = log_error-IsEntry k _ _

  entries_of-IsEntry : (k : ℕ) (x : Effect) → All (IsEntry s.logger.files) (entries_of s k x)
  unfolding write_and_log
  entries_of-IsEntry k (summary_logged summary) = log_error-IsEntry k _ _
  entries_of-IsEntry k (event_logged client event) = log_error-IsEntry k _ _
  entries_of-IsEntry k (answered client request outcome body) =
      All-append (IsEntry s.logger.files) _ _ (log_write_error-IsEntry k client _)
        (log_access-IsEntry (k + 1) _ request _ _)

  entries-IsEntry : (k : ℕ) (xs : List Effect) → All (IsEntry s.logger.files) (entries s k xs)
  unfolding entries
  entries-IsEntry k [] = tt
  entries-IsEntry k (x ∷ xs) =
      All-append (IsEntry s.logger.files) _ _ (entries_of-IsEntry k x) (entries-IsEntry (k + 2) xs)

accesses-log_access :
    (l : Logger) (t : Texts) (o : Origin) (request outcome path : Bytes)
    (bytes_sent milliseconds : ℤ)
    → l.files.access_file ≡ some path
    → accesses (log_access l t o request outcome bytes_sent milliseconds)
      ≡ access_line l.header t o request outcome bytes_sent milliseconds ∷ []
unfolding log_access
accesses-log_access l t o request outcome path bytes_sent milliseconds e = rw e refl

accesses-write_and_log :
    (s : Session) (t u : Texts) (client : Addr) (request outcome body path : Bytes)
    → s.logger.files.access_file ≡ some path
    → accesses (write_and_log s t u client request outcome body)
      ≡ access_line s.logger.header u
          (origin_of s client)
          request
          outcome
          (s.write body).bytes_sent
          s.milliseconds
        ∷ []
unfolding write_and_log
accesses-write_and_log s t u client request outcome body path e =
    accesses-append (log_write_error s t client (s.write body).error) _
    ∙ rw (accesses-log_write_error s t client (s.write body).error) (
        accesses-log_access s.logger u (origin_of s client) request outcome path
          (s.write body).bytes_sent s.milliseconds e)

pub entries-AreRecorded :
    (s : Session) (path : Bytes) (k : ℕ) (xs : List Effect)
    → s.logger.files.access_file ≡ some path
    → AreRecorded s (answers xs) (accesses (entries s k xs))
unfolding entries
entries-AreRecorded s path k [] e = refl
entries-AreRecorded s path k (summary_logged x ∷ xs) e =
    rw (accesses-append (entries_of s k (summary_logged x)) (entries s (k + 2) xs)) (
      rw (accesses-log_error s.logger (s.clock k) (origin_of s s.peer) (summary_text s x))
        (entries-AreRecorded s path (k + 2) xs e))
entries-AreRecorded s path k (event_logged client x ∷ xs) e =
    rw (accesses-append (entries_of s k (event_logged client x)) (entries s (k + 2) xs)) (
      rw (accesses-log_error s.logger (s.clock k) (origin_of s client) (event_text x))
        (entries-AreRecorded s path (k + 2) xs e))
entries-AreRecorded s path k (answered client request outcome body ∷ xs) e = (
  k + 1,
  client,
  request,
  outcome,
  accesses (entries s (k + 2) xs),
  accesses-append (entries_of s k (answered client request outcome body)) (entries s (k + 2) xs)
      ∙ ap (λ x. x ++ accesses (entries s (k + 2) xs))
          (accesses-write_and_log s (s.clock k) (s.clock (k + 1)) client request
            (outcome_text outcome) body path e),
  entries-AreRecorded s path (k + 2) xs e,
)

-- The answers of a connection, and its entries: each a line, and one in the access log for an answer
pub record IsLogged (s : Session) (bodies : List Bytes) (es : List Entry) : Type 0 where
  pub entries : All (IsEntry s.logger.files) es
  pub recorded :
      (path : Bytes) → s.logger.files.access_file ≡ some path → AreRecorded s bodies (accesses es)

-- Whatever a client sends and whatever the files and scripts hold, all that its connection leaves in
-- the logs are entries of the logs that are on, each of one line that holds no control byte before its
-- newline. If the access log is on, it gets one line for the answer that is sent, with the number of
-- bytes of that answer that were written, and none if nothing is sent. The hostname, the stamps and the
-- texts of addresses are taken to hold no control byte.
pub serve_conn-IsLogged :
    (w : World) (c : Config) (conn : Connection) (s : Session)
    → All IsVisible s.logger.header.host
    → ((k : ℕ) → AreTexts (s.clock k))
    → IsAnswer (utf8_required s.mode) (answers (serve_conn w c s.mode conn))
      × IsLogged s (answers (serve_conn w c s.mode conn)) (entries s 0 (serve_conn w c s.mode conn))
serve_conn-IsLogged w c conn s host texts = (
  serve_conn-IsAnswer w c s.mode conn,
  record {
    entries = entries-IsEntry s host texts 0 (serve_conn w c s.mode conn);
    recorded = λ path e. entries-AreRecorded s path 0 (serve_conn w c s.mode conn) e;
  },
)
