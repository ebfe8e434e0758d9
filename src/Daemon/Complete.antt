-- ===== src/Daemon/Complete.antt =====
-- The logs behind a graceful stop are complete.
use fingered.Base.{
  ℕ, suc, ◌+◌, ◌≡◌, refl, sym, ap, ◌∙◌, List, [], ◌∷◌, ◌++◌, reverse, append-nil, none, some, Bytes,
  length, length-append, All, All-map, All-both, arith,
}
use mathlib.Core.Logic.{∥∥₁_elim}
use mathlib.Core.List.{Perm, Permᴰ, Sublist, reverse-reverse}
use mathlib.Core.List.Perm
use mathlib.Core.List.Permᴰ
use fingered.Base.Shuffle.{concat_by, perm_concat_by}
use fingered.Content.Resolve.{ListenerMode}
use fingered.Log.Session.{Entry, in_errors, in_access, Session}
use fingered.Log.Answered.{AreRecorded, accesses, accesses-append, entries-AreRecorded}
use fingered.Connection.{serve_conn}
use fingered.Connection.Answer.{answers}
use fingered.Goroutine.{Setup, Job, script, ended, Port, IsDone, AllDone}
use fingered.Daemon.{Daemon, Reach}
use fingered.Daemon.Stops.{sum_by}
use fingered.Daemon.Journal.{IsJob, IsPort, AreIn, IsIn, IsJournal, port_written, Reach-IsJournal}
use fingered.Daemon.Graceful.{IsSettled, Reach-AreSettled}

abbrev pub job_script : Setup → Job → List Entry
job_script u j = script u j.world j.session j.conn

-- How many answers a connection is sent, which is one or none
abbrev pub job_answers : Setup → Job → ℕ
job_answers u j = length (answers (serve_conn j.world u.config j.session.mode j.conn))

abbrev pub port_script : Setup → Port → List Entry
port_script u p = concat_by (job_script u) p.jobs

abbrev pub port_answers : Setup → Port → ℕ
port_answers u p = sum_by (job_answers u) p.jobs

-- The log, whose last entry is first, has the entries of all connections, those of each in order, and
-- a line of the access log for each answer.
pub record IsComplete (u : Setup) (ports : List Port) (log : List Entry) : Type 0 where
  pub items : Perm (concat_by (port_script u) ports) log
  pub ordered : All (λ p. All (λ j. Sublist (reverse (job_script u j)) log) p.jobs) ports
  pub counted :
      (path : Bytes)
      → u.logger.files.access_file ≡ some path
      → length (accesses log) ≡ sum_by (port_answers u) ports

accesses-cons :
    (x : Entry) (es : List Entry)
    → length (accesses (x ∷ es)) ≡ length (accesses (x ∷ [])) + length (accesses es)
accesses-cons (in_errors path line) es = omega arith
accesses-cons (in_access path line) es = omega arith

-- The order of the entries does not change how many lines they are.
length-accesses-Permᴰ :
    {es fs : List Entry} → Permᴰ es fs → length (accesses es) ≡ length (accesses fs)
length-accesses-Permᴰ Permᴰ.nil = refl
length-accesses-Permᴰ (Permᴰ.cons {b = b} {l₁ = es} {l₂ = fs} e p) =
    rw e (omega (arith, length-accesses-Permᴰ p, accesses-cons b es, accesses-cons b fs))
length-accesses-Permᴰ (Permᴰ.swap {a = x} {b = y} {l = es} e f) =
    rw (sym e, sym f)
      (omega (
        arith,
        accesses-cons x (y ∷ es),
        accesses-cons y es,
        accesses-cons y (x ∷ es),
        accesses-cons x es,
      ))
length-accesses-Permᴰ (Permᴰ.trans p q) = length-accesses-Permᴰ p ∙ length-accesses-Permᴰ q

length-accesses-Perm :
    {es fs : List Entry} → Perm es fs → length (accesses es) ≡ length (accesses fs)
length-accesses-Perm p = ∥∥₁_elim p (hlevel) length-accesses-Permᴰ

AreRecorded-length :
    (s : Session) (bodies lines : List Bytes)
    → AreRecorded s bodies lines
    → length lines ≡ length bodies
AreRecorded-length s [] lines e = rw e refl
AreRecorded-length s (body ∷ bodies) lines (k, client, request, outcome, rest, e, h) =
    rw e (ap suc (AreRecorded-length s bodies rest h))

length-accesses-concat_by {ℓ} :
    {A : Type ℓ} (f : A → List Entry) (g : A → ℕ) (xs : List A)
    → All (λ x. length (accesses (f x)) ≡ g x) xs
    → length (accesses (concat_by f xs)) ≡ sum_by g xs
length-accesses-concat_by f g [] h = refl
length-accesses-concat_by f g (x ∷ xs) (e, h) = rw (accesses-append (f x) (concat_by f xs)) (
    omega (
      arith,
      length-append (accesses (f x)) (accesses (concat_by f xs)),
      e,
      length-accesses-concat_by f g xs h,
    ))

module _ (u : Setup) where
  -- A connection that has written its script
  abbrev IsWritten : Job → Type 0
  IsWritten j = j.written ≡ reverse (job_script u j)

  abbrev AreWritten : Port → Type 0
  AreWritten p = All IsWritten p.jobs

  job-IsWritten : (m : ListenerMode) (j : Job) → IsJob u m j → IsDone j → IsWritten j
  job-IsWritten m j h d =
      sym (reverse-reverse j.written)
      ∙ ap reverse (
          sym (append-nil (reverse j.written))
          ∙ ap (◌++◌ (reverse j.written)) (sym d)
          ∙ sym h.entries)

  port-AreWritten : (p : Port) → IsPort u p → AllDone p → AreWritten p
  port-AreWritten p h d =
      All-both (IsJob u p.mode) IsDone IsWritten (job-IsWritten p.mode) p.jobs h d

  port_items : (p : Port) → AreWritten p → Perm (port_script u p) (port_written p)
  port_items p h =
      perm_concat_by (job_script u) (λ (j : Job). j.written) p.jobs
        (All-map IsWritten _ (λ j e. rw e (∣ Permᴰ.symm (Permᴰ.reverse (job_script u j)) ∣₁)) p.jobs
          h)

  port_ordered :
      (log : List Entry) (p : Port)
      → AreWritten p
      → AreIn log p
      → All (λ j. Sublist (reverse (job_script u j)) log) p.jobs
  port_ordered log p h g = All-both IsWritten (IsIn log) _ (λ j e i. rw e at i) p.jobs h g

  port_counted :
      (path : Bytes)
      → u.logger.files.access_file ≡ some path
      → (p : Port) → IsPort u p
      → length (accesses (port_script u p)) ≡ port_answers u p
  port_counted path e p h = length-accesses-concat_by (job_script u) (job_answers u) p.jobs (
      All-map (IsJob u p.mode) _
        (λ j k. AreRecorded-length j.session _ _ (
          entries-AreRecorded j.session path 0 (serve_conn j.world u.config j.session.mode j.conn)
            (rw k.session.logger e)))
        p.jobs h)

  IsComplete-journal :
      (ports : List Port) (log : List Entry)
      → IsJournal u ports log
      → All AllDone ports
      → IsComplete u ports log
  IsComplete-journal ports log h d =
      let written = All-both (IsPort u) AllDone AreWritten port-AreWritten ports h.jobs d in
      let items =
        Perm.trans
          (perm_concat_by (port_script u) port_written ports
            (All-map AreWritten _ port_items ports written))
          h.items in
      record {
        items = items;
        ordered = All-both AreWritten (AreIn log) _ (port_ordered log) ports written h.ordered;
        counted = λ path e.
            sym (length-accesses-Perm items)
            ∙ length-accesses-concat_by (port_script u) (port_answers u) ports
                (All-map (IsPort u) _ (port_counted path e) ports h.jobs);
      }

  -- When every listener has ended without an error, all connections that were accepted have been served
  -- to their end: the log holds the entries of each and no others, and those of each connection in its
  -- order. If the access log is on, it has as many lines as answers were sent.
  pub graceful_logs :
      (s : Daemon)
      → Reach u s
      → All (λ p. p.place ≡ ended none) s.ports
      → IsComplete u s.ports s.log
  graceful_logs s r e = IsComplete-journal s.ports s.log (Reach-IsJournal r) (
      All-both IsSettled (λ p. p.place ≡ ended none) AllDone (λ p h m. rw m at h) s.ports
        (Reach-AreSettled r) e)
