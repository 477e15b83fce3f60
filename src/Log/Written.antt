-- ===== src/Log/Written.antt =====
-- What a sequence of calls writes.
use gouda_http_server.Common.{
  ◌≡◌, refl, sym, ap, ◌∙◌, Bool, true, false, List, [], ◌∷◌, ◌++◌, append_assoc, append-nil, ltb,
  if◌then◌else◌, Bool-cases, inl, inr,
}
use gouda_http_server.Common.Bytes.{Bytes}
use gouda_http_server.Log.{
  Level, debug, level_index, Logger, create, set_min_level, log_message, log,
}

-- A call of the logger.
pub data Call : Type 0 where
  sets : Level → Call
  logs : Bytes → Bytes → Level → Bytes → Call

pub run : List Call → Logger → Logger
run [] logger = logger
run (sets level ∷ calls) logger = run calls (set_min_level level logger)
run (logs thread_id timestamp level message ∷ calls) logger =
    run calls (log thread_id timestamp level message logger)

-- The lines of the calls whose level is not below the one that was set last.
unfoldable pub written : Level → List Call → List Bytes
written minimum [] = []
written minimum (sets level ∷ calls) = written level calls
written minimum (logs thread_id timestamp level message ∷ calls) =
    let rest = written minimum calls in
    if ltb (level_index level) (level_index minimum)
    then rest
    else log_message thread_id timestamp level message ∷ rest

module _ (o : Bool) where
  -- A logger with the lines `xs` on the console, and in the file if it is open.
  abbrev logger_of : Level → List Bytes → Logger
  logger_of level xs = record {
    min_level = level;
    is_open = o;
    console = xs;
    log_file = if o then xs else [];
  }

  log-logger_of :
      (thread_id timestamp message : Bytes) (level minimum : Level) (xs : List Bytes)
      → ltb (level_index level) (level_index minimum) ≡ false
      → log thread_id timestamp level message (logger_of minimum xs)
        ≡ logger_of minimum (xs ++ log_message thread_id timestamp level message ∷ [])
  unfolding log
  log-logger_of thread_id timestamp message level minimum xs e = elim (Bool-cases o) [
    | inl p ↦ rw (e, p)
    | inr p ↦ rw (e, p)
  ]

  last_level : Level → List Call → Level
  last_level minimum [] = minimum
  last_level minimum (sets level ∷ calls) = last_level level calls
  last_level minimum (logs t s l m ∷ calls) = last_level minimum calls

  run-logger_of :
      (calls : List Call) (minimum : Level) (xs : List Bytes)
      → run calls (logger_of minimum xs)
        ≡ logger_of (last_level minimum calls) (xs ++ written minimum calls)
  unfolding set_min_level log run last_level written
  run-logger_of [] minimum xs = ap (logger_of minimum) (sym (append-nil xs))
  run-logger_of (sets level ∷ calls) minimum xs = run-logger_of calls level xs
  run-logger_of (logs t s level message ∷ calls) minimum xs =
      elim (Bool-cases (ltb (level_index level) (level_index minimum))) [
        | inl e ↦ rw e (run-logger_of calls minimum xs)
        | inr e ↦
            let line = log_message t s level message in
            ap (run calls) (log-logger_of t s message level minimum xs e)
            ∙ run-logger_of calls minimum (xs ++ line ∷ [])
            ∙ ap (logger_of (last_level minimum calls))
                (append_assoc xs (line ∷ []) (written minimum calls) ∙ rw e)
      ]

-- Whatever calls are made of a new logger, the console has, in order, the lines of those whose level
-- was not below the level in force, which is DEBUG until one is set; and so has server.log if it
-- could be opened, while nothing is written to it otherwise.
pub run-written :
    (is_open : Bool) (calls : List Call)
    → ((run calls (create is_open)).console ≡ written debug calls)
      × ((run calls (create is_open)).log_file ≡ (if is_open then written debug calls else []))
unfolding create
run-written is_open calls =
    let e = new is_open ∙ run-logger_of is_open calls debug [] in
    (ap (λ l. l.console) e, ap (λ l. l.log_file) e)
  where
    new : (o : Bool) → run calls (create o) ≡ run calls (logger_of o debug [])
    new true = refl
    new false = refl
