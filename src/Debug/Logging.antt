-- ===== src/Debug/Logging.antt =====
-- src/Debug.cc: the state of the logger, `isLogging` with its cache, and `log`.
use homa.Base.{ℕ, Bool, Option, none, some, leb, ◌==◌, if◌then◌else◌, maybe}
use homa.StringUtil.{Chars}
use homa.Debug.{
  LogLevel, level_number, log_level_to_string, LogPolicy, get_log_level, relative_file_name,
}

-- `DebugMessage`
pub record DebugMessage : Type 0 where
  pub filename : Chars
  pub linenum : ℕ
  pub function : Chars
  pub log_level : LogLevel
  pub log_level_string : Chars
  pub process_name : Chars
  pub thread_name : Chars
  pub message : Chars

-- `DebugMessage::operator=` from another message: it assigns the names of the process and of the thread
-- to themselves.
unfoldable pub assign_copy : (other to : DebugMessage) → DebugMessage
assign_copy other to = record other { process_name = to.process_name; thread_name = to.thread_name }

-- `DebugMessage::operator=` from a message that is given up.
unfoldable pub assign_moved : (other to : DebugMessage) → DebugMessage
assign_moved other to = other

-- The logger. A file and a handler are addresses. The cache goes by the address of a file name.
pub record Logger : Type 0 where
  pub log_policy : LogPolicy
  pub is_logging_cache : ℕ → Option LogLevel
  pub stream : ℕ
  pub log_handler : Option ℕ

-- `setLogFile`
unfoldable pub set_log_file : ℕ → Logger → ℕ × Logger
set_log_file new_file s = (s.stream, record s { stream = new_file })

-- `setLogHandler`
unfoldable pub set_log_handler : Option ℕ → Logger → Option ℕ × Logger
set_log_handler handler s = (s.log_handler, record s { log_handler = handler })

-- `setLogPolicy`
unfoldable pub set_log_policy : LogPolicy → Logger → Logger
set_log_policy new_policy s = record s { log_policy = new_policy; is_logging_cache = λ _. none }

-- `isLoggingCache[fileName] = verbosity`
abbrev pub remember : ℕ → LogLevel → Logger → Logger
remember file_name verbosity s = record s {
  is_logging_cache = λ p. if p == file_name then some verbosity else s.is_logging_cache p;
}

-- `isLogging`, `none` where it aborts. `prefix` is the part of `__FILE__` before "src/Debug.cc", and
-- `chars` the string literal at an address.
unfoldable pub is_logging :
    (prefix : Chars) (chars : ℕ → Chars) → LogLevel → ℕ → Logger → Option (Bool × Logger)
is_logging prefix chars level file_name s = elim (s.is_logging_cache file_name) [
  | some verbosity ↦ some (leb (level_number level) (level_number verbosity), s)
  | none ↦
      maybe none
        (λ verbosity.
          some (leb (level_number level) (level_number verbosity), remember file_name verbosity s))
        (get_log_level s.log_policy (relative_file_name prefix (chars file_name)))
]

-- What `log` does with a message: it calls the handler, or prints the time and the message to a file.
pub data Output : Type 0 where
  handled : (handler : ℕ) → DebugMessage → Output
  printed : (stream : ℕ) → DebugMessage → Output

-- `log`
unfoldable pub log :
    (prefix process_name thread_name : Chars)
    → LogLevel
    → (file_name : Chars) → ℕ
    → (function message : Chars) → Logger
    → Output
log prefix process_name thread_name level file_name line_num function message s =
    let d : DebugMessage = record {
      filename = relative_file_name prefix file_name;
      linenum = line_num;
      function = function;
      log_level = level;
      log_level_string = log_level_to_string level;
      process_name = process_name;
      thread_name = thread_name;
      message = message;
    } in
    maybe (printed s.stream d) (λ handler. handled handler d) s.log_handler
