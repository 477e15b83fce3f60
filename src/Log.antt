-- ===== src/Log.antt =====
-- `Logger` of include/logger.hpp and src/logger.cpp. What goes to the console and to server.log is a
-- list of lines. A call runs under `m_mutex` and is one step; the thread id and the text of
-- `std::put_time` for the clock come with the call.
pub mod Written
mod Tests
use gouda_http_server.Common.{ℕ, Bool, List, [], ◌∷◌, ◌++◌, ltb, if◌then◌else◌}
use gouda_http_server.Common.Bytes.{Bytes, codes}

pub data Level : Type 0 where
  debug info warning error : Level

-- `static_cast<int>(level)`.
unfoldable pub level_index : Level → ℕ
level_index debug = 0
level_index info = 1
level_index warning = 2
level_index error = 3

unfoldable pub level_str : Level → Bytes
level_str debug = codes "DEBUG"
level_str info = codes "INFO"
level_str warning = codes "WARNING"
level_str error = codes "ERROR"

-- The members, and what was written.
pub record Logger : Type 0 where
  pub min_level : Level
  pub is_open : Bool
  pub console : List Bytes
  pub log_file : List Bytes

-- The constructor, with whether "server.log" can be opened.
unfoldable pub create : Bool → Logger
create is_open = record { min_level = debug; is_open = is_open; console = []; log_file = [] }

unfoldable pub set_min_level : Level → Logger → Logger
set_min_level level logger = record logger { min_level = level }

-- The text of `std::format`, without the end of the line.
unfoldable pub log_message : Bytes → Bytes → Level → Bytes → Bytes
log_message thread_id timestamp level message =
    codes "["
    ++ (thread_id
        ++ (codes "] ["
            ++ (timestamp ++ (codes "] [" ++ (level_str level ++ (codes "] " ++ message))))))

unfoldable pub log : Bytes → Bytes → Level → Bytes → Logger → Logger
log thread_id timestamp level message logger =
    if ltb (level_index level) (level_index logger.min_level)
    then logger
    else (let line = log_message thread_id timestamp level message in
        record logger {
          console = logger.console ++ line ∷ [];
          log_file = if logger.is_open then logger.log_file ++ line ∷ [] else logger.log_file;
        })
