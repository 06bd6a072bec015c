-- ===== src/Profiler.antt =====
-- ProfileBuilder (model/profile_builder.h and profile_builder.cc): a log file that all builders share,
-- their number, and the text that one builder has not written yet. Each access to what is shared holds
-- `profile_mutex`. The disk takes what is written to it; whether the file can be opened, and what
-- clock_gettime answers, are arguments.
pub mod Closing
pub mod Lifetimes
use sm4ns.Base.{
  ℕ, zero, suc, Bool, true, false, not, ◌&&◌, if◌then◌else◌, List, [], ◌∷◌, ◌++◌, Bytes, codes,
  is_empty, String, Option, none, some, Outcome, returns, throw_if, ◌>>=◌, ◌>>◌, log_not_opened,
  log_not_open,
}
use sm4ns.Base.Integers.{ℤ, pos, negsuc, is_negative, add_int, print_nat, print_int}

-- A std::ofstream: whether it has a file, whether good() holds, and what the file holds.
pub record LogFile : Type 0 where
  pub opened : Bool
  pub good : Bool
  pub written : Bytes

-- open(): truncates the file; a stream that has a file already fails.
unfoldable pub open_file : Bool → LogFile → LogFile
open_file can_open f =
    if can_open && not f.opened
    then record { opened = true; good = true; written = [] }
    else record f { good = false }

-- `<<`; without a file, or after a failure, it fails.
unfoldable pub write_file : Bytes → LogFile → LogFile
write_file text f =
    if f.opened && f.good
    then record f { written = f.written ++ text }
    else record f { good = false }

unfoldable pub close_file : LogFile → LogFile
close_file f = if f.opened then record f { opened = false } else record f { good = false }

-- The static members.
pub record Profiles : Type 0 where
  pub log_file : LogFile
  pub ref_count : ℤ

abbrev pub no_profiles : Profiles
no_profiles = record {
  log_file = record { opened = false; good = true; written = [] };
  ref_count = pos 0;
}

-- `currLog`, the text that is not written yet.
pub record ProfileBuilder : Type 0 where
  pub curr_log : Bytes

unfoldable pub init_log_file : Bool → Profiles → Outcome Profiles
init_log_file can_open p = do
  let f = open_file can_open p.log_file
  throw_if (not f.good) log_not_opened
  returns (record p { log_file = f })

unfoldable pub ref_count_update : ℤ → Profiles → Outcome (ℤ × Profiles)
ref_count_update amount p = do
  n ← add_int p.ref_count amount
  returns (n, record p { ref_count = n })

-- The constructor.
unfoldable pub new_builder : Profiles → Outcome (ProfileBuilder × Profiles)
new_builder p = do (n, p') ← ref_count_update (pos 1) p; returns (record { curr_log = [] }, p')

unfoldable pub flush_log_file : ProfileBuilder → Profiles → Outcome (ProfileBuilder × Profiles)
flush_log_file b p = if is_empty b.curr_log then returns (b, p) else do
  throw_if (not (p.log_file.opened && p.log_file.good)) log_not_open
  returns (record { curr_log = [] }, record p { log_file = write_file b.curr_log p.log_file })

abbrev pub last_line : Bytes
last_line = codes "ProfileBuilder RefCount reached zero.\n"

unfoldable pub is_zero : ℤ → Bool
is_zero (pos zero) = true
is_zero (pos (suc n)) = false
is_zero (negsuc n) = false

-- The destructor.
unfoldable pub delete_builder : ProfileBuilder → Profiles → Outcome Profiles
delete_builder b p = do
  (b', flushed) ← flush_log_file b p
  (num_left, p') ← ref_count_update (negsuc 0) flushed
  returns (
      if is_zero num_left
      then record p' { log_file = close_file (write_file last_line p'.log_file) }
      else p')

-- What clock_gettime gives: the seconds and the nanoseconds, or an error.
abbrev pub Clock : Type 0
Clock = Option (ℕ × ℕ)

unfoldable pub get_current_time : Clock → Bytes
get_current_time none = codes "<error>"
get_current_time (some (sec, nsec)) =
    codes "(sec,"
    ++ (print_nat sec ++ (codes ")," ++ (codes "(nano," ++ (print_nat nsec ++ codes ")"))))

-- `"name":"value",`
unfoldable pub log_member : String → Bytes → Bytes
log_member name value = codes "\"" ++ (codes name ++ (codes "\":\"" ++ (value ++ codes "\",")))

unfoldable pub log_generic : String → ℤ → ℤ → ℤ → Clock → ProfileBuilder → ProfileBuilder
unfolding log_member
log_generic item_name curr_frame num_agents num_communications now b =
    let mandatory =
      codes "{"
      ++ (log_member "action" (codes item_name) ++ log_member "real-time" (get_current_time now)) in
    let optional =
      if is_negative curr_frame
      then []
      else log_member "tick" (print_int curr_frame)
        ++ (log_member "num-agents" (print_int num_agents)
            ++ log_member "num-communications" (print_int num_communications)) in
    record { curr_log = b.curr_log ++ (mandatory ++ (optional ++ codes "}\n")) }

-- The default arguments are -1.
unfoldable pub log_si_mobility_begin : Clock → ProfileBuilder → ProfileBuilder
log_si_mobility_begin now b =
    log_generic "simmob-loop-begin-main-loop" (negsuc 0) (negsuc 0) (negsuc 0) now b

unfoldable pub log_si_mobility_end : Clock → ProfileBuilder → ProfileBuilder
log_si_mobility_end now b =
    log_generic "simmob-loop-end-main-loop" (negsuc 0) (negsuc 0) (negsuc 0) now b

unfoldable pub log_tick_begin : ℤ → ℤ → ℤ → Clock → ProfileBuilder → ProfileBuilder
log_tick_begin curr_frame num_agents num_communications now b =
    log_generic "simmob-tick-begin" curr_frame num_agents num_communications now b

unfoldable pub log_tick_end : ℤ → ℤ → ℤ → Clock → ProfileBuilder → ProfileBuilder
log_tick_end curr_frame num_agents num_communications now b =
    log_generic "simmob-tick-end" curr_frame num_agents num_communications now b
