-- ===== src/Tests/Profiles.antt =====
-- The profile log on concrete data.
use sm4ns.Base.{◌≡◌, refl, true, false, ◌++◌, [], ◌∷◌, returns, throws, some, log_not_open}
use sm4ns.Base.Integers.{pos, negsuc, ◌+ℤ◌, add_int}
use sm4ns.Profiler.{
  Profiles, ProfileBuilder, no_profiles, open_file, init_log_file, ref_count_update, new_builder,
  write_file, close_file, flush_log_file, is_zero, delete_builder, last_line, log_generic,
}
use sm4ns.Profiler.Lifetimes.{Run, started, made, logged, Logged, Run-Logged, delete_builder-late}

abbrev pub fresh_profiles : Profiles
fresh_profiles = record {
  log_file = record { opened = true; good = true; written = [] };
  ref_count = pos 0;
}

abbrev pub no_text : ProfileBuilder
no_text = record { curr_log = [] }

abbrev ended_loop : ProfileBuilder
ended_loop = log_generic "end" (pos 7) (pos 2) (negsuc 0) (some (5, 60)) no_text

file-started : init_log_file true no_profiles ≡ returns fresh_profiles
unfolding init_log_file open_file
file-started = refl

first-made :
    new_builder fresh_profiles ≡ returns (no_text, record fresh_profiles { ref_count = pos 1 })
unfolding new_builder ref_count_update add_int ◌+ℤ◌
first-made = refl

one_builder : Run (record fresh_profiles { ref_count = pos 1 }) (ended_loop ∷ []) []
one_builder =
    logged (record fresh_profiles { ref_count = pos 1 }) [] [] no_text [] "end" (pos 7) (pos 2)
      (negsuc 0) (some (5, 60))
      (made fresh_profiles (record fresh_profiles { ref_count = pos 1 }) [] [] no_text
        (started fresh_profiles file-started) first-made)

Run-Logged_example : Logged (record fresh_profiles { ref_count = pos 1 }) (ended_loop ∷ []) []
Run-Logged_example =
    Run-Logged (record fresh_profiles { ref_count = pos 1 }) (ended_loop ∷ []) [] one_builder

abbrev pub closed_profiles : Profiles
closed_profiles = record {
  log_file = record { opened = false; good = true; written = ended_loop.curr_log ++ last_line };
  ref_count = pos 0;
}

last-deleted :
    delete_builder ended_loop (record fresh_profiles { ref_count = pos 1 })
    ≡ returns closed_profiles
unfolding delete_builder flush_log_file write_file ref_count_update add_int ◌+ℤ◌ is_zero close_file
    log_generic
last-deleted = refl

second-made :
    new_builder closed_profiles ≡ returns (no_text, record closed_profiles { ref_count = pos 1 })
unfolding new_builder ref_count_update add_int ◌+ℤ◌
second-made = refl

delete_builder-late_example :
    delete_builder ended_loop (record closed_profiles { ref_count = pos 1 }) ≡ throws log_not_open
delete_builder-late_example =
    delete_builder-late (record fresh_profiles { ref_count = pos 1 }) closed_profiles
      (record closed_profiles { ref_count = pos 1 }) ended_loop no_text [] "end" (pos 7) (pos 2)
      (negsuc 0) (some (5, 60)) one_builder last-deleted second-made
