-- ===== src/Profiler/Closing.antt =====
-- What the destructor of model/profile_builder.cc does to an open file and to a closed one.
use sm4ns.Base.{
  ℕ, zero, suc, ◌<◌, ◌^◌, ◌≡◌, refl, sym, ap, Bool, true, false, [], ◌∷◌, ◌++◌, append-nil, Bytes,
  returns,
}
use sm4ns.Base.Integers.{pos, add_int-down}
use sm4ns.Profiler.{
  LogFile, write_file, close_file, Profiles, ref_count_update, flush_log_file, last_line, is_zero,
  delete_builder,
}

-- What a stream is left with when `n` builders live on.
abbrev pub left_file : ℕ → Bytes → LogFile
left_file zero w = record { opened = false; good = true; written = w ++ last_line }
left_file (suc n) w = record { opened = true; good = true; written = w }

unfoldable pub open_profiles : ℕ → Bytes → Profiles
open_profiles n w = record {
  log_file = record { opened = true; good = true; written = w };
  ref_count = pos n;
}

unfoldable pub closed_profiles : ℕ → Bool → Bytes → Profiles
closed_profiles n g w = record {
  log_file = record { opened = false; good = g; written = w };
  ref_count = pos n;
}

flush-open :
    (text w : Bytes) (n : ℕ)
    → flush_log_file (record { curr_log = text }) (open_profiles n w)
      ≡ returns (record { curr_log = [] }, open_profiles n (w ++ text))
unfolding flush_log_file open_profiles write_file
flush-open [] w n =
    ap (λ v. returns (record { curr_log = [] }, open_profiles n v)) (sym (append-nil w))
flush-open (c ∷ text) w n = refl

pub delete_builder-open :
    (text w : Bytes) (n : ℕ)
    → suc n < 2 ^ 31
    → delete_builder (record { curr_log = text }) (open_profiles (suc n) w)
      ≡ returns (record { log_file = left_file n (w ++ text); ref_count = pos n })
unfolding delete_builder ref_count_update is_zero close_file write_file open_profiles
delete_builder-open text w zero h = rw (flush-open text w 1) (rw (add_int-down 0 h) refl)
delete_builder-open text w (suc n) h =
    rw (flush-open text w (suc (suc n))) (rw (add_int-down (suc n) h) refl)

-- A closed file takes nothing: only a builder with nothing to write can be deleted.
pub delete_builder-closed :
    (text w : Bytes) (g : Bool) (n : ℕ) (p' : Profiles)
    → suc n < 2 ^ 31
    → delete_builder (record { curr_log = text }) (closed_profiles (suc n) g w) ≡ returns p'
    → (text ≡ []) × ((g' : Bool) × (p' ≡ closed_profiles n g' w))
unfolding delete_builder flush_log_file ref_count_update is_zero close_file write_file
    closed_profiles
delete_builder-closed [] w g zero p' h e =
    let down = add_int-down 0 h in
    let done : delete_builder (record { curr_log = [] }) (closed_profiles 1 g w)
        ≡ returns (closed_profiles 0 false w) =
      rw down refl in
    (refl, (false, cc))
delete_builder-closed [] w g (suc n) p' h e =
    let down = add_int-down (suc n) h in
    let done : delete_builder (record { curr_log = [] }) (closed_profiles (suc (suc n)) g w)
        ≡ returns (closed_profiles (suc n) g w) =
      rw down refl in
    (refl, (g, cc))
delete_builder-closed (c ∷ text) w g n p' h e = absurd cc
