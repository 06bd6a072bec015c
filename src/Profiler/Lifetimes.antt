-- ===== src/Profiler/Lifetimes.antt =====
-- What the log file holds while builders come and go (model/profile_builder.cc).
use sm4ns.Base.{
  ℕ, zero, suc, ◌<◌, ◌^◌, ◌≡◌, ◌⊎◌, inl, inr, refl, sym, ap, ◌∙◌, subst, true, false, List, [], ◌∷◌,
  ◌++◌, append-nil, Bytes, length, length-append, String, returns, throws, >>=-eq-returns, arith,
  log_not_open,
}
use sm4ns.Base.Integers.{ℤ, pos, add_int, add_int-returns}
use sm4ns.Profiler.{
  LogFile, Profiles, ProfileBuilder, Clock, no_profiles, open_file, init_log_file, ref_count_update,
  new_builder, flush_log_file, last_line, delete_builder, log_generic,
}
use sm4ns.Profiler.Closing.{
  delete_builder-open, delete_builder-closed, open_profiles, left_file, closed_profiles,
}

-- The builders' lives after the log file was opened: one is made, one logs something, one is deleted.
-- The index says what is shared, which builders live, and what the deleted ones had to write.
pub data Run : Profiles → List ProfileBuilder → Bytes → Type 0 where
  started : (p : Profiles) → init_log_file true no_profiles ≡ returns p → Run p [] []
  made :
      (p p' : Profiles) (live : List ProfileBuilder) (done : Bytes) (b : ProfileBuilder)
      → Run p live done
      → new_builder p ≡ returns (b, p')
      → Run p' (live ++ b ∷ []) done
  logged :
      (p : Profiles) (before after : List ProfileBuilder) (b : ProfileBuilder) (done : Bytes)
      (item_name : String) (frame agents communications : ℤ) (now : Clock)
      → Run p (before ++ b ∷ after) done
      → Run p (before ++ log_generic item_name frame agents communications now b ∷ after) done
  deleted :
      (p p' : Profiles) (before after : List ProfileBuilder) (b : ProfileBuilder) (done : Bytes)
      → Run p (before ++ b ∷ after) done
      → delete_builder b p ≡ returns p'
      → Run p' (before ++ after) (done ++ b.curr_log)

length-middle {ℓ} :
    {A : Type ℓ} (xs ys : List A) (x : A) → length (xs ++ x ∷ ys) ≡ suc (length (xs ++ ys))
length-middle [] ys x = refl
length-middle (z ∷ xs) ys x = ap suc (length-middle xs ys x)

length-replaced {ℓ} :
    {A : Type ℓ} (xs ys : List A) (x y : A) → length (xs ++ x ∷ ys) ≡ length (xs ++ y ∷ ys)
length-replaced xs ys x y = length-middle xs ys x ∙ sym (length-middle xs ys y)

-- The file is open and holds what the deleted builders logged, or it is closed and holds one line more.
abbrev pub FileLogged : LogFile → Bytes → Type 0
FileLogged f done =
    ((f.opened ≡ true) × ((f.good ≡ true) × (f.written ≡ done)))
    ⊎ ((f.opened ≡ false) × (f.written ≡ done ++ last_line))

pub record Logged (p : Profiles) (live : List ProfileBuilder) (done : Bytes) : Type 0 where
  pub counted : p.ref_count ≡ pos (length live)
  pub few : length live < 2 ^ 31
  pub file : FileLogged p.log_file done

init-Logged : (p : Profiles) → init_log_file true no_profiles ≡ returns p → Logged p [] []
unfolding init_log_file open_file
init-Logged p e =
    let fresh : Profiles = record {
      log_file = record { opened = true; good = true; written = [] };
      ref_count = pos 0;
    } in
    let same : fresh ≡ p = cc in
    subst (λ q. Logged q [] []) same
      (record { counted = refl; few = omega arith; file = inl (refl, (refl, refl)) })

made-Logged :
    (p p' : Profiles) (live : List ProfileBuilder) (done : Bytes) (b : ProfileBuilder)
    → Logged p live done
    → new_builder p ≡ returns (b, p')
    → Logged p' (live ++ b ∷ []) done
unfolding new_builder ref_count_update
made-Logged p p' live done b h e =
    let sum = ap (λ r. add_int r (pos 1)) h.counted in
    let ((m, q), updated, built) =
      >>=-eq-returns (ref_count_update (pos 1) p) (λ r. returns (record { curr_log = [] }, r.1))
        e in
    let (m', summed, updated') =
      >>=-eq-returns (add_int p.ref_count (pos 1)) (λ k. returns (k, record p { ref_count = k }))
        updated in
    let (few, up) = add_int-returns (length live) m' (sym sum ∙ summed) in
    let longer : length (live ++ b ∷ []) ≡ suc (length live) =
      length-append live (b ∷ []) ∙ omega arith in
    let same : record p { ref_count = pos (suc (length live)) } ≡ p' = cc in
    subst (λ r. Logged r (live ++ b ∷ []) done) same
      (record {
        counted = ap pos (sym longer);
        few = subst (λ k. k < 2 ^ 31) (sym longer) few;
        file = h.file;
      })

left_file-FileLogged : (n : ℕ) (w : Bytes) → FileLogged (left_file n w) w
left_file-FileLogged zero w = inr (refl, refl)
left_file-FileLogged (suc n) w = inl (refl, (refl, refl))

deleted-Logged :
    (p p' : Profiles) (before after : List ProfileBuilder) (b : ProfileBuilder) (done : Bytes)
    → Logged p (before ++ b ∷ after) done
    → delete_builder b p ≡ returns p'
    → Logged p' (before ++ after) (done ++ b.curr_log)
deleted-Logged p p' before after b done h e =
    let n = length (before ++ after) in
    let count : p.ref_count ≡ pos (suc n) = h.counted ∙ ap pos (length-middle before after b) in
    let few : suc n < 2 ^ 31 = subst (λ k. k < 2 ^ 31) (length-middle before after b) h.few in
    elim h.file [
      | inl (up, (good, written)) ↦
          let same : p ≡ open_profiles (suc n) done = unfold open_profiles in cc in
          let result : delete_builder b p
              ≡ returns
                  (record { log_file = left_file n (done ++ b.curr_log); ref_count = pos n }) =
            ap (delete_builder b) same ∙ delete_builder-open b.curr_log done n few in
          subst (λ r. Logged r (before ++ after) (done ++ b.curr_log)) (returned result)
            (record {
              counted = refl;
              few = omega arith;
              file = left_file-FileLogged n (done ++ b.curr_log);
            })
      | inr (down, written) ↦
          let same : p ≡ closed_profiles (suc n) p.log_file.good (done ++ last_line) =
            unfold closed_profiles in cc in
          let (nothing, (g, result)) =
            delete_builder-closed b.curr_log (done ++ last_line) p.log_file.good n p' few
              (sym (ap (delete_builder b) same) ∙ e) in
          subst (λ r. Logged r (before ++ after) (done ++ b.curr_log)) (sym result)
            (unfold closed_profiles in
              record {
                counted = refl;
                few = omega arith;
                file = inr (
                  refl,
                  ap (λ t. t ++ last_line) (sym (ap (λ t. done ++ t) nothing ∙ append-nil done)),
                );
              })
    ]
  where
    returned : {q : Profiles} → delete_builder b p ≡ returns q → q ≡ p'
    returned result = cc

-- However builders are made, log and are deleted after the log file was opened, as long as no call
-- throws: the reference count is the number of builders that live, and the file holds what the
-- deleted ones had logged, in the order in which they were deleted. If it is closed, one line that says
-- so stands behind that.
pub Run-Logged :
    (p : Profiles) (live : List ProfileBuilder) (done : Bytes)
    → Run p live done
    → Logged p live done
Run-Logged _ _ _ (started p e) = init-Logged p e
Run-Logged _ _ _ (made p p' live done b r e) =
    made-Logged p p' live done b (Run-Logged p live done r) e
Run-Logged _ _ _ (logged p before after b done item_name frame agents communications now r) =
    let h = Run-Logged p (before ++ b ∷ after) done r in
    let same =
      length-replaced before after b (log_generic item_name frame agents communications now b) in
    record {
      counted = h.counted ∙ ap pos same;
      few = subst (λ k. k < 2 ^ 31) same h.few;
      file = h.file;
    }
Run-Logged _ _ _ (deleted p p' before after b done r e) =
    deleted-Logged p p' before after b done (Run-Logged p (before ++ b ∷ after) done r) e

-- The file is closed with the last builder.
last-closed :
    (p p' : Profiles) (b : ProfileBuilder) (done : Bytes)
    → Logged p (b ∷ []) done
    → delete_builder b p ≡ returns p'
    → p'.log_file.opened ≡ false
last-closed p p' b done h e = elim h.file [
  | inl (up, (good, written)) ↦
      let same : p ≡ open_profiles 1 done = unfold open_profiles in let c = h.counted in cc in
      let result =
        ap (delete_builder b) same ∙ delete_builder-open b.curr_log done 0 (omega arith) in
      by_result result
  | inr (down, written) ↦
      let same : p ≡ closed_profiles 1 p.log_file.good (done ++ last_line) =
        unfold closed_profiles in let c = h.counted in cc in
      let (_, (g, result)) =
        delete_builder-closed b.curr_log (done ++ last_line) p.log_file.good 0 p' (omega arith)
          (sym (ap (delete_builder b) same) ∙ e) in
      ap (λ q. q.log_file.opened) result ∙ (unfold closed_profiles in refl)
]
  where
    by_result :
        delete_builder b p
          ≡ returns (record { log_file = left_file 0 (done ++ b.curr_log); ref_count = pos 0 })
        → p'.log_file.opened ≡ false
    by_result result =
        let q : Profiles = record {
          log_file = left_file 0 (done ++ b.curr_log);
          ref_count = pos 0;
        } in
        let same : q ≡ p' = cc in sym (ap (λ r. r.log_file.opened) same)

-- If the only builder that lives is deleted and another is made and logs something, that one's destructor
-- throws, because the log file is not open.
pub delete_builder-late :
    (p p1 p2 : Profiles) (b late : ProfileBuilder) (done : Bytes) (item_name : String)
    (frame agents communications : ℤ) (now : Clock)
    → Run p (b ∷ []) done
    → delete_builder b p ≡ returns p1
    → new_builder p1 ≡ returns (late, p2)
    → delete_builder (log_generic item_name frame agents communications now late) p2
      ≡ throws log_not_open
unfolding new_builder ref_count_update delete_builder flush_log_file log_generic
delete_builder-late p p1 p2 b late done item_name frame agents communications now r gone built =
    let closed = last-closed p p1 b done (Run-Logged p (b ∷ []) done r) gone in
    let ((m, q), updated, new) =
      >>=-eq-returns (ref_count_update (pos 1) p1) (λ r. returns (record { curr_log = [] }, r.1))
        built in
    let (m', summed, updated') =
      >>=-eq-returns (add_int p1.ref_count (pos 1)) (λ k. returns (k, record p1 { ref_count = k }))
        updated in
    let q' : record p1 { ref_count = m' } ≡ p2 = cc in
    let still : p2.log_file.opened ≡ false = sym (ap (λ s. s.log_file.opened) q') ∙ closed in
    let empty : late.curr_log ≡ [] =
      let l : record { curr_log = [] } ≡ late = cc in sym (ap (λ t. t.curr_log) l) in
    rw empty (rw still refl)
