-- ===== src/Examinations/Figures.antt =====
-- The totals and the verdict of a message about marks (app/modules/examinations/service.py).
use sms_backend.Common.{
  ℕ, ◌+◌, ◌*◌, ◌≤◌, ◌≡◌, refl, subst, ap, ◌∙◌, Bool, true, false, not, ◌&&◌, ◌||◌, List, [], ◌∷◌,
  ◌++◌, length, All, Bool-cases, inl, inr, arith, length-append_last, suc,
}
use sms_backend.Common.Int.{ℤ, pos, negsuc, ◌≤ℤ◌, ltb_ℤ, eqb_ℤ, +ℤ_parts}
use sms_backend.Models.{Marks}
use sms_backend.Database.{Db}
use sms_backend.Security.Text.{Text}
use sms_backend.Examinations.Texts.{Platform}
use sms_backend.Examinations.Scores.{
  SubjectMap, info_of, Figures, no_figures, add_score, score_loop, subject_map, figures,
  FinalStatus, passed_all, passed, final_status, status_of,
}

-- what holds of the variables after `seen` marks of which none is above its subject's maximum
record IsBounded (seen : ℕ) (f : Figures) : Type 0 where
  low : pos 0 ≤ℤ f.total_obtained
  high : f.total_obtained ≤ℤ f.total_max
  failed : length f.failed_subs ≤ f.attempted_count
  counted : f.attempted_count + length f.absent_subs ≤ seen

module _ (p : Platform) (d : SubjectMap) where
  -- no mark is above the maximum of its subject
  abbrev pub AreWithin : Marks → Type 0
  AreWithin = All (λ e. e.1 ≤ℤ pos (4 * (info_of p d e.0).max))

  add_score-IsBounded :
      (key : Text) (score : ℤ) (seen : ℕ) (f : Figures)
      → score ≤ℤ pos (4 * (info_of p d key).max)
      → IsBounded seen f
      → IsBounded (suc seen) (add_score (info_of p d key) score f)
  unfolding add_score
  add_score-IsBounded key score seen f within b =
      let i = info_of p d key in
      elim (Bool-cases (ltb_ℤ score (pos 0))) [
        | inl below ↦ rw below (elim (Bool-cases (eqb_ℤ score (negsuc 3))) [
          | inl t ↦ rw t (record {
            low = b.low;
            high = b.high;
            failed = b.failed;
            counted = omega (arith, b.counted, length-append_last {0} f.absent_subs i.name);
          })
          | inr g ↦ rw g (record {
            low = b.low;
            high = b.high;
            failed = b.failed;
            counted = omega (arith, b.counted);
          })
        ])
        | inr above ↦ rw above (record {
          low = ground (arith, b.low, +ℤ_parts f.total_obtained score);
          high = ground (
            arith,
            b.high,
            within,
            +ℤ_parts f.total_obtained score,
            +ℤ_parts f.total_max (pos (4 * i.max)),
          );
          failed = ground (arith, b.failed, length-append_last f.failed_subs i.name);
          counted = omega (arith, b.counted);
        })
      ]

  score_loop-IsBounded :
      (marks : Marks) (seen : ℕ) (f : Figures)
      → AreWithin marks
      → IsBounded seen f
      → IsBounded (seen + length marks) (score_loop p d marks f)
  unfolding score_loop
  score_loop-IsBounded [] seen f w b =
      let same : seen ≡ seen + 0 = omega arith in subst (λ n. IsBounded n f) same b
  score_loop-IsBounded ((key, score) ∷ marks) seen f (w, ws) b =
      let same : suc seen + length marks ≡ seen + suc (length marks) = omega arith in
      subst (λ n. IsBounded n (score_loop p d ((key, score) ∷ marks) f)) same
        (score_loop-IsBounded marks (suc seen) (add_score (info_of p d key) score f) ws
          (add_score-IsBounded key score seen f w b))

-- If no mark of a student is above the maximum of its subject, then the total obtained is not below 0
-- and not above the total of the maxima, there are at most as many failed subjects as attempted ones,
-- and the attempted and the absent subjects are together at most as many as the marks.
pub figures_bounds :
    (p : Platform) (tenant_id exam_id : ℕ) (db : Db) (marks : Marks)
    → AreWithin p (subject_map p tenant_id exam_id db) marks
    → (pos 0 ≤ℤ (figures p tenant_id exam_id db marks).total_obtained)
      × ((figures p tenant_id exam_id db marks).total_obtained
          ≤ℤ (figures p tenant_id exam_id db marks).total_max)
      × (length (figures p tenant_id exam_id db marks).failed_subs
          ≤ (figures p tenant_id exam_id db marks).attempted_count)
      × ((figures p tenant_id exam_id db marks).attempted_count
            + length (figures p tenant_id exam_id db marks).absent_subs
          ≤ length marks)
unfolding figures
figures_bounds p tenant_id exam_id db marks w =
    let b =
      score_loop-IsBounded p (subject_map p tenant_id exam_id db) marks 0 no_figures w (record {
        low = omega arith;
        high = omega arith;
        failed = omega arith;
        counted = omega arith;
      }) in
    (b.low, b.high, b.failed, omega (arith, b.counted))

-- neither absent nor attempted below the pass mark
abbrev pub clears : Platform → SubjectMap → Text → ℤ → Bool
clears p d key score =
    not (eqb_ℤ score (negsuc 3))
    && (ltb_ℤ score (pos 0) || not (ltb_ℤ score (pos (4 * (info_of p d key).pass))))

abbrev pub clears_all : Platform → SubjectMap → Marks → Bool
clears_all p d [] = true
clears_all p d ((key, score) ∷ marks) = clears p d key score && clears_all p d marks

abbrev pub is_pass : FinalStatus → Bool
is_pass (passed_all n) = true
is_pass passed = true
is_pass _ = false

abbrev is_none : List Text → Bool
is_none [] = true
is_none (t ∷ ts) = false

is_none-append_last : (ts : List Text) (t : Text) → is_none (ts ++ t ∷ []) ≡ false
is_none-append_last [] t = refl
is_none-append_last (x ∷ ts) t = refl

abbrev is_clean : Figures → Bool
is_clean f = is_none f.absent_subs && is_none f.failed_subs

status_of-is_pass :
    (absent failed : List Text) (n : ℕ)
    → is_pass (status_of absent failed n) ≡ (is_none absent && is_none failed)
status_of-is_pass [] [] n = ground arith
status_of-is_pass [] (b ∷ failed) n = ground arith
status_of-is_pass (a ∷ absent) failed n = ground arith

module _ (p : Platform) (d : SubjectMap) where
  add_score-is_clean :
      (key : Text) (score : ℤ) (f : Figures)
      → is_clean (add_score (info_of p d key) score f) ≡ (is_clean f && clears p d key score)
  unfolding add_score
  add_score-is_clean key score f =
      let i = info_of p d key in
      ground
        (arith, is_none-append_last f.absent_subs i.name, is_none-append_last f.failed_subs i.name)

  score_loop-is_clean :
      (marks : Marks) (f : Figures)
      → is_clean (score_loop p d marks f) ≡ (is_clean f && clears_all p d marks)
  unfolding score_loop
  score_loop-is_clean [] f = ground arith
  score_loop-is_clean ((key, score) ∷ marks) f =
      let f' = add_score (info_of p d key) score f in
      score_loop-is_clean marks f'
      ∙ ap (λ b. b && clears_all p d marks) (add_score-is_clean key score f)
      ∙ and_assoc (is_clean f) (clears p d key score) (clears_all p d marks)
    where
      and_assoc : (a b c : Bool) → ((a && b) && c) ≡ (a && (b && c))
      and_assoc a b c = ground arith

-- The final status of a message says PASSED exactly if no mark is -1 (absent) and no mark of 0 or more
-- is below the pass mark of its subject.
pub final_status-is_pass :
    (p : Platform) (tenant_id exam_id : ℕ) (db : Db) (marks : Marks)
    → is_pass (final_status (figures p tenant_id exam_id db marks))
      ≡ clears_all p (subject_map p tenant_id exam_id db) marks
unfolding figures final_status
final_status-is_pass p tenant_id exam_id db marks =
    let d = subject_map p tenant_id exam_id db in
    let f = score_loop p d marks no_figures in
    status_of-is_pass f.absent_subs f.failed_subs f.attempted_count
    ∙ score_loop-is_clean p d marks no_figures
