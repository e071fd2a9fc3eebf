-- ===== src/Tournament/Run/Totals.antt =====
-- The sums of a tournament's report.
use worms_ng.Prelude.{
  Bool, Bool-cases, Dict, List, Option, String, [], ap, arith, count_if, false, if_elim,
  if◌then◌else◌, inl, inr, insert, lookup, lookup-insert, none, refl, some, str_eq, str_eq_iff,
  str_eq_self, string_eq, subst, sym, ℕ, ◌+◌, ◌∙◌, ◌∷◌, ◌≡◌,
}
use worms_ng.Engine.Snapshot.{insert_sorted, sort_by}
use worms_ng.Tournament.{MatchReport, Report, Tournament}
use worms_ng.Tournament.Run.{
  add_report, add_reports, add_wins, empty_report, is_finished, report_less, report_of,
}

module _ {ℓ} {A : Type ℓ} where
  -- The sum of a count over a list.
  abbrev pub total : (A → ℕ) → List A → ℕ
  total f [] = 0
  total f (x ∷ xs) = f x + total f xs

  total-insert_sorted :
      (f : A → ℕ) (less : A → A → Bool) (x : A) (xs : List A)
      → total f (insert_sorted less x xs) ≡ f x + total f xs
  unfolding insert_sorted
  total-insert_sorted f less x [] = refl
  total-insert_sorted f less x (y ∷ ys) =
      if_elim (λ (zs : List A). total f zs ≡ f x + (f y + total f ys)) (less x y) (λ e. refl)
        (λ e. omega (arith, total-insert_sorted f less x ys))

  pub total-sort_by :
      (f : A → ℕ) (less : A → A → Bool) (xs : List A) → total f (sort_by less xs) ≡ total f xs
  unfolding sort_by
  total-sort_by f less [] = refl
  total-sort_by f less (x ∷ xs) =
      total-insert_sorted f less x (sort_by less xs)
      ∙ ap (λ (n : ℕ). f x + n) (total-sort_by f less xs)

-- How often a name stands in a list.
abbrev pub occurrences : String → List String → ℕ
occurrences name names = count_if (str_eq name) names

abbrev pub as_finished : MatchReport → ℕ → ℕ
as_finished r n = if is_finished r then n else 0

abbrev pub wins_of : String → Dict String ℕ → ℕ
wins_of name wins = elim (lookup name wins) [ none ↦ 0 | some n ↦ n ]

-- The counts of a report, as they stand over a list of matches in any order.
pub record IsTally (t : Report) (rs : List MatchReport) : Type 0 where
  pub completed_sum : t.completed ≡ total (λ r. as_finished r 1) rs
  pub ties_sum : t.ties ≡ total (λ r. as_finished r (if r.tie then 1 else 0)) rs
  pub timeouts_sum : t.timeouts ≡ total (λ r. r.timeouts) rs
  pub errors_sum : t.errors ≡ total (λ r. r.errors) rs
  pub resigns_sum : t.resigns ≡ total (λ r. r.resigns) rs
  pub wins_sum :
      (name : String)
      → wins_of name t.wins ≡ total (λ r. as_finished r (occurrences name r.winners)) rs

abbrev read_wins : Option ℕ → ℕ
read_wins o = elim o [ none ↦ 0 | some n ↦ n ]

abbrev one_more : Option ℕ → ℕ
one_more o = elim o [ none ↦ 1 | some n ↦ n + 1 ]

one_more_lem : (o : Option ℕ) → one_more o ≡ read_wins o + 1
one_more_lem none = omega arith
one_more_lem (some n) = refl

-- A win counts for its own name only.
wins_of-insert :
    (name w : String) (wins : Dict String ℕ)
    → wins_of name (insert w (one_more (lookup w wins)) wins)
      ≡ wins_of name wins + (if str_eq name w then 1 else 0)
wins_of-insert name w wins =
    ap read_wins (lookup-insert name w (one_more (lookup w wins)) wins)
    ∙ elim (Bool-cases (str_eq w name)) [
      | inl e ↦
          let same : w ≡ name = (str_eq_iff w name).0 e in
          subst
            (λ (x : String).
              read_wins
                (if str_eq x name then some (one_more (lookup x wins)) else lookup name wins)
              ≡ wins_of name wins + (if str_eq name x then 1 else 0))
            (sym same) (rw (str_eq_self name) (one_more_lem (lookup name wins)))
      | inr e ↦
          let other : str_eq name w ≡ false =
            ground (arith, str_eq_iff name w, str_eq_iff w name) in
          rw (e, other) (omega arith)
    ]

wins_of-add_wins :
    (name : String) (ws : List String) (wins : Dict String ℕ)
    → wins_of name (add_wins ws wins) ≡ wins_of name wins + occurrences name ws
unfolding add_wins
wins_of-add_wins name [] wins = omega arith
wins_of-add_wins name (w ∷ ws) wins =
    wins_of-add_wins name ws (insert w (one_more (lookup w wins)) wins)
    ∙ (ap (λ (n : ℕ). n + occurrences name ws) (wins_of-insert name w wins) ∙ omega arith)

-- The sums of `t` and of the reports behind it.
record Adds (t : Report) (rs : List MatchReport) (t' : Report) : Type 0 where
  completed_adds : t'.completed ≡ t.completed + total (λ r. as_finished r 1) rs
  ties_adds : t'.ties ≡ t.ties + total (λ r. as_finished r (if r.tie then 1 else 0)) rs
  timeouts_adds : t'.timeouts ≡ t.timeouts + total (λ r. r.timeouts) rs
  errors_adds : t'.errors ≡ t.errors + total (λ r. r.errors) rs
  resigns_adds : t'.resigns ≡ t.resigns + total (λ r. r.resigns) rs
  wins_adds :
      (name : String)
      → wins_of name t'.wins
        ≡ wins_of name t.wins + total (λ r. as_finished r (occurrences name r.winners)) rs

add_report-Adds : (t : Report) (r : MatchReport) → Adds t (r ∷ []) (add_report t r)
unfolding add_report
add_report-Adds t r = record {
  completed_adds = ground arith;
  ties_adds = ground arith;
  timeouts_adds = ground arith;
  errors_adds = ground arith;
  resigns_adds = ground arith;
  wins_adds = λ name. ground (arith, wins_of-add_wins name r.winners t.wins);
}

add_reports-Adds : (t : Report) (rs : List MatchReport) → Adds t rs (add_reports t rs)
unfolding add_reports
add_reports-Adds t [] = record {
  completed_adds = omega arith;
  ties_adds = omega arith;
  timeouts_adds = omega arith;
  errors_adds = omega arith;
  resigns_adds = omega arith;
  wins_adds = λ name. omega arith;
}
add_reports-Adds t (r ∷ rs) =
    let h = add_report-Adds t r in
    let k = add_reports-Adds (add_report t r) rs in
    record {
      completed_adds = omega (arith, h.completed_adds, k.completed_adds);
      ties_adds = omega (arith, h.ties_adds, k.ties_adds);
      timeouts_adds = omega (arith, h.timeouts_adds, k.timeouts_adds);
      errors_adds = omega (arith, h.errors_adds, k.errors_adds);
      resigns_adds = omega (arith, h.resigns_adds, k.resigns_adds);
      wins_adds = λ name. omega (arith, h.wins_adds name, k.wins_adds name);
    }

-- For match reports in any order, the report of a tournament counts the finished matches and the
-- ties among them, sums the timeouts, errors and resignations of all, and gives each name as many
-- wins as it stands among the winners of finished matches.
pub report_of-IsTally :
    {S : Type 0} (t : Tournament S) (rs : List MatchReport) → IsTally (report_of t rs) rs
unfolding report_of
report_of-IsTally t rs =
    let sorted = sort_by report_less rs in
    let h = add_reports-Adds (record (empty_report t) { matches = sorted }) sorted in
    let same = λ (f : MatchReport → ℕ). total-sort_by f report_less rs in
    record {
      completed_sum = omega (arith, h.completed_adds, same (λ r. as_finished r 1));
      ties_sum = omega (arith, h.ties_adds, same (λ r. as_finished r (if r.tie then 1 else 0)));
      timeouts_sum = omega (arith, h.timeouts_adds, same (λ r. r.timeouts));
      errors_sum = omega (arith, h.errors_adds, same (λ r. r.errors));
      resigns_sum = omega (arith, h.resigns_adds, same (λ r. r.resigns));
      wins_sum = λ name.
          omega (arith, h.wins_adds name, same (λ r. as_finished r (occurrences name r.winners)));
    }
