-- ===== src/Tournament/HeldOut/Passes.antt =====
-- What an evaluation that has no error says of its cases.
use worms_ng.Prelude.{
  All, List, Option, [], any, arith, eq_ℤ, false, if_elim, length, length-append, none, option_elim,
  refl, some, str_eq, str_eq_iff, subst, suc, true, ℕ, ℤ, ◌+◌, ◌∙◌, ◌∷◌, ◌≡◌,
}
use worms_ng.Match.{Match}
use worms_ng.Match.Setup.{Setup, new_match, ready, stops}
use worms_ng.Tournament.{MatchReport}
use worms_ng.Tournament.HeldOut.{
  Evaluation, Examiner, HeldOutCase, HeldOutFault, case_config, verify_frozen,
}
use worms_ng.Tournament.HeldOut.Frozen.{
  IsFrozen, IsUnseen, training_of-IsUnseen, verify_frozen-IsFrozen,
}
use worms_ng.Tournament.HeldOut.Cases.{
  CaseEnd, add_result, case_broken, case_limit, case_over, case_report, case_turns, evaluate_case,
  evaluate_cases, evaluate_held_out, judge_case, play_case, training_of, unless_fault,
}

module _ {S : Type 0} (x : Examiner S) (all : List (HeldOutCase S)) where
  abbrev training : List ℤ
  training = training_of all

  -- The seed of the case is in no training, its versions are frozen, and its match has kept the
  -- hash of the rule tables.
  pub record IsHeld (c : HeldOutCase S) : Type 0 where
    pub unseen : IsUnseen all c.seed
    pub frozen : IsFrozen x c
    pub start : Match S
    pub end : Match S
    pub starts : new_match x.office.world x.office.archive (case_config x c) ≡ ready start
    pub index : ℕ
    pub last : MatchReport
    pub plays :
        case_turns x.office.world (case_limit c) start (case_report index c) ≡ case_over end last
    pub kept : x.rules_hash c.state ≡ x.rules_hash end.state

  -- What holds if there is no fault: the case is held, and one more is completed.
  abbrev Holds : HeldOutCase S → Evaluation → Evaluation × Option HeldOutFault → Type 0
  Holds c out (out', some fault) = Unit
  Holds c out (out', none) =
      IsHeld c
      × (out'.passed ≡ out.passed)
      × (out'.completed ≡ out.completed + 1)
      × (length out'.results ≡ length out.results + 1)

  judge_case-Holds :
      (i : ℕ) (c : HeldOutCase S) (out : Evaluation) (m : Match S) (e : CaseEnd S)
      → any (eq_ℤ c.seed) training ≡ false
      → verify_frozen x c (x.rules_hash c.state) ≡ none
      → new_match x.office.world x.office.archive (case_config x c) ≡ ready m
      → case_turns x.office.world (case_limit c) m (case_report i c) ≡ e
      → Holds c out (judge_case x c out e)
  unfolding judge_case add_result
  judge_case-Holds i c out m (case_broken fault) unseen frozen starts plays = tt
  judge_case-Holds i c out m (case_over m' r) unseen frozen starts plays =
      if_elim (Holds c out) (str_eq (x.rules_hash c.state) (x.rules_hash m'.state))
        (λ same. (
          record {
            unseen = training_of-IsUnseen all c.seed unseen;
            frozen = verify_frozen-IsFrozen x c frozen;
            start = m;
            end = m';
            starts = starts;
            index = i;
            last = r;
            plays = plays;
            kept = (str_eq_iff (x.rules_hash c.state) (x.rules_hash m'.state)).0 same;
          },
          refl,
          refl,
          length-append out.results (_ ∷ []),
        ))
        (λ other. tt)

  play_case-Holds :
      (i : ℕ) (c : HeldOutCase S) (out : Evaluation) (m : Setup (Match S))
      → any (eq_ℤ c.seed) training ≡ false
      → verify_frozen x c (x.rules_hash c.state) ≡ none
      → new_match x.office.world x.office.archive (case_config x c) ≡ m
      → Holds c out (play_case x i c out m)
  unfolding play_case
  play_case-Holds i c out (stops fault) unseen frozen starts = tt
  play_case-Holds i c out (ready m) unseen frozen starts =
      judge_case-Holds i c out m (case_turns x.office.world (case_limit c) m (case_report i c))
        unseen frozen starts refl

  evaluate_case-Holds :
      (i : ℕ) (c : HeldOutCase S) (out : Evaluation)
      → Holds c out (evaluate_case x training i c out)
  unfolding evaluate_case
  evaluate_case-Holds i c out =
      if_elim (Holds c out) (any (eq_ℤ c.seed) training) (λ seen. tt)
        (λ unseen.
          option_elim (Holds c out) (verify_frozen x c (x.rules_hash c.state))
            (λ frozen.
              play_case-Holds i c out (new_match x.office.world x.office.archive (case_config x c))
                unseen frozen refl)
            (λ fault e. tt))

  -- What holds of all the cases, if there is no fault.
  abbrev HoldsAll : List (HeldOutCase S) → Evaluation → Evaluation × Option HeldOutFault → Type 0
  HoldsAll cs out (out', some fault) = Unit
  HoldsAll cs out (out', none) =
      All IsHeld cs
      × (out'.passed ≡ out.passed)
      × (out'.completed ≡ out.completed + length cs)
      × (length out'.results ≡ length out.results + length cs)

  evaluate_cases-HoldsAll :
      (i : ℕ) (cs : List (HeldOutCase S)) (out : Evaluation)
      → HoldsAll cs out (evaluate_cases x training i cs out)
  unfolding evaluate_cases unless_fault
  evaluate_cases-HoldsAll i [] out = (tt, refl, omega arith, omega arith)
  evaluate_cases-HoldsAll i (c ∷ cs) out =
      then_all (evaluate_case x training i c out) (evaluate_case-Holds i c out)
        (evaluate_cases-HoldsAll (suc i) cs)
    where
      joined :
          (mid : Evaluation) (y : Evaluation × Option HeldOutFault)
          → Holds c out (mid, none)
          → HoldsAll cs mid y
          → HoldsAll (c ∷ cs) out y
      joined mid (out', some fault) h k = tt
      joined mid (out', none) h k =
          ((h.0, k.0), k.1 ∙ h.1, omega (arith, h.2, k.2), omega (arith, h.3, k.3))

      then_all :
          (y : Evaluation × Option HeldOutFault)
          → Holds c out y
          → ((mid : Evaluation) → HoldsAll cs mid (evaluate_cases x training (suc i) cs mid))
          → HoldsAll (c ∷ cs) out (unless_fault (evaluate_cases x training (suc i) cs) y)
      then_all (mid, some fault) h later = tt
      then_all (mid, none) h later =
          joined mid (evaluate_cases x training (suc i) cs mid) h (later mid)

-- When EvaluateHeldOut returns no error, the seed of every case differs from each training seed of
-- every case; a case names no version, or it has a store and one version for each worm, where the
-- worm and the brain of the version are frozen, the tables of both have the same 64 entries and
-- the hash of the lineage is absent or that of the case; the match played for it ends with the
-- hash of the rule tables that it began with; the evaluation has passed, and its completed cases
-- and its results are as many as the cases.
pub evaluate_held_out-IsHeld :
    {S : Type 0} (x : Examiner S) (cases : List (HeldOutCase S)) {out : Evaluation}
    → evaluate_held_out x cases ≡ (out, none)
    → All (IsHeld x cases) cases
      × (out.passed ≡ true)
      × (out.completed ≡ length cases)
      × (length out.results ≡ length cases)
unfolding evaluate_held_out
evaluate_held_out-IsHeld x cases {out} e =
    let start : Evaluation = record {
      cases = length cases;
      passed = true;
      rule_hashes = [];
      results = [];
      wins = [];
      ties = 0;
      completed = 0;
    } in
    let h =
      subst (HoldsAll x cases cases start) e (evaluate_cases-HoldsAll x cases 0 cases start) in
    (h.0, h.1, omega (arith, h.2), omega (arith, h.3))
