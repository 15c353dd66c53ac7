-- ===== src/Decision/Modes.antt =====
-- internal/core/decision/engine.go: the three modes are ordered by what they allow.
use open_delo.Prelude.{◌≡◌, none, arith}
use open_delo.Prelude.Text.{Letters}
use open_delo.Decision.Verdicts.{auto_allow}
use open_delo.Decision.FailClosed.{
  Mode, cautious, balanced, automatic, Input, self_checks, self_detected,
}
use open_delo.Decision.Engine.{
  mode_rules, matched_grant, matched_lease, asks_always, rule_low_risk, rule_learned_medium,
  blocked, decide,
}
use open_delo.Decision.AutoAllow.{Allowed, Basis, decide_auto_allow_iff}

-- From strict to loose.
pub data LooserThan : Mode → Mode → Type 0 where
  balanced_cautious : LooserThan balanced cautious
  automatic_balanced : LooserThan automatic balanced
  automatic_cautious : LooserThan automatic cautious

abbrev pub in_mode : Input → Mode → Input
in_mode i m = record i { mode = m }

blocked-looser :
    {m n : Mode} (i : Input)
    → LooserThan n m
    → blocked (in_mode i m) ≡ none
    → blocked (in_mode i n) ≡ none
unfolding blocked mode_rules self_detected self_checks
blocked-looser i balanced_cautious h = h
blocked-looser i automatic_balanced h = h
blocked-looser i automatic_cautious h = h

Basis-looser : {m n : Mode} (i : Input) → LooserThan n m → Basis (in_mode i m) → Basis (in_mode i n)
unfolding rule_low_risk rule_learned_medium mode_rules matched_grant matched_lease
Basis-looser i balanced_cautious b = ground arith
Basis-looser i automatic_balanced b = ground arith
Basis-looser i automatic_cautious b = ground arith

Allowed-looser :
    (letters : Letters) {m n : Mode} (i : Input)
    → LooserThan n m
    → Allowed letters (in_mode i m)
    → Allowed letters (in_mode i n)
unfolding matched_grant asks_always
Allowed-looser letters i l a = record {
  unblocked = blocked-looser i l a.unblocked;
  permitted = a.permitted;
  not_high = a.not_high;
  within_learned = a.within_learned;
  unambiguous = a.unambiguous;
  reviewed = a.reviewed;
  definite = a.definite;
  not_unverified_write = a.not_unverified_write;
  not_asking = a.not_asking;
  basis = Basis-looser i l a.basis;
}

-- What a mode allows without asking, every looser mode allows too.
pub decide-looser :
    (letters : Letters) {m n : Mode} (i : Input)
    → LooserThan n m
    → (decide letters (record i { mode = m })).verdict ≡ auto_allow
    → (decide letters (record i { mode = n })).verdict ≡ auto_allow
decide-looser letters {m} {n} i l h =
    (decide_auto_allow_iff letters (in_mode i n)).1
      (Allowed-looser letters i l ((decide_auto_allow_iff letters (in_mode i m)).0 h))
