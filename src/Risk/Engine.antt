-- ===== src/Risk/Engine.antt =====
-- internal/core/risk/engine.go: the rule table and its evaluation.
use open_delo.Prelude.{Bool, ◌&&◌, not, List, [], ◌∷◌, ◌++◌, ltb, if◌then◌else◌}
use open_delo.Prelude.Int.{is_num}
use open_delo.Platform.AppError.{Result, ok, ◌>>◌}
use open_delo.Risk.Level.{Level, low, medium, high, rank, level_of, is_unverified, is_untrusted}
use open_delo.Risk.Factors.{Factors, validate}

pub data Factor : Type 0 where
  declared_label read_only destructive irreversible permission_change secret_access : Factor
  billing bulk_change production_write beyond_history first_seen agent_unverified : Factor
  untrusted_device external_communication : Factor

pub record Assessment : Type 0 where
  pub level : Level
  pub factors : List Factor

-- One line of the table: when it fires, and how far it raises a baseline.
pub record Rule : Type 0 where
  pub factor : Factor
  pub triggered : Factors → Bool
  pub raise : Level → Level

unfoldable pub to_high : Level → Level
to_high _ = high

unfoldable pub at_least_medium : Level → Level
unfolding rank
at_least_medium baseline = if ltb (rank medium) (rank baseline) then baseline else medium

unfoldable pub one_level_up : Level → Level
one_level_up low = medium
one_level_up _ = high

unfoldable pub rules : List Rule
unfolding to_high at_least_medium one_level_up is_unverified is_untrusted
rules =
    record { factor = destructive; triggered = λ f. f.destructive; raise = to_high }
    ∷ record {
      factor = irreversible;
      triggered = λ f. f.write && not f.reversible;
      raise = to_high;
    }
    ∷ record { factor = permission_change; triggered = λ f. f.permission_change; raise = to_high }
    ∷ record { factor = secret_access; triggered = λ f. f.secret_access; raise = to_high }
    ∷ record { factor = billing; triggered = λ f. f.billing; raise = to_high }
    ∷ record {
      factor = bulk_change;
      triggered = λ f. f.write && not (is_num 1 f.resource_count);
      raise = to_high;
    }
    ∷ record {
      factor = production_write;
      triggered = λ f. f.write && f.production;
      raise = at_least_medium;
    }
    ∷ record {
      factor = beyond_history;
      triggered = λ f. f.write && f.beyond_history;
      raise = one_level_up;
    }
    ∷ record {
      factor = first_seen;
      triggered = λ f. f.write && f.first_seen;
      raise = at_least_medium;
    }
    ∷ record {
      factor = agent_unverified;
      triggered = λ f. f.write && is_unverified f.agent_trust;
      raise = at_least_medium;
    }
    ∷ record {
      factor = untrusted_device;
      triggered = λ f. f.write && is_untrusted f.device_trust;
      raise = at_least_medium;
    }
    ∷ record {
      factor = external_communication;
      triggered = λ f. f.write && f.external_communication;
      raise = at_least_medium;
    }
    ∷ []

-- `if raised := …; rank(raised) > rank(level) { level = raised }`
unfoldable pub higher : Level → Level → Level
unfolding rank
higher raised level = if ltb (rank level) (rank raised) then raised else level

-- The loop over the table: the level so far and the reasons so far.
unfoldable pub apply_rules : Factors → Level → List Rule → Level → List Factor → Assessment
apply_rules f baseline [] level reasons = record { level = level; factors = reasons }
apply_rules f baseline (r ∷ rs) level reasons =
    apply_rules f baseline rs (if r.triggered f then higher (r.raise baseline) level else level)
      (if r.triggered f then reasons ++ r.factor ∷ [] else reasons)

unfoldable pub first_reasons : Factors → List Factor
first_reasons f = if f.write then declared_label ∷ [] else declared_label ∷ read_only ∷ []

unfoldable pub evaluate : Factors → Result Assessment
unfolding validate level_of first_reasons
evaluate f = do
  validate f
  ok (apply_rules f (level_of f.declared_label) rules (level_of f.declared_label) (first_reasons f))
