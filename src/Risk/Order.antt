-- ===== src/Risk/Order.antt =====
-- internal/core/risk/engine.go: the order of the rule table, and the reasons that it lists.
use mathlib.Core.List.{Permᴰ, append-nil, append_assoc}
use open_delo.Prelude.{
  ◌≡◌, refl, sym, ap, ◌⊎◌, ◌∙◌, ◌↔◌, true, false, List, [], ◌∷◌, ◌++◌, map, keep, arith,
  if◌then◌else◌,
}
use open_delo.Platform.AppError.{ok, err, invalid_request}
use open_delo.Prelude.Int.{is_neg}
use open_delo.Risk.Level.{Level, level_of}
use open_delo.Risk.Factors.{Factors, valid_label, valid_trust_level, valid_device_trust}
use open_delo.Risk.Engine.{
  Rule, Factor, declared_label, read_only, Assessment, rules, higher, apply_rules, first_reasons,
  evaluate,
}
use open_delo.Risk.Bounds.{raise_all, level-apply_rules}

higher_swap : (x y l : Level) → higher x (higher y l) ≡ higher y (higher x l)
unfolding higher
higher_swap x y l = ground arith

abbrev raise_one : Factors → Level → Rule → Level → Level
raise_one f b r l = if r.triggered f then higher (r.raise b) l else l

raise_one_swap :
    (f : Factors) (b : Level) (r s : Rule) (l : Level)
    → raise_one f b r (raise_one f b s l) ≡ raise_one f b s (raise_one f b r l)
raise_one_swap f b r s l = ground (arith, higher_swap (r.raise b) (s.raise b) l)

raise_all-Permᴰ :
    (f : Factors) (b : Level) {rs ss : List Rule} (l : Level)
    → Permᴰ rs ss
    → raise_all f b rs l ≡ raise_all f b ss l
unfolding raise_all
raise_all-Permᴰ f b l Permᴰ.nil = refl
raise_all-Permᴰ f b l (Permᴰ.cons {a = r} {l₂ = ss} e p) =
    raise_all-Permᴰ f b (raise_one f b r l) p ∙ ap (λ s. raise_all f b ss (raise_one f b s l)) e
raise_all-Permᴰ f b l (Permᴰ.swap {a = r} {b = s} {l = rest} e g) =
    ap (raise_all f b rest) (raise_one_swap f b s r l)
    ∙ (λ i. raise_all f b rest (raise_one f b (e i) (raise_one f b (g i) l)))
raise_all-Permᴰ f b l (Permᴰ.trans p q) = raise_all-Permᴰ f b l p ∙ raise_all-Permᴰ f b l q

-- The reasons of the rules that fire, in the order of the table.
abbrev pub fired : Factors → List Rule → List Factor
fired f rs = map (λ r. r.factor) (keep (λ r. r.triggered f) rs)

factors-apply_rules :
    (f : Factors) (b : Level) (rs : List Rule) (l : Level) (reasons : List Factor)
    → (apply_rules f b rs l reasons).factors ≡ reasons ++ fired f rs
unfolding apply_rules
factors-apply_rules f b [] l reasons = sym (append-nil reasons)
factors-apply_rules f b (r ∷ rs) l reasons = ground (
  arith,
  factors-apply_rules f b rs (higher (r.raise b) l) (reasons ++ r.factor ∷ []),
  factors-apply_rules f b rs l reasons,
  append_assoc reasons (r.factor ∷ []) (fired f rs),
)

-- The assessment of a successful run is the loop's.
pub evaluate-apply_rules :
    (f : Factors) (a : Assessment)
    → evaluate f ≡ ok a
    → a
      ≡ apply_rules f
          (level_of f.declared_label)
          rules
          (level_of f.declared_label)
          (first_reasons f)
unfolding evaluate
evaluate-apply_rules f a h = ground arith

-- In a successful assessment the reasons are the declared label, `read_only` for a read, and those
-- of the rules that fire, in the table's order.
pub evaluate_reasons :
    (f : Factors) (a : Assessment)
    → evaluate f ≡ ok a
    → a.factors
      ≡ (if f.write then declared_label ∷ [] else declared_label ∷ read_only ∷ []) ++ fired f rules
unfolding first_reasons
evaluate_reasons f a h =
    ap (λ (x : Assessment). x.factors) (evaluate-apply_rules f a h)
    ∙ factors-apply_rules f (level_of f.declared_label) rules (level_of f.declared_label) _

-- Where `evaluate` succeeds, a table with the same rules in any other order gives the same level.
pub evaluate_any_order :
    (f : Factors) (a : Assessment) (table : List Rule)
    → evaluate f ≡ ok a
    → Permᴰ rules table
    → (apply_rules f
        (level_of f.declared_label)
        table
        (level_of f.declared_label)
        (first_reasons f)).level
      ≡ a.level
evaluate_any_order f a table h p =
    let b : Level = level_of f.declared_label in
    level-apply_rules f b table b (first_reasons f)
    ∙ sym (raise_all-Permᴰ f b b p)
    ∙ sym (level-apply_rules f b rules b (first_reasons f))
    ∙ sym (ap (λ (x : Assessment). x.level) (evaluate-apply_rules f a h))

-- `evaluate` refuses a request exactly if its label or a trust value is unknown or its resource
-- count is negative, and the error is `invalid_request`.
pub evaluate_refuses :
    (f : Factors)
    → (evaluate f ≡ err invalid_request) ↔ (
        (valid_label f.declared_label ≡ false)
        ⊎ (valid_trust_level f.agent_trust ≡ false)
        ⊎ (valid_device_trust f.device_trust ≡ false)
        ⊎ (is_neg f.resource_count ≡ true))
unfolding evaluate
evaluate_refuses f = grind arith
